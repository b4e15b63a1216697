-- ===== src/Pull/Bounds/Steps.antt =====
-- src/parsenext.c: each state of parse_next, whatever byte is ahead.
use jsnpg.Base.{ℕ, Bool, true, false, ◌≡◌, ◌≢◌, refl, arith, ◌==◌, if◌then◌else◌}
use jsnpg.Types.{type_key, type_end_array, type_end_object, Payload, error_expected_key}
use jsnpg.Floats.{FloatLib}
use jsnpg.Input.{Mis, mis_peek, mis_take}
use jsnpg.Parser.White.{consume_whitespace}
use jsnpg.Parser.Strings.{parse_string}
use jsnpg.Parser.Bounds.{Onward-none, Any, Seen}
use jsnpg.Parser.Bounds.Numbers.{Strtod}
use jsnpg.Parser.Bounds.Strings.{parse_string-Stays}
use jsnpg.Sax.{Options, State, Run, ◌>>=◌, ◌>>◌, throw, pure, on_input, take_byte}
use jsnpg.Sax.Bounds.{
  Ahead, white-Finishes, Seen-nonzero, Finishes, Fine, Done, Finishes-later, Finishes-bind,
  Finishes-if, take_byte-Finishes,
}
use jsnpg.Stack.{Stack, stack_object, stack_array}
use jsnpg.Sax.Bounds.Tracks.{Tracks}
use jsnpg.Pull.{
  state_key, Progress, accept_in, expect_value, expect_key, in_object, in_array, after_member,
  after_element,
}
use jsnpg.Pull.Bounds.{
  Kept, Valued, accept_in-Pulls, accept_end-Pulls, reads, white-Pulls, expect_value-Pulls,
}

module _ (lib : FloatLib) (strtod : Strtod lib) (opts : Options) where
  abbrev At :
      {A : Type 0}
      → ℕ
      → (A → State (Progress (lib.Real)) → Type 0)
      → Mis
      → Run (Progress (lib.Real)) A
      → Type 0
  At = Finishes Kept

  -- where an object is the innermost container
  abbrev InObject : Stack → Progress (lib.Real) → Type 0
  InObject stack g = Kept stack g × Tracks stack_object stack

  pub expect_key-Pulls :
      (b : ℕ) (p : State (Progress (lib.Real)))
      → Fine Kept p
      → Seen b p.mis
      → Tracks stack_object p.stack
      → At 1 Done p.mis (expect_key lib opts b p)
  unfolding expect_key
  expect_key-Pulls b p i seen tracks =
      Finishes-if Kept Done 1 p.mis (b == b'"') _ _
        (λ e.
          reads lib strtod opts Any 1 (parse_string opts.validate_utf8) _ p i
            (parse_string-Stays opts.validate_utf8 p.mis i.0
              (Seen-nonzero b p.mis seen (λ z. ground (arith, e, z))))
            (λ count q iq same same_stack d.
              white-Pulls lib strtod opts _ q iq (λ c r ir same' same_stack' seen'.
                colon count c r ir seen' (rw (same_stack', same_stack) tracks))))
        (λ e. tt)
    where
      colon :
          (count c : ℕ) (r : State (Progress (lib.Real)))
          → Fine Kept r
          → Seen c r.mis
          → Tracks stack_object r.stack
          → At 0 Done r.mis (
              let accepted =
                (take_byte >> (λ (t : State (Progress (lib.Real))).
                  accept_in state_key type_key (Payload.text t.mis.string count) t)) in
              if c == b':' then accepted r else throw error_expected_key r)
      colon count c r ir seen' tracks' =
          Finishes-if Kept Done 0 r.mis (c == b':') _ _
            (λ e.
              Finishes-bind InObject Kept Done Done 1 0 0 take_byte _ r
                (take_byte-Finishes InObject r (ir.0, (ir.1, tracks'))
                  (Seen-nonzero c r.mis seen' (λ z. ground (arith, e, z))))
                (omega arith)
                (λ u t o it d.
                  accept_in-Pulls lib strtod opts state_key type_key
                    (Payload.text t.mis.string count) t it.0 tt it.1.1))
            (λ e. tt)

  pub in_object-Pulls :
      (b : ℕ) (p : State (Progress (lib.Real)))
      → Fine Kept p
      → Seen b p.mis
      → Tracks stack_object p.stack
      → At 1 Done p.mis (in_object lib opts b p)
  unfolding in_object
  in_object-Pulls b p i seen tracks =
      Finishes-if Kept Done 1 p.mis (b == b'}') _ _
        (λ e.
          accept_end-Pulls lib strtod opts stack_object type_end_object p i (omega arith) tracks
            (Seen-nonzero b p.mis seen (λ z. ground (arith, e, z))))
        (λ e. expect_key-Pulls b p i seen tracks)

  pub in_array-Pulls :
      (b : ℕ) (p : State (Progress (lib.Real)))
      → Fine Kept p
      → Seen b p.mis
      → Tracks stack_array p.stack
      → Valued p.gen.state p.stack
      → At 1 Done p.mis (in_array lib opts b p)
  unfolding in_array
  in_array-Pulls b p i seen tracks valued =
      Finishes-if Kept Done 1 p.mis (b == b']') _ _
        (λ e.
          accept_end-Pulls lib strtod opts stack_array type_end_array p i (omega arith) tracks
            (Seen-nonzero b p.mis seen (λ z. ground (arith, e, z))))
        (λ e. expect_value-Pulls lib strtod opts b p i seen valued)

  pub after_member-Pulls :
      (b : ℕ) (p : State (Progress (lib.Real)))
      → Fine Kept p
      → Seen b p.mis
      → Tracks stack_object p.stack
      → At 1 Done p.mis (after_member lib opts b p)
  unfolding after_member
  after_member-Pulls b p i seen tracks =
      Finishes-if Kept Done 1 p.mis (b == b'}') _ _
        (λ e.
          accept_end-Pulls lib strtod opts stack_object type_end_object p i (omega arith) tracks
            (Seen-nonzero b p.mis seen (λ z. ground (arith, e, z))))
        (λ e.
          Finishes-bind InObject Kept Ahead Done 0 1 1
            (if b == b',' then take_byte >> on_input (consume_whitespace opts.comments) else pure b)
            (λ c. if opts.trailing_commas then in_object lib opts c else expect_key lib opts c) p
            (skipped (b == b',') (λ e'. Seen-nonzero b p.mis seen (λ z. ground (arith, e', z))))
            (omega arith)
            (λ c q o iq seen'. key opts.trailing_commas c q (iq.0, iq.1.0) seen' iq.1.1))
    where
      skipped :
          (comma : Bool)
          → (comma ≡ true → mis_peek p.mis ≢ 0)
          → Finishes InObject 0 Ahead p.mis (
              (if comma then take_byte >> on_input (consume_whitespace opts.comments) else pure b)
                p)
      skipped true ne =
          Finishes-bind InObject InObject Done Ahead 1 0 0 take_byte _ p
            (take_byte-Finishes InObject p (i.0, (i.1, tracks)) (ne refl)) (omega arith)
            (λ u q o iq d. white-Finishes InObject opts.comments q iq)
      skipped false ne = (Onward-none p.mis i.0, (i.0, (i.1, tracks)), seen)

      key :
          (t : Bool) (c : ℕ) (q : State (Progress (lib.Real)))
          → Fine Kept q
          → Seen c q.mis
          → Tracks stack_object q.stack
          → At 1 Done q.mis ((if t then in_object lib opts c else expect_key lib opts c) q)
      key true c q iq seen' tracks' = in_object-Pulls c q iq seen' tracks'
      key false c q iq seen' tracks' = expect_key-Pulls c q iq seen' tracks'

  pub after_element-Pulls :
      (b : ℕ) (p : State (Progress (lib.Real)))
      → Fine Kept p
      → Seen b p.mis
      → Tracks stack_array p.stack
      → Valued p.gen.state p.stack
      → At 1 Done p.mis (after_element lib opts b p)
  unfolding after_element
  after_element-Pulls b p i seen tracks valued =
      Finishes-if Kept Done 1 p.mis (b == b']') _ _
        (λ e.
          accept_end-Pulls lib strtod opts stack_array type_end_array p i (omega arith) tracks
            (Seen-nonzero b p.mis seen (λ z. ground (arith, e, z))))
        (λ n₁.
          Finishes-if Kept Done 1 p.mis (b == b',') _ _
            (λ e. skipped (Seen-nonzero b p.mis seen (λ z. ground (arith, e, z)))) (λ n₂. tt))
    where
      element :
          (t : Bool) (c : ℕ) (q : State (Progress (lib.Real)))
          → Fine Kept q
          → q.gen ≡ p.gen
          → q.stack ≡ p.stack
          → Seen c q.mis
          → At 0 Done q.mis ((if t then in_array lib opts c else expect_value lib opts c) q)
      element true c q iq same same_stack seen' =
          Finishes-later Kept Done 0 1 0 q.mis q.mis _ (Onward-none q.mis iq.0) (omega arith)
            (in_array-Pulls c q iq seen' (rw same_stack tracks) (rw (same, same_stack) valued))
      element false c q iq same same_stack seen' =
          Finishes-later Kept Done 0 1 0 q.mis q.mis _ (Onward-none q.mis iq.0) (omega arith)
            (expect_value-Pulls lib strtod opts c q iq seen' (rw (same, same_stack) valued))

      skipped :
          mis_peek p.mis ≢ 0
          → At 1 Done p.mis (
              (take_byte
                  >> (on_input (consume_whitespace opts.comments) >>= λ (c : ℕ).
                      if opts.trailing_commas
                      then in_array lib opts c
                      else expect_value lib opts c))
                p)
      skipped ne =
          let (o, iq, d) = take_byte-Finishes Kept p i ne in
          let q = record p { mis = mis_take p.mis } in
          Finishes-later Kept Done 1 0 1 p.mis q.mis _ o (omega arith) (
            white-Pulls lib strtod opts
              (λ c. if opts.trailing_commas then in_array lib opts c else expect_value lib opts c) q
              iq
              (λ c r ir same same_stack seen'.
                element opts.trailing_commas c r ir same same_stack seen'))
