-- ===== src/Pull/Whole.antt =====
-- src/parsenext.c: jsnpg_parse_next over a whole text, from its first item to behind its end.
use jsnpg.Base.{
  ℕ, ◌+◌, ◌≤◌, List, [], ◌∷◌, ◌++◌, append_assoc, true, some, ◌≡◌, refl, ◌∙◌, ap, arith, length,
  length-append,
}
use jsnpg.Base.Memory.{Holds, Holds-left, Holds-right}
use jsnpg.Types.{Payload, type_error, type_eof, error_eof}
use jsnpg.Errors.{make_error_return}
use jsnpg.Floats.{FloatLib}
use jsnpg.Input.{mis_peek, mis_eof}
use jsnpg.Json.{Value, depth, events}
use jsnpg.Json.Grammar.{Blank}
use jsnpg.Json.Grammar.First.{Spells-Opening, Blank-EndsInteger}
use jsnpg.Parser.Escape.Reads.{forward}
use jsnpg.Parser.Moved.{Holds-Moved}
use jsnpg.Parser.White.{consume_whitespace}
use jsnpg.Sax.{Options, State, ok, thrown, on_input}
use jsnpg.Sax.Steps.{bind-ok}
use jsnpg.Sax.Runs.{Ready}
use jsnpg.Sax.Whole.{Document, Stands}
use jsnpg.Pull.{
  DomPosition, state_start, state_done, state_eof, Progress, accept_in, make_parse_result,
  after_text, dispatch, parse_next, parser_parse_next, PullParser, jsnpg_parse_next,
  jsnpg_parse_result, expect_value, state_change_value,
}
use jsnpg.Pull.Yields.{Yields, nothing, jsnpg_parse_next-ok}
use jsnpg.Pull.Steps.{at, white-Blank, parse_next-Blank}
use jsnpg.Pull.Calls.{on_text, Pulls}
use jsnpg.Pull.Values.{value-Pulls}

module _ (lib : FloatLib) (opts : Options) where
  -- Behind the value of the text, with nothing but blanks to its end.
  at_eof :
      (p : State (Progress (lib.Real))) (b : List ℕ)
      → p.gen.state ≡ state_done
      → Blank b
      → Holds p.mis.bytes p.mis.read (b ++ 0 ∷ [])
      → p.mis.read + length b ≡ p.mis.count
      → parse_next lib opts p
        ≡ accept_in state_eof type_eof Payload.no_payload (at lib opts p (forward p.mis (length b)))
  unfolding dispatch after_text
  at_eof p b done blank h all =
      let zero_byte = (Holds-right p.mis.bytes p.mis.read b _ h).0 in
      let q = at lib opts p (forward p.mis (length b)) in
      let here : q.mis.read + 0 ≡ q.mis.read = omega arith in
      let again : on_input (consume_whitespace opts.comments) q ≡ ok 0 q = rw here at (
        white-Blank lib opts q [] 0 tt tt (rw here zero_byte) (refl, λ e. omega (arith, e))
          (omega (arith, all))) in
      let ended : mis_eof q.mis ≡ true = ground (arith, all) in
      parse_next-Blank lib opts p b 0 blank (Holds-left p.mis.bytes p.mis.read b _ h) zero_byte
        (refl, λ e. omega (arith, e)) (omega (arith, all))
      ∙ ap (λ s. dispatch lib opts s 0 q) done
      ∙ bind-ok (on_input (consume_whitespace opts.comments)) _ q q 0 again
      ∙ rw ended refl

  -- At the end of the text a call fails.
  past_eof :
      (p : State (Progress (lib.Real)))
      → p.gen.state ≡ state_eof
      → p.mis.bytes p.mis.read ≡ 0
      → p.mis.read ≤ p.mis.count
      → parse_next lib opts p ≡ thrown error_eof p.mis.read p
  unfolding dispatch
  past_eof p ended byte room =
      let here : p.mis.read + 0 ≡ p.mis.read = omega arith in
      rw here at (
        parse_next-Blank lib opts p [] 0 tt tt (rw here byte) (refl, λ e. omega (arith, e))
          (omega (arith, room)))
      ∙ ap (λ s. dispatch lib opts s 0 p) ended

  jsnpg_parse_next-thrown :
      (p : State (Progress (lib.Real))) (dom : DomPosition (lib.Real)) (n : ℕ)
      → p.mis.start ≡ true
      → parse_next lib opts p ≡ thrown error_eof n p
      → (q : PullParser (lib.Real)) × (jsnpg_parse_next lib opts (record { text = p; dom = dom })
          ≡ some (type_error, q))
        × (jsnpg_parse_result q ≡ make_error_return error_eof n)
  unfolding jsnpg_parse_next jsnpg_parse_result parser_parse_next make_error_return
  jsnpg_parse_next-thrown p dom n started run =
      let failed = record p { gen = record (p.gen) { result = make_error_return error_eof n } } in
      let e : parser_parse_next lib opts p ≡ ok type_error failed =
        rw (run, parser_parse_next) refl in
      (record { text = failed; dom = dom }, simp (started, e), refl)

  -- The calls over a text that has ended: JSNPG_EOF, and from then on an error.
  pub record Ends (n : ℕ) (p : PullParser (lib.Real)) : Type 0 where
    pub eof : PullParser (lib.Real)
    pub failed : PullParser (lib.Real)
    pub ends : jsnpg_parse_next lib opts p ≡ some (type_eof, eof)
    pub result :
        jsnpg_parse_result eof
        ≡ record { type = type_eof; position = n; payload = Payload.no_payload }
    pub fails : jsnpg_parse_next lib opts eof ≡ some (type_error, failed)
    pub error : jsnpg_parse_result failed ≡ make_error_return error_eof n

  text-Ends :
      (p : State (Progress (lib.Real))) (dom : DomPosition (lib.Real)) (b : List ℕ)
      → p.mis.start ≡ true
      → p.gen.state ≡ state_done
      → Blank b
      → Holds p.mis.bytes p.mis.read (b ++ 0 ∷ [])
      → p.mis.read + length b ≡ p.mis.count
      → Ends p.mis.count (record { text = p; dom = dom })
  unfolding accept_in jsnpg_parse_result make_parse_result
  text-Ends p dom b started done blank h all =
      let q : State (Progress (lib.Real)) = record {
        mis = forward p.mis (length b);
        stack = p.stack;
        gen = record {
          state = state_eof;
          result = make_parse_result (forward p.mis (length b)) type_eof Payload.no_payload;
        };
      } in
      let (failed, fails, error) =
        jsnpg_parse_next-thrown q dom q.mis.read started
          (past_eof q refl (Holds-right p.mis.bytes p.mis.read b _ h).0 (omega (arith, all))) in
      record {
        eof = record { text = q; dom = dom };
        failed = failed;
        ends = jsnpg_parse_next-ok lib opts p q dom type_eof started (at_eof p b done blank h all);
        result = simp (started, all);
        fails = fails;
        error = error ∙ ap (λ n. make_error_return error_eof n) all;
      }

  -- The calls over a document, from a parser that is at its start.
  pub parse_next-Document :
      (limit : ℕ) (x : Value (lib.Real)) (text : List ℕ) (p : State (Progress (lib.Real)))
      (dom : DomPosition (lib.Real))
      → limit ≤ 2048
      → Document opts.validate_utf8 x text
      → Stands p.mis text
      → p.mis.start ≡ true
      → p.gen.state ≡ state_start
      → Ready limit p.stack []
      → depth x ≤ limit
      → (q : PullParser (lib.Real)) × Yields lib opts
          (events x [])
          (record { text = p; dom = dom })
          q
        × Ends p.mis.count q
  unfolding dispatch state_change_value
  parse_next-Document limit x text p dom small d h started fresh r deep =
      let a = d.before in
      let w = d.body in
      let b = d.after in
      let regroup : text ++ 0 ∷ [] ≡ a ++ (w ++ (b ++ 0 ∷ [])) = rw (d.parts) (simp append_assoc) in
      let size : length text ≡ length a + (length w + length b) =
        rw (d.parts) (omega (arith, length-append a (w ++ b), length-append w b)) in
      let m = forward p.mis (length a) in
      let held = rw regroup at h.0 in
      let hw = Holds-right p.mis.bytes p.mis.read a _ held in
      let hb = Holds-right p.mis.bytes m.read w _ hw in
      let opening =
        Spells-Opening opts.validate_utf8 x w p.mis.bytes m.read d.spells
          (Holds-left p.mis.bytes m.read w _ hw) in
      let first : parse_next lib opts p ≡ expect_value lib opts (mis_peek m) (at lib opts p m) =
        parse_next-Blank lib opts p a (mis_peek m) d.before_Blank
          (Holds-left p.mis.bytes p.mis.read a _ held) refl (opening.0) (omega (arith, h.1, size))
        ∙ ap (λ s. dispatch lib opts s (mis_peek m) (at lib opts p m)) fresh in
      let q : Pulls lib opts limit dom p m (length w) [] (λ rest. events x rest) =
        value-Pulls lib opts limit small dom x w d.spells p m [] started started first
          (ap (λ s. state_change_value s) fresh) r (Holds-left p.mis.bytes m.read w _ hw)
          (omega (arith, h.1, size))
          (Blank-EndsInteger p.mis.bytes (m.read + length w) b [] 0 d.after_Blank (ground arith) hb)
          (omega (arith, deep)) in
      let total : q.after.mis.count ≡ p.mis.count = q.moved.count in
      (
        on_text lib opts limit dom q.after,
        q.shown [] _ nothing,
        rw total at (
            text-Ends q.after dom b (q.moved.start ∙ started) q.state d.after_Blank
              (Holds-Moved m q.after.mis (length w) _ q.moved hb)
              (omega (arith, q.moved.read, q.moved.count, h.1, size))),
      )
