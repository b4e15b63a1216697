-- ===== src/Sax/Whole.antt =====
-- src/parse.c: a whole text, white space around one JSON value, is read and sent.
use jsnpg.Base.{
  ℕ, suc, ◌+◌, ◌-◌, ◌≤◌, ◌<◌, List, [], ◌∷◌, ◌++◌, append_assoc, Bool, true, Option, ◌≡◌, refl, ◌∙◌,
  arith, length, length-append, ◌==◌,
}
use jsnpg.Base.Memory.{Holds, Holds-left, Holds-right}
use jsnpg.Types.{Event}
use jsnpg.Floats.{FloatLib}
use jsnpg.Input.{Mis, mis_peek}
use jsnpg.Json.{Value, depth, events}
use jsnpg.Json.Grammar.{Blank, Spells}
use jsnpg.Json.Grammar.First.{Spells-Opening, Blank-EndsInteger}
use jsnpg.Parser.Escape.Reads.{forward}
use jsnpg.Parser.Moved.{Moved, Moved-forward, Moved-then, Holds-Moved}
use jsnpg.Sax.{Options, State, ok, white, rounds, parse_generate, parse_texts}
use jsnpg.Sax.Steps.{bind-ok, rounds-plain_at, behind_value-end}
use jsnpg.Sax.Items.{white-Blank}
use jsnpg.Generate.Sends.{Sends, Sends-final}
use jsnpg.Sax.Runs.{Ready, Runs}
use jsnpg.Sax.Reads.{white-none}
use jsnpg.Sax.Values.{value-Reads}

-- The text of a whole document: one value, with white space around it.
pub record Document (v : Bool) {R : Type 0} (x : Value R) (text : List ℕ) : Type 0 where
  pub before : List ℕ
  pub body : List ℕ
  pub after : List ℕ
  pub before_Blank : Blank before
  pub spells : Spells v x body
  pub after_Blank : Blank after
  pub parts : text ≡ before ++ (body ++ after)

-- The text ahead in the stream, to the end of its bytes, with the zero byte behind it.
abbrev pub Stands : Mis → List ℕ → Type 0
Stands mis text = Holds mis.bytes mis.read (text ++ 0 ∷ []) × (mis.read + length text ≡ mis.count)

module _ {G : Type 0} (lib : FloatLib) (send : Event (lib.Real) → G → Option (Bool × G))
    (opts : Options) (limit : ℕ) (small : limit ≤ 2048) (goal : G) where
  -- parse_generate reads the document and sends its events, and is at the end of the text.
  pub parse_generate-Document :
      (x : Value (lib.Real)) (a w b : List ℕ) (s : State G) (fuel : ℕ)
      → Blank a
      → Spells opts.validate_utf8 x w
      → Blank b
      → Holds s.mis.bytes s.mis.read (a ++ (w ++ (b ++ 0 ∷ [])))
      → s.mis.read + (length a + (length w + length b)) ≡ s.mis.count
      → Ready limit s.stack []
      → depth x ≤ limit
      → length w + 1 < fuel
      → Sends send goal (events x []) s.gen
      → (s' : State G) × (parse_generate lib send opts fuel s ≡ ok tt s')
        × (s'.gen ≡ goal)
        × (s'.mis.read ≡ s.mis.count)
        × Moved s.mis s'.mis (length a + (length w + length b))
  unfolding parse_generate
  parse_generate-Document x a w b s fuel blank sp blank' h all r deep le sends =
      let m = forward s.mis (length a) in
      let s₁ = record s { mis = m } in
      let hw = Holds-right s.mis.bytes s.mis.read a _ h in
      let opening =
        Spells-Opening opts.validate_utf8 x w s.mis.bytes m.read sp
          (Holds-left s.mis.bytes m.read w _ hw) in
      let hb = Holds-right s.mis.bytes m.read w _ hw in
      let first =
        white-Blank lib send opts s a (mis_peek m) blank (Holds-left s.mis.bytes s.mis.read a _ h)
          refl (opening.0) (omega (arith, all)) in
      let q : Runs lib send opts limit goal s₁ (length w) [] [] _ 1 =
        value-Reads lib send opts limit small goal x w sp s₁ [] [] (fuel - 1) 1 r
          (Holds-left s.mis.bytes m.read w _ hw) (omega (arith, all))
          (Blank-EndsInteger s.mis.bytes (m.read + length w) b [] 0 blank' (ground arith) hb)
          (omega (arith, deep)) (omega (arith, le)) sends in
      let s₂ : State G = record { mis = q.mis; stack = q.stack; gen = q.gen } in
      let s₃ = record s₂ { mis = forward q.mis (length b) } in
      let hb' = Holds-Moved m q.mis (length w) _ q.moved hb in
      let zero_byte = (Holds-right q.mis.bytes q.mis.read b _ hb').0 in
      let skipped =
        white-Blank lib send opts s₂ b 0 blank' (Holds-left q.mis.bytes q.mis.read b _ hb')
          zero_byte (refl, λ e. omega (arith, e))
          (omega (arith, all, q.moved.read, q.moved.count)) in
      let ended =
        behind_value-end lib send opts q.k (q.k - 1) q.fuel 0 s₂ s₃ (omega (arith, q.enough'))
          skipped (λ e. omega (arith, e)) in
      let run : rounds lib send opts fuel 2 (mis_peek m) s₁ ≡ ok tt s₃ =
        rounds-plain_at lib send opts fuel (fuel - 1) 2 (mis_peek m) s₁ (omega (arith, le)) refl
        ∙ q.goes
        ∙ ended in
      let again =
        white-none lib send opts limit small goal s₃ (rw zero_byte (refl, λ e. omega (arith, e)))
          (omega (arith, all, q.moved.read, q.moved.count)) in
      (
        s₃,
        bind-ok (white lib send opts) _ s s₁ (mis_peek m) first
            ∙ bind-ok (rounds lib send opts fuel 2 (mis_peek m)) _ s₁ s₃ tt run
            ∙ bind-ok (white lib send opts) _ s₃ s₃ (mis_peek s₃.mis) again,
        Sends-final q.sends,
        omega (arith, all, q.moved.read),
        Moved-then s.mis m s₃.mis (length a) (length w + length b) _
            (Moved-forward s.mis (length a))
            (Moved-then m q.mis s₃.mis (length w) (length b) _ q.moved
              (Moved-forward q.mis (length b)) refl)
            refl,
      )

  -- The loop of parse ends behind the document, with the generator that has taken its events.
  pub parse_texts-Document :
      (x : Value (lib.Real)) (text : List ℕ) (s : State G) (fuel more : ℕ)
      → Document opts.validate_utf8 x text
      → Stands s.mis text
      → Ready limit s.stack []
      → depth x ≤ limit
      → length text + 1 < fuel
      → Sends send goal (events x []) s.gen
      → (s' : State G) × (parse_texts lib send opts (suc more) fuel s ≡ ok tt s')
        × (s'.gen ≡ goal)
        × (s'.mis.read ≡ s.mis.count)
        × (s'.mis.start ≡ s.mis.start)
  unfolding parse_texts
  parse_texts-Document x text s fuel more d h r deep le sends =
      let a = d.before in
      let w = d.body in
      let b = d.after in
      let regroup : text ++ 0 ∷ [] ≡ a ++ (w ++ (b ++ 0 ∷ [])) = rw (d.parts) (simp append_assoc) in
      let size : length text ≡ length a + (length w + length b) =
        rw (d.parts) (omega (arith, length-append a (w ++ b), length-append w b)) in
      let (s', run, gen, end, moved) =
        parse_generate-Document x a w b s fuel d.before_Blank d.spells d.after_Blank
          (rw regroup at h.0) (omega (arith, h.1, size)) r deep (omega (arith, le, size)) sends in
      let eof : (s'.mis.read == s'.mis.count) ≡ true = ground (arith, end, moved.count) in
      (
        s',
        bind-ok (parse_generate lib send opts fuel) _ s s' tt run ∙ rw eof refl,
        gen,
        end,
        moved.start,
      )
