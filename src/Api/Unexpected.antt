-- ===== src/Api/Unexpected.antt =====
-- src/parse.c: a text that does not begin with a value.
use jsnpg.Base.{
  ℕ, suc, ◌+◌, ◌≤◌, List, [], ◌∷◌, ◌++◌, append_assoc, Bool, false, ◌||◌, none, some, ◌≡◌, refl,
  sym, ◌∙◌, ap, arith, length, length-append, ◌==◌, between,
}
use jsnpg.Base.Memory.{Memory, Holds, Holds-left, Holds-right}
use jsnpg.Types.{ErrorCode, error_unexpected}
use jsnpg.Floats.{FloatLib}
use jsnpg.Stack.{get_stack_size}
use jsnpg.Utf8.{utf8_bom_bytes}
use jsnpg.Input.{mis_new, mis_set_bytes}
use jsnpg.Json.Grammar.{Blank}
use jsnpg.Parser.White.Blank.{Solid}
use jsnpg.Parser.Escape.Reads.{forward}
use jsnpg.Errors.{make_error_return, make_pg_error_return, generator_error}
use jsnpg.Generate.{Generator, deliver, jsnpg_result_error}
use jsnpg.Sax.{
  Options, State, Run, thrown, white, rounds, parse_value, parse_generate, parse_texts, ◌>>=◌,
}
use jsnpg.Sax.Steps.{bind-ok, behind, next, rounds-plain_at}
use jsnpg.Sax.Items.{white-Blank}
use jsnpg.Api.{
  ParseOpts, generator_of, parse, parser_stack, parser_set_bytes, with_generator, jsnpg_parse_opt,
}
use jsnpg.Api.Texts.{one_input, parser_set_bytes-Stands}

-- the bytes that a value can begin with
abbrev pub begins_value : ℕ → Bool
begins_value c =
    c == b'['
    || c == b'{'
    || c == b'"'
    || c == b't'
    || c == b'f'
    || c == b'n'
    || c == b'-'
    || between b'0' b'9' c

module _ (lib : FloatLib) {C : Type 0} (opts : Options) where
  parse_value-Unexpected :
      (c : ℕ) (s : State (Generator (lib.Real) C))
      → begins_value c ≡ false
      → parse_value lib deliver opts 2 c s ≡ thrown error_unexpected s.mis.read s
  unfolding parse_value
  parse_value-Unexpected c s h = ground (arith, h)

  bind-thrown :
      {A B : Type 0} (m : State (Generator (lib.Real) C) → Run (Generator (lib.Real) C) A)
      (f : A → State (Generator (lib.Real) C) → Run (Generator (lib.Real) C) B)
      (s s' : State (Generator (lib.Real) C)) (code : ErrorCode) (at : ℕ)
      → m s ≡ thrown code at s'
      → (m >>= f) s ≡ thrown code at s'
  bind-thrown m f s s' code at e = rw (e, ◌>>=◌) refl

  -- The loop ends at the first byte behind the white space, where no value begins with it.
  parse_texts-Unexpected :
      (a : List ℕ) (c : ℕ) (s : State (Generator (lib.Real) C)) (fuel more : ℕ)
      → Blank a
      → Holds s.mis.bytes s.mis.read (a ++ c ∷ [])
      → s.mis.read + length a ≤ s.mis.count
      → Solid c
      → begins_value c ≡ false
      → (s' : State (Generator (lib.Real) C)) × (parse_texts lib deliver opts
            (suc more)
            (suc fuel)
            s
          ≡ thrown error_unexpected (s.mis.read + length a) s')
        × (s'.gen ≡ s.gen)
  unfolding parse_texts parse_generate
  parse_texts-Unexpected a c s fuel more blank h room solid none_begins =
      let s' = record s { mis = forward s.mis (length a) } in
      let at_c = (Holds-right s.mis.bytes s.mis.read a (c ∷ []) h).0 in
      let skipped =
        white-Blank lib deliver opts s a c blank (Holds-left s.mis.bytes s.mis.read a (c ∷ []) h)
          at_c solid room in
      let at = s.mis.read + length a in
      let value = parse_value-Unexpected c s' none_begins in
      let run : rounds lib deliver opts (suc fuel) 2 c s' ≡ thrown error_unexpected at s' =
        rounds-plain_at lib deliver opts (suc fuel) fuel 2 c s' refl refl
        ∙ bind-thrown (parse_value lib deliver opts 2 c >>= behind lib deliver opts fuel)
            (next lib deliver opts fuel) s' s' error_unexpected at
            (bind-thrown (parse_value lib deliver opts 2 c) (behind lib deliver opts fuel) s' s'
              error_unexpected at value) in
      let text : parse_generate lib deliver opts (suc fuel) s ≡ thrown error_unexpected at s' =
        bind-ok (white lib deliver opts) _ s s' c skipped
        ∙ bind-thrown (rounds lib deliver opts (suc fuel) 2 c) _ s' s' error_unexpected at run in
      (
        s',
        bind-thrown (parse_generate lib deliver opts (suc fuel)) _ s s' error_unexpected at text,
        refl,
      )

-- a text in which a byte stands behind white space, or its end
abbrev pub Stops : List ℕ → List ℕ → ℕ → Type 0
Stops text a c = (rest : List ℕ) × (text ++ 0 ∷ [] ≡ a ++ c ∷ rest)

-- Where the first byte of a text behind its white space, or the zero behind a text that is all white
-- space, begins neither a value nor a comment, jsnpg_parse_opt reports JSNPG_ERROR_UNEXPECTED at that
-- byte, and the generator has been sent nothing. No byte order mark is counted in front.
pub jsnpg_parse_opt-Unexpected :
    (lib : FloatLib) {C : Type 0} (o : ParseOpts (lib.Real) C) (m : Memory) (text a : List ℕ)
    (c : ℕ) (g : Generator (lib.Real) C) (fuel more : ℕ)
    → o.bytes ≡ some (m, length text)
    → o.dom ≡ none
    → generator_of o ≡ some g
    → utf8_bom_bytes m (length text) ≡ 0
    → Holds m 0 text
    → Blank a
    → Stops text a c
    → Solid c
    → begins_value c ≡ false
    → jsnpg_parse_opt lib o (suc more) (suc fuel)
      ≡ some (make_error_return error_unexpected (length a), some g)
unfolding parse make_error_return make_pg_error_return generator_error parser_set_bytes
    mis_set_bytes mis_new
jsnpg_parse_opt-Unexpected lib o m text a c g fuel more given alone sink unmarked h blank
      (rest, parts) solid none_begins =
    let mis = parser_set_bytes mis_new m (length text) in
    let s : State (Generator (lib.Real) _) = record {
      mis = mis;
      stack = parser_stack (get_stack_size o.max_nesting);
      gen = g;
    } in
    let (held, size) = parser_set_bytes-Stands m text h unmarked in
    let count : mis.count ≡ length text = rw unmarked (omega arith) in
    let lengths : length text + 1 ≡ length a + suc (length rest) =
      sym (length-append text (0 ∷ [])) ∙ ap length parts ∙ length-append a (c ∷ rest) in
    let held' =
      Holds-left mis.bytes 0 (a ++ c ∷ []) rest
        (rw (append_assoc a (c ∷ []) rest) (rw parts at held)) in
    let (s', run, gen) =
      parse_texts-Unexpected lib o.allow a c s fuel more blank held' (omega (arith, count, lengths))
        solid none_begins in
    let here : 0 + length a ≡ length a = omega arith in
    let failed : parse lib deliver o.allow jsnpg_result_error (suc more) (suc fuel) s
        ≡ some (make_error_return error_unexpected (length a), g) =
      rw (run, parse) (rw (gen, here) refl) in
    one_input lib o m (length text) g (suc more) (suc fuel) given alone sink
    ∙ ap (with_generator lib) failed
