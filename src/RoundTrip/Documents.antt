-- ===== src/RoundTrip/Documents.antt =====
-- src/output.c and src/parse.c: a JSON value that is printed and parsed again.
use jsnpg.Base.{
  ℕ, ◌+◌, ◌≤◌, List, [], ◌++◌, append-nil, Bool, true, false, none, some, ◌≡◌, refl, sym, ◌∙◌, ap,
  arith, length,
}
use jsnpg.Types.{type_eof, Payload}
use jsnpg.Floats.{FloatLib}
use jsnpg.Json.{Value, depth, events}
use jsnpg.Stack.{get_stack_size}
use jsnpg.Generate.{Generator}
use jsnpg.Generate.Sends.{Sends, sent}
use jsnpg.Generate.Documents.{deliver_all}
use jsnpg.Output.Stream.{Jos, jos_new}
use jsnpg.Output.Buffer.Grows.{Contains, mos_new-Contains}
use jsnpg.Output.Printer.Places.{At}
use jsnpg.Sax.Whole.{Document}
use jsnpg.Api.{ParseOpts, generator_of, jsnpg_parse_opt}
use jsnpg.Api.Texts.{jsnpg_parse_opt-Document}
use jsnpg.RoundTrip.Written.{Printable, print_callback}
use jsnpg.RoundTrip.Values.{value-Written}

-- A new stream holds nothing.
jos_new-At : (indent : ℕ) (v : Bool) → At (jos_new indent v) v 0 false false []
unfolding jos_new
jos_new-At indent v = record {
  validates = refl;
  level_is = refl;
  comma_is = refl;
  key_is = refl;
  contains = mos_new-Contains 0;
}

module _ (grants : ℕ → Bool) (granted : (n : ℕ) → grants n ≡ true) (lib : FloatLib)
    (real_len : ℕ) where
  -- Where memory is granted, the events of a value that can be printed, sent to the printer with any
  -- indentation, are all taken, and its buffer then holds the text of a document of that value.
  pub print_event-Document :
      (v : Bool) (indent : ℕ) (x : Value (lib.Real))
      → Printable lib v x
      → (jos : Jos) × Sends
          (print_callback grants lib real_len)
          jos
          (events x [])
          (jos_new indent v)
        × ((text : List ℕ) × Document v x text × Contains jos.mos text)
  print_event-Document v indent x p =
      let w =
        value-Written grants lib real_len v granted x (jos_new indent v) 0 false false [] p
          (jos_new-At indent v) in
      (
        w.after,
        w.sends [] w.after (sent refl),
        (
          w.blanks ++ w.body,
          record {
            before = w.blanks;
            body = w.body;
            after = [];
            before_Blank = w.blank;
            spells = w.spells;
            after_Blank = tt;
            parts = ap (λ b. w.blanks ++ b) (sym (append-nil w.body));
          },
          w.at.contains,
        ),
      )

  -- Where memory is granted, what is printed of a value without real numbers, with any indentation, is
  -- parsed again to its end, with the same setting for UTF-8: a generator, of callbacks or the one
  -- given, that takes the events of the value is sent these. The strings and keys of the value are
  -- UTF-8 where that is checked, i64toa writes its integers in decimal as JSON has them, and it nests
  -- no deeper than the parser's stack, of at most 2048 entries.
  pub jsnpg_parse_opt-print_event :
      {C : Type 0} (o : ParseOpts (lib.Real) C) (indent : ℕ) (x : Value (lib.Real))
      (g final : Generator (lib.Real) C)
      → Printable lib o.allow.validate_utf8 x
      → o.dom ≡ none
      → generator_of o ≡ some g
      → depth x ≤ get_stack_size o.max_nesting
      → get_stack_size o.max_nesting ≤ 2048
      → deliver_all (events x []) g ≡ some (true, final)
      → (jos : Jos) × Sends
          (print_callback grants lib real_len)
          jos
          (events x [])
          (jos_new indent o.allow.validate_utf8)
        × (jsnpg_parse_opt lib
              (record o { bytes = some (jos.mos.buffer, jos.mos.count) })
              1
              (jos.mos.count + 2)
            ≡ some (
              record { type = type_eof; position = jos.mos.count; payload = Payload.no_payload },
              some final,
            ))
  unfolding generator_of
  jsnpg_parse_opt-print_event o indent x g final p alone sink deep small takes =
      let (jos, sends, (text, d, c)) = print_event-Document o.allow.validate_utf8 indent x p in
      let count : jos.mos.count ≡ length text = c.count_is in
      let o' = record o { bytes = some (jos.mos.buffer, jos.mos.count) } in
      let run =
        jsnpg_parse_opt-Document lib o' jos.mos.buffer text x g final (jos.mos.count + 2) 0
          (ap (λ n. some (jos.mos.buffer, n)) count) alone sink c.holds d deep small
          (omega (arith, count)) takes in
      (
        jos,
        sends,
        run
            ∙ ap
                (λ n. some (
                  record { type = type_eof; position = n; payload = Payload.no_payload },
                  some final,
                ))
                (sym count),
      )
