-- ===== src/Tests/Nestings.antt =====
-- The generator at concrete inputs.
use jsnpg.Base.{ℕ, ◌+◌, [], ◌∷◌, true, false, none, some, refl, arith}
use jsnpg.Types.{Event}
use jsnpg.Generate.{Callbacks, Generator, generator_new, check}
use jsnpg.Generate.Nesting.{Nested, Agrees, check-Agrees}
use jsnpg.Json.{Value, array, object, element, last, member, done, events}
use jsnpg.Generate.Documents.{deliver_all, Passed, deliver_all-events, generator_new-Nested}

-- callbacks that count the strings, and stop at a null
abbrev counting : Callbacks ℕ ℕ
counting = record {
  boolean = none;
  null = some (λ n. (false, n));
  integer = none;
  real = none;
  string = some (λ s n. (true, n + 1));
  key = none;
  start_array = none;
  end_array = none;
  start_object = none;
  end_object = none;
}

abbrev fresh : Generator ℕ ℕ
fresh = generator_new 1024 false counting 0

fresh-Nested : Nested fresh []
fresh-Nested = generator_new-Nested 1024 false counting 0 (omega arith) (omega arith) refl

-- [{"a": "b"}, "c"]
abbrev sample : Value ℕ
sample = array (
    element (object (member (97 ∷ []) (Value.string (98 ∷ [])) done))
      (element (Value.string (99 ∷ [])) last))

check-Agrees_example : Agrees (check Event.end_object fresh) none 1024
check-Agrees_example = check-Agrees fresh [] Event.end_object fresh-Nested

deliver_all-events_example : Passed (deliver_all (events sample []) fresh) [] 1024
unfolding generator_new
deliver_all-events_example = deliver_all-events sample fresh [] [] fresh-Nested refl (omega arith)
