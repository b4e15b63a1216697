-- ===== src/Tests/Pulls.antt =====
-- src/parsenext.c: the pull parser over a whole document and over a DOM.
use jsnpg.Base.{[], ◌∷◌, some, ◌≡◌, refl, arith}
use jsnpg.Base.Memory.{at_list, at_list-Holds}
use jsnpg.Types.{Event, type_eof}
use jsnpg.Json.{events}
use jsnpg.Stack.{get_stack_size}
use jsnpg.Dom.{
  chain, dom_event, dom_add, dom_node_next, dom_size_align, dom_new, dom_hdr_new, dom_alloc_size,
}
use jsnpg.Dom.Replays.{storing, stored}
use jsnpg.Pull.{PullParser, jsnpg_parse_next}
use jsnpg.Pull.Yields.{Yields}
use jsnpg.Pull.Whole.{Ends}
use jsnpg.Api.{pull_parser}
use jsnpg.Api.Pulls.{of_bytes, of_dom, jsnpg_parse_next-Document, jsnpg_parse_next-Stores}
use jsnpg.Tests.ParserRuns.{no_floats}
use jsnpg.Tests.Documents.{strict, text, sample, sample-Document, always, root, two_events}

jsnpg_parse_next-Document_example :
    (q : PullParser Unit) × Yields no_floats strict
      (events sample [])
      (pull_parser 0 (of_bytes (at_list text) 17) [])
      q
    × Ends no_floats strict 17 q
unfolding get_stack_size
jsnpg_parse_next-Document_example =
    jsnpg_parse_next-Document no_floats strict 0 (at_list text) text sample (at_list-Holds text)
      sample-Document (omega arith) (omega arith)

jsnpg_parse_next-Stores_example :
    (q : PullParser Unit) × Yields no_floats strict
      (Event.start_array ∷ Event.end_array ∷ [])
      (pull_parser 0 of_dom (chain two_events))
      q
    × (r : PullParser Unit) × (jsnpg_parse_next no_floats strict q ≡ some (type_eof, r))
unfolding dom_event dom_add dom_node_next dom_size_align dom_new dom_hdr_new dom_alloc_size
jsnpg_parse_next-Stores_example =
    jsnpg_parse_next-Stores no_floats strict 0 always Event.start_array (Event.end_array ∷ []) root
      two_events refl (storing (omega arith) refl (storing (omega arith) refl (stored refl))) refl
