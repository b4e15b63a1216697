-- ===== src/Api/Pulls.antt =====
-- src/parser.c and src/parsenext.c: a pull parser made of a text, and the calls of jsnpg_parse_next.
use jsnpg.Base.{
  ℕ, ◌≤◌, List, [], ◌∷◌, Bool, true, false, none, some, ◌≡◌, refl, sym, ◌∙◌, subst, length,
}
use jsnpg.Base.Memory.{Memory, Holds}
use jsnpg.Types.{Event, type_eof}
use jsnpg.Floats.{FloatLib}
use jsnpg.Stack.{get_stack_size}
use jsnpg.Input.{mis_new}
use jsnpg.Json.{Value, depth, events}
use jsnpg.Sax.{Options}
use jsnpg.Sax.Whole.{Document}
use jsnpg.Dom.{Dom, DomInfo, chain, dom_new, dom_event, dom_parse_next, payload_of, type_of}
use jsnpg.Dom.Replays.{Stores}
use jsnpg.Dom.Pulls.{Pulled, at_end, pulled, dom_parse_next-Stores}
use jsnpg.Pull.{PullParser, dom_view, dom_update, jsnpg_parse_next, jsnpg_parse_result}
use jsnpg.Pull.Yields.{Carries, Shows, Yields, nothing, yields}
use jsnpg.Pull.Whole.{Ends, parse_next-Document}
use jsnpg.Api.{Inputs, jsnpg_parser_new_opt, pull_parser}
use jsnpg.Api.Texts.{parser_stack-Ready, made_of_bytes, parser_set_bytes-Document}

-- the one input that holds bytes
abbrev pub of_bytes : Memory → ℕ → Inputs
of_bytes m n = record { bytes = some (m, n); string = none; dom = false }

-- the one input that is a DOM
abbrev pub of_dom : Inputs
of_dom = record { bytes = none; string = none; dom = true }

module _ (lib : FloatLib) (opts : Options) where
  payload_of-Carries :
      (e : Event (lib.Real)) (p : PullParser (lib.Real))
      → Carries p.text.mis e (payload_of e p.text.gen.result.payload)
  unfolding payload_of
  payload_of-Carries Event.null p = tt
  payload_of-Carries (Event.boolean b) p = tt
  payload_of-Carries (Event.integer i) p = refl
  payload_of-Carries (Event.real d) p = refl
  payload_of-Carries (Event.string bs) p = refl
  payload_of-Carries (Event.key bs) p = refl
  payload_of-Carries Event.start_array p = tt
  payload_of-Carries Event.end_array p = tt
  payload_of-Carries Event.start_object p = tt
  payload_of-Carries Event.end_object p = tt

  -- A pull parser that is made of the bytes of a document gives the events of the document's value,
  -- one at a call: each call returns the type of its event, and jsnpg_parse_result then has that
  -- type, the place in the text and the event's value. The next call returns JSNPG_EOF at the end
  -- of the text, and the one behind it fails. The value nests no deeper than the parser's stack, of
  -- at most 2048 entries.
  pub jsnpg_parse_next-Document :
      (max_nesting : ℕ) (m : Memory) (text : List ℕ) (x : Value (lib.Real))
      → Holds m 0 text
      → Document opts.validate_utf8 x text
      → depth x ≤ get_stack_size max_nesting
      → get_stack_size max_nesting ≤ 2048
      → (q : PullParser (lib.Real)) × Yields lib opts
          (events x [])
          (pull_parser max_nesting (of_bytes m (length text)) [])
          q
        × Ends lib opts (length text) q
  unfolding pull_parser jsnpg_parser_new_opt
  jsnpg_parse_next-Document max_nesting m text x h d deep small =
      let limit = get_stack_size max_nesting in
      let (stands, count, fresh) = parser_set_bytes-Document opts.validate_utf8 m text x h d in
      let (q, shown, ends) =
        parse_next-Document lib opts limit x text (made_of_bytes max_nesting m (length text)) _
          small d stands fresh refl (parser_stack-Ready limit) deep in
      (q, shown, subst (λ n. Ends lib opts n q) count ends)

  -- a call over a DOM that reads an event
  dom_call :
      (p : PullParser (lib.Real)) (d : DomInfo (lib.Real))
      → p.text.mis.start ≡ false
      → dom_parse_next (dom_view p) ≡ some d
      → jsnpg_parse_next lib opts p ≡ some (d.type, dom_update p d)
  unfolding jsnpg_parse_next
  dom_call p d over run = simp (over, run)

  -- Over a DOM the payload is that of the event, and the place is 0.
  dom_Shows :
      (e : Event (lib.Real)) (p : PullParser (lib.Real)) (d : DomInfo (lib.Real))
      → p.text.mis.start ≡ false
      → (jsnpg_parse_result p).position ≡ 0
      → d.type ≡ type_of e
      → d.payload ≡ payload_of e p.text.gen.result.payload
      → Shows e (dom_update p d)
  unfolding jsnpg_parse_result
  dom_Shows e p d over place t v = record {
    type = t;
    position = simp (place, over);
    payload = subst (Carries p.text.mis e) (sym v) (payload_of-Carries e p);
  }

  Pulled-Yields :
      (es : List (Event (lib.Real))) (p : PullParser (lib.Real))
      → p.text.mis.start ≡ false
      → (jsnpg_parse_result p).position ≡ 0
      → Pulled es (dom_view p)
      → (q : PullParser (lib.Real)) × Yields lib opts es p q
        × (r : PullParser (lib.Real)) × (jsnpg_parse_next lib opts q ≡ some (type_eof, r))
  unfolding jsnpg_parse_result
  Pulled-Yields [] p over place (at_end {p' = d} run eof) =
      (p, nothing, dom_update p d, dom_call p d over run ∙ rw eof refl)
  Pulled-Yields (e ∷ es) p over place (pulled {p' = d} run t v more) =
      let (q, shown, r, ends) = Pulled-Yields es (dom_update p d) over place more in
      (
        q,
        yields (dom_call p d over run ∙ rw t refl) (dom_Shows e p d over place t v) shown,
        r,
        ends,
      )

  -- A pull parser that is made of a DOM gives the events that were stored in the DOM, one at a call,
  -- as one that is made of a text does: each call returns the type of its event, and
  -- jsnpg_parse_result then has that type and the event's value. The next call returns JSNPG_EOF.
  -- The DOM was new, and the first of the events is in its first block.
  pub jsnpg_parse_next-Stores :
      (max_nesting : ℕ) (grants : ℕ → Bool) (e : Event (lib.Real)) (es : List (Event (lib.Real)))
      (root d : Dom (lib.Real))
      → dom_new grants 0 ≡ some root
      → Stores grants d (e ∷ es) root
      → (dom_event grants e root).state.earlier ≡ []
      → (q : PullParser (lib.Real)) × Yields lib opts
          (e ∷ es)
          (pull_parser max_nesting of_dom (chain d))
          q
        × (r : PullParser (lib.Real)) × (jsnpg_parse_next lib opts q ≡ some (type_eof, r))
  unfolding pull_parser jsnpg_parser_new_opt mis_new jsnpg_parse_result
  jsnpg_parse_next-Stores max_nesting grants e es root d new stores first =
      Pulled-Yields (e ∷ es) (pull_parser max_nesting of_dom (chain d)) refl refl
        (dom_parse_next-Stores grants e es root d new stores first)
