-- ===== src/Dom/Pulls.antt =====
-- src/dom.c: dom_parse_next returns the events that a chain of blocks holds, one at a call.
use jsnpg.Base.{
  ℕ, ◌<◌, List, [], ◌∷◌, ◌++◌, Bool, true, false, some, ◌≡◌, refl, sym, ◌∙◌, subst, arith, leb,
}
use jsnpg.Types.{Event, JsonType, type_none, type_eof, Payload}
use jsnpg.Dom.{
  Block, Dom, DomInfo, dom_size, dom_new, dom_event, read_event, chain, payload_of, type_of,
  take_event, dom_parse_next,
}
use jsnpg.Dom.Stored.{dom_new-empty}
use jsnpg.Dom.Replays.{
  Reads, finished, reading, Reads-lt, Blocks, no_blocks, block, Filled-Blocks, Stores, storing,
  Stores-Filled, first-Filled,
}

module _ {R : Type 0} where
  -- Each call returns the type of the next event and leaves its value, and the call behind the last
  -- event returns JSNPG_EOF.
  pub data Pulled : List (Event R) → DomInfo R → Type 0 where
    at_end : {p p' : DomInfo R} → dom_parse_next p ≡ some p' → p'.type ≡ type_eof → Pulled [] p
    pulled :
        {e : Event R} {es : List (Event R)} {p p' : DomInfo R}
        → dom_parse_next p ≡ some p'
        → p'.type ≡ type_of e
        → p'.payload ≡ payload_of e p.payload
        → Pulled es p'
        → Pulled (e ∷ es) p

  -- a parser by its fields
  abbrev up_to : List (Block R) → ℕ → JsonType → Payload R → DomInfo R
  up_to hdrs offset t v = record { hdrs = hdrs; offset = offset; type = t; payload = v }

  -- what a call leaves that reads an event
  abbrev left : Block R → List (Block R) → ℕ → Event R → Payload R → DomInfo R
  left b next offset e v = up_to (b ∷ next) offset (type_of e) (payload_of e v)

  take_event-left :
      (b : Block R) (next : List (Block R)) (o o' : ℕ) (e : Event R) (p : DomInfo R)
      → read_event b o ≡ some (e, o')
      → take_event b next o p ≡ some (left b next o' e p.payload)
  unfolding take_event
  take_event-left b next o o' e p r = rw (r, take_event) refl

  -- an event of the block that the parser is up to
  next-inside :
      (b : Block R) (next : List (Block R)) (o : ℕ) (t : JsonType) (v : Payload R)
      → o < b.count
      → dom_parse_next (up_to (b ∷ next) o t v) ≡ take_event b next o (up_to (b ∷ next) o t v)
  unfolding dom_parse_next
  next-inside b next o t v lt =
      let inside : leb b.count o ≡ false = ground (arith, lt) in rw inside refl

  -- the first event of the block behind it
  next-following :
      (b c : Block R) (next : List (Block R)) (t : JsonType) (v : Payload R)
      → dom_parse_next (up_to (b ∷ (c ∷ next)) b.count t v)
        ≡ take_event c next dom_size (up_to (b ∷ (c ∷ next)) b.count t v)
  unfolding dom_parse_next
  next-following b c next t v = let over : leb b.count b.count ≡ true = ground arith in rw over refl

  next-end :
      (b : Block R) (t : JsonType) (v : Payload R)
      → dom_parse_next (up_to (b ∷ []) b.count t v) ≡ some (up_to (b ∷ []) b.count type_eof v)
  unfolding dom_parse_next
  next-end b t v = let over : leb b.count b.count ≡ true = ground arith in rw over refl

  -- The rest of one block, and then what is behind it.
  Reads-Pulled :
      (b : Block R) (next : List (Block R)) (es fs : List (Event R)) (o : ℕ) (t : JsonType)
      (v : Payload R)
      → Reads b b.count o es
      → ((t' : JsonType) (v' : Payload R) → Pulled fs (up_to (b ∷ next) b.count t' v'))
      → Pulled (es ++ fs) (up_to (b ∷ next) o t v)
  Reads-Pulled b next [] fs o t v (finished e) k =
      subst (λ i. Pulled fs (up_to (b ∷ next) i t v)) (sym e) (k t v)
  Reads-Pulled b next (e ∷ es) fs o t v (reading o' r lt rest) k =
      pulled
        (next-inside b next o t v (Reads-lt b b.count o e es (reading o' r lt rest))
          ∙ take_event-left b next o o' e (up_to (b ∷ next) o t v) (r b (λ i h. refl)))
        refl refl (Reads-Pulled b next es fs o' (type_of e) (payload_of e v) rest k)

  Blocks-Pulled :
      (b : Block R) (next : List (Block R)) (fs : List (Event R)) (t : JsonType) (v : Payload R)
      → Blocks next fs
      → Pulled fs (up_to (b ∷ next) b.count t v)
  Blocks-Pulled b _ _ t v no_blocks = at_end (next-end b t v) refl
  Blocks-Pulled b _ _ t v (block {b = c} {bs = cs} {fs = fs} e es (reading o' r lt rest) more) =
      pulled
        (next-following b c cs t v
          ∙ take_event-left c cs dom_size o' e (up_to (b ∷ (c ∷ cs)) b.count t v)
              (r c (λ i h. refl)))
        refl refl
        (Reads-Pulled c cs es fs o' (type_of e) (payload_of e v) rest
          (λ t' v'. Blocks-Pulled c cs fs t' v' more))

  -- a parser at the start of a chain
  abbrev pub at_root : List (Block R) → DomInfo R
  at_root hdrs = record {
    hdrs = hdrs;
    offset = dom_size;
    type = type_none;
    payload = Payload.no_payload;
  }

  chain-Pulled :
      (bs : List (Block R)) (e : Event R) (es : List (Event R))
      → Blocks bs (e ∷ es)
      → Pulled (e ∷ es) (at_root bs)
  chain-Pulled _ _ _ (block {b = c} {bs = cs} {fs = fs} e es r more) =
      Reads-Pulled c cs (e ∷ es) fs dom_size type_none Payload.no_payload r
        (λ t v. Blocks-Pulled c cs fs t v more)

  -- Events that were stored in a new DOM, the first of them in its first block, are returned by
  -- dom_parse_next from the DOM's root on, one at a call and in their order, through all its blocks.
  pub dom_parse_next-Stores :
      (grants : ℕ → Bool) (e : Event R) (es : List (Event R)) (root d : Dom R)
      → dom_new grants 0 ≡ some root
      → Stores grants d (e ∷ es) root
      → (dom_event grants e root).state.earlier ≡ []
      → Pulled (e ∷ es) (at_root (chain d))
  dom_parse_next-Stores grants e es root d new (storing small ok more) first =
      let (no_earlier, empty) = dom_new-empty grants 0 root new in
      let filled =
        Stores-Filled grants es (dom_event grants e root).state d (e ∷ []) more
          (first-Filled grants e root no_earlier empty small ok first) in
      chain-Pulled (chain d) e es (Filled-Blocks d (e ∷ es) filled)
