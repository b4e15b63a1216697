-- ===== src/Dom/Stored.antt =====
-- src/dom.c: what an event writes into the DOM is what the replay reads there.
use mathlib.Core.Bool.{false≢true}
use mathlib.Core.Option.{some-injective, none-ne-some}
use jsnpg.Base.{
  ℕ, suc, ◌+◌, ◌-◌, ◌*◌, ◌%◌, ◌^◌, ◌≤◌, ◌<◌, [], ◌∷◌, ◌++◌, Bool, true, false, Bool-cases, Option,
  Option-cases, none, some, ◌≡◌, refl, ap, sym, ◌∙◌, ◌⊎◌, inl, inr, arith, length, ltb, ◌==◌, subst,
}
use jsnpg.Types.{
  JsonType, type_null, type_true, type_false, type_integer, type_real, type_string, type_key,
  type_start_array, type_end_array, type_start_object, type_end_object, Event,
}
use jsnpg.Dom.{
  Node, type, count, real, integer, bytes, Block, Dom, node_size, dom_size, dom_size_align, dom_new,
  dom_hdr_new, dom_node_next, write_node, dom_add, dom_event, read_value, read_event,
}

-- Sizes are rounded up to a whole number of nodes, without overflow up to 2^63.
pub dom_size_align-least :
    (n : ℕ)
    → n ≤ 2 ^ 63
    → (n ≤ dom_size_align n) × (dom_size_align n < n + 8) × (dom_size_align n % 8 ≡ 0)
unfolding dom_size_align
dom_size_align-least n h = (omega arith, omega arith, omega arith)

pub dom_size_align-header :
    (n : ℕ) → n ≤ 2 ^ 63 → dom_size_align (n + 2 * node_size) ≡ 2 * node_size + dom_size_align n
unfolding dom_size_align
dom_size_align-header n h = omega arith

module _ {R : Type 0} where
  -- A place of `required` bytes at `start`: behind what the current block holds, or in a new one.
  pub record Placed (root next : Dom R) (required start : ℕ) : Type 0 where
    pub ends : next.current.count ≡ start + required
    pub whereabouts :
        ((next.earlier ≡ root.earlier)
          × (start ≡ root.current.count)
          × ((i : ℕ) → i < start → next.current.nodes i ≡ root.current.nodes i))
        ⊎ ((next.earlier ≡ root.earlier ++ root.current ∷ []) × (start ≡ dom_size))

  dom_hdr_new-count :
      (grants : ℕ → Bool) (size : ℕ) (b : Block R)
      → dom_hdr_new grants size ≡ some b
      → b.count ≡ dom_size
  unfolding dom_hdr_new
  dom_hdr_new-count grants size b h = ground (arith, h)

  dom_node_next-Placed :
      (grants : ℕ → Bool) (root next : Dom R) (n : ℕ)
      → dom_node_next grants root n ≡ some next
      → (start : ℕ) × Placed root next (dom_size_align (n + 2 * node_size)) start
  unfolding dom_node_next
  dom_node_next-Placed grants root next n h =
      let required = dom_size_align (n + 2 * node_size) in
      let hdr = root.current in
      elim (Bool-cases (ltb (hdr.size - hdr.count) required)) [
        | inr roomy ↦
            let moved = some-injective _ _ (rw (roomy, dom_node_next) at h) in
            subst (λ d. (start : ℕ) × Placed root d required start) moved
              (hdr.count, record { ends = refl; whereabouts = inl (refl, refl, λ i lt. refl) })
        | inl full ↦ elim (Option-cases (dom_hdr_new {R = R} grants required)) [
          | inl e ↦ absurd (none-ne-some _ (rw (full, e, dom_node_next) at h))
          | inr (new, e) ↦
              let moved = some-injective _ _ (rw (full, e, dom_node_next) at h) in
              let begin = dom_hdr_new-count grants required new e in
              subst (λ d. (start : ℕ) × Placed root d required start) moved
                (dom_size, record { ends = rw begin refl; whereabouts = inr (refl, refl) })
        ]
      ]

  -- The nodes that are written: a type, a count and, where there is one, a value.
  pub record Written (root d : Dom R) (t : JsonType) (n : ℕ) (value : Option (Node R)) (start : ℕ)
      : Type 0 where
    pub placed : Placed root d (dom_size_align (n + 2 * node_size)) start
    pub typed : d.current.nodes start ≡ type t
    pub counted : d.current.nodes (start + node_size) ≡ count n
    pub valued : (x : Node R) → value ≡ some x → d.current.nodes (start + 2 * node_size) ≡ x

  write_node_other :
      (b : Block R) (offset i : ℕ) (x : Node R)
      → i < offset
      → (write_node b offset x).nodes i ≡ b.nodes i
  write_node_other b offset i x h =
      let other : (offset == i) ≡ false = ground (arith, h) in rw other refl

  write_node_self :
      (b : Block R) (offset : ℕ) (x : Node R) → (write_node b offset x).nodes offset ≡ x
  write_node_self b offset x = let here : (offset == offset) ≡ true = ground arith in rw here refl

  -- what `dom_add` leaves, for the place that it has found
  abbrev filled : Dom R → ℕ → JsonType → ℕ → Option (Node R) → Dom R
  filled next start t n value =
      let named =
        write_node (write_node next.current start (type t)) (start + node_size) (count n) in
      record next {
        current = elim value [ none ↦ named | some x ↦ write_node named (start + 2 * node_size) x ];
      }

  write_node-Placed :
      (root next : Dom R) (required start offset : ℕ) (x : Node R)
      → start ≤ offset
      → Placed root next required start
      → Placed root (record next { current = write_node next.current offset x }) required start
  write_node-Placed root next required start offset x lo p = record {
    ends = p.ends;
    whereabouts = elim p.whereabouts [
      | inl (e, at_count, same) ↦
          inl (
            e,
            at_count,
            λ i lt. write_node_other next.current offset i x (omega arith) ∙ same i lt,
          )
      | inr new ↦ inr new
    ];
  }

  filled-Written :
      (root next : Dom R) (t : JsonType) (n : ℕ) (value : Option (Node R)) (start : ℕ)
      → Placed root next (dom_size_align (n + 2 * node_size)) start
      → Written root (filled next start t n value) t n value start
  filled-Written root next t n none start p =
      let next₁ = record next { current = write_node next.current start (type t) } in
      let p₁ = write_node-Placed root next _ start start (type t) (omega arith) p in
      record {
        placed =
            write_node-Placed root next₁ _ start (start + node_size) (count n) (omega arith) p₁;
        typed = ground arith;
        counted = ground arith;
        valued = λ x e. absurd (none-ne-some _ e);
      }
  filled-Written root next t n (some x) start p =
      let next₁ = record next { current = write_node next.current start (type t) } in
      let next₂ = record next₁ {
        current = write_node next₁.current (start + node_size) (count n);
      } in
      let p₁ = write_node-Placed root next _ start start (type t) (omega arith) p in
      let p₂ =
        write_node-Placed root next₁ _ start (start + node_size) (count n) (omega arith) p₁ in
      record {
        placed = write_node-Placed root next₂ _ start (start + 2 * node_size) x (omega arith) p₂;
        typed = ground arith;
        counted = ground arith;
        valued =
            λ y e. write_node_self next₂.current (start + 2 * node_size) x ∙ some-injective _ _ e;
      }

  dom_add-Written :
      (grants : ℕ → Bool) (root : Dom R) (t : JsonType) (n : ℕ) (value : Option (Node R))
      → (dom_add grants root t n value).success ≡ true
      → (start : ℕ) × Written root (dom_add grants root t n value).state t n value start
  unfolding dom_add
  dom_add-Written grants root t n value h = elim (Option-cases (dom_node_next grants root n)) [
    | inl e ↦ absurd (false≢true (rw (e, dom_add) at h))
    | inr (next, e) ↦
        let (start, p) = dom_node_next-Placed grants root next n e in
        let offset : next.current.count - dom_size_align (n + 2 * node_size) ≡ start =
          omega (arith, p.ends) in
        (
          start,
          rw (e, dom_add)
              (subst (λ k. Written root (filled next k t n value) t n value start) (sym offset)
                (filled-Written root next t n value start p)),
        )
  ]

  read_event-Written :
      (root d : Dom R) (t : JsonType) (n : ℕ) (value : Option (Node R)) (start : ℕ) (b : Block R)
      → Written root d t n value start
      → start + node_size < d.current.count
      → ((i : ℕ) → i < d.current.count → b.nodes i ≡ d.current.nodes i)
      → read_event b start
        ≡ read_value t n (b.nodes (start + 2 * node_size)) (start + 2 * node_size)
  unfolding read_event
  read_event-Written root d t n value start b w room same =
      rw (same start (omega (arith, room)) ∙ w.typed, same (start + node_size) room ∙ w.counted)
        refl

  ends-Written :
      (root d : Dom R) (t : JsonType) (n k : ℕ) (value : Option (Node R)) (start : ℕ)
      → Written root d t n value start
      → n ≤ 2 ^ 63
      → dom_size_align n ≡ k
      → start + 2 * node_size + k ≡ d.current.count
  ends-Written root d t n k value start w h e =
      omega (arith, w.placed.ends, dom_size_align-header n h, e)

  -- how many bytes an event has behind its type and its count
  abbrev pub event_size : Event R → ℕ
  event_size (Event.string bs) = length bs
  event_size (Event.key bs) = length bs
  event_size (Event.integer i) = node_size
  event_size (Event.real d) = node_size
  event_size _ = 0

  -- The event `e` stands at `start`, and the next one would stand at the count of the block. It is
  -- read from every block that agrees up to there.
  pub record Stored (root d : Dom R) (e : Event R) (start : ℕ) : Type 0 where
    pub placed : Placed root d (dom_size_align (event_size e + 2 * node_size)) start
    pub read :
        (b : Block R)
        → ((i : ℕ) → i < d.current.count → b.nodes i ≡ d.current.nodes i)
        → read_event b start ≡ some (e, d.current.count)

  -- An event with a value node, and one without.
  valued-Stored :
      (root d : Dom R) (e : Event R) (t : JsonType) (x : Node R) (start k : ℕ)
      → Written root d t (event_size e) (some x) start
      → event_size e ≤ 2 ^ 63
      → dom_size_align (event_size e) ≡ k
      → 0 < k
      → ((offset : ℕ) → read_value t (event_size e) x offset ≡ some (e, offset + k))
      → Stored root d e start
  valued-Stored root d e t x start k w h a room r = record {
    placed = w.placed;
    read = λ b same.
        let ends = ends-Written root d t (event_size e) k (some x) start w h a in
        read_event-Written root d t (event_size e) (some x) start b w (omega (arith, ends, room))
          same
        ∙ ap (λ y. read_value t (event_size e) y (start + 2 * node_size))
            (same (start + 2 * node_size) (omega (arith, ends, room)) ∙ w.valued x refl)
        ∙ r (start + 2 * node_size)
        ∙ rw ends refl;
  }

  plain-Stored :
      (root d : Dom R) (e : Event R) (t : JsonType) (start : ℕ)
      → Written root d t 0 none start
      → event_size e ≡ 0
      → ((offset : ℕ) (x : Node R) → read_value t 0 x offset ≡ some (e, offset))
      → Stored root d e start
  unfolding dom_size_align
  plain-Stored root d e t start w z r = record {
    placed = rw z w.placed;
    read = λ b same.
        let ends = ends-Written root d t 0 0 none start w (omega arith) refl in
        read_event-Written root d t 0 none start b w (omega (arith, ends)) same
        ∙ r (start + 2 * node_size) _
        ∙ ap (λ k. some (e, k)) (omega (arith, ends));
  }

  -- An event of at most 2^63 bytes that is stored, in the current block or in a new one, is what the replay reads at the
  -- place where it was put, and the replay then goes on at the end of the block; what the current
  -- block held in front of it is as before.
  pub dom_event-Stored :
      (grants : ℕ → Bool) (e : Event R) (root : Dom R)
      → event_size e ≤ 2 ^ 63
      → (dom_event grants e root).success ≡ true
      → (start : ℕ) × Stored root (dom_event grants e root).state e start
  unfolding dom_event read_value dom_size_align
  dom_event-Stored grants Event.null root small h =
      let (start, w) = dom_add-Written grants root type_null 0 none h in
      (start, plain-Stored root _ Event.null type_null start w refl (λ o x. refl))
  dom_event-Stored grants (Event.boolean true) root small h =
      let (start, w) = dom_add-Written grants root type_true 0 none h in
      (start, plain-Stored root _ (Event.boolean true) type_true start w refl (λ o x. refl))
  dom_event-Stored grants (Event.boolean false) root small h =
      let (start, w) = dom_add-Written grants root type_false 0 none h in
      (start, plain-Stored root _ (Event.boolean false) type_false start w refl (λ o x. refl))
  dom_event-Stored grants (Event.integer i) root small h =
      let (start, w) = dom_add-Written grants root type_integer node_size (some (integer i)) h in
      (
        start,
        valued-Stored root _ (Event.integer i) type_integer (integer i) start 8 w small refl
            (omega arith) (λ o. refl),
      )
  dom_event-Stored grants (Event.real d) root small h =
      let (start, w) = dom_add-Written grants root type_real node_size (some (real d)) h in
      (
        start,
        valued-Stored root _ (Event.real d) type_real (real d) start 8 w small refl (omega arith)
            (λ o. refl),
      )
  dom_event-Stored grants (Event.string []) root small h =
      let (start, w) = dom_add-Written grants root type_string 0 none h in
      (
        start,
        plain-Stored root _ (Event.string []) type_string start w refl
            (λ o x. ap (λ k. some (Event.string [], k)) (omega arith)),
      )
  dom_event-Stored grants (Event.string (c ∷ bs)) root small h =
      let (start, w) =
        dom_add-Written grants root type_string (suc (length bs)) (some (bytes (c ∷ bs))) h in
      (
        start,
        valued-Stored root _ (Event.string (c ∷ bs)) type_string (bytes (c ∷ bs)) start _ w small
            refl (omega (arith, small)) (λ o. refl),
      )
  dom_event-Stored grants (Event.key []) root small h =
      let (start, w) = dom_add-Written grants root type_key 0 none h in
      (
        start,
        plain-Stored root _ (Event.key []) type_key start w refl
            (λ o x. ap (λ k. some (Event.key [], k)) (omega arith)),
      )
  dom_event-Stored grants (Event.key (c ∷ bs)) root small h =
      let (start, w) =
        dom_add-Written grants root type_key (suc (length bs)) (some (bytes (c ∷ bs))) h in
      (
        start,
        valued-Stored root _ (Event.key (c ∷ bs)) type_key (bytes (c ∷ bs)) start _ w small refl
            (omega (arith, small)) (λ o. refl),
      )
  dom_event-Stored grants Event.start_array root small h =
      let (start, w) = dom_add-Written grants root type_start_array 0 none h in
      (start, plain-Stored root _ Event.start_array type_start_array start w refl (λ o x. refl))
  dom_event-Stored grants Event.end_array root small h =
      let (start, w) = dom_add-Written grants root type_end_array 0 none h in
      (start, plain-Stored root _ Event.end_array type_end_array start w refl (λ o x. refl))
  dom_event-Stored grants Event.start_object root small h =
      let (start, w) = dom_add-Written grants root type_start_object 0 none h in
      (start, plain-Stored root _ Event.start_object type_start_object start w refl (λ o x. refl))
  dom_event-Stored grants Event.end_object root small h =
      let (start, w) = dom_add-Written grants root type_end_object 0 none h in
      (start, plain-Stored root _ Event.end_object type_end_object start w refl (λ o x. refl))

  -- A new DOM holds nothing.
  pub dom_new-empty :
      (grants : ℕ → Bool) (size : ℕ) (root : Dom R)
      → dom_new grants size ≡ some root
      → (root.earlier ≡ []) × (root.current.count ≡ dom_size)
  unfolding dom_new
  dom_new-empty grants size root h = elim (Option-cases (dom_hdr_new {R = R} grants size)) [
    | inl e ↦ absurd (none-ne-some _ (rw (e, dom_new) at h))
    | inr (b, e) ↦
        let made = some-injective _ _ (rw (e, dom_new) at h) in
        subst (λ d. (d.earlier ≡ []) × (d.current.count ≡ dom_size)) made
          (refl, dom_hdr_new-count grants size b e)
  ]
