-- ===== src/Dom/Replays.antt =====
-- src/dom.c: a chain of blocks that events were stored in is replayed as those events.
use jsnpg.Base.{
  ℕ, zero, suc, ◌<◌, ◌≤◌, ◌^◌, List, [], ◌∷◌, ◌++◌, append_assoc, append-nil, Bool, true, false,
  Option, some, ◌≡◌, refl, sym, ◌∙◌, ap, subst, inl, inr, arith, length, leb, if◌then◌else◌,
}
use jsnpg.Types.{Event}
use jsnpg.Generate.Sends.{Sends, sending, Sends-final}
use jsnpg.Dom.{Block, Dom, replayed, dom_size, dom_event, read_event, chain, replay}
use jsnpg.Dom.Stored.{Stored, event_size, dom_event-Stored, dom_size_align-header}

module _ {R : Type 0} where
  -- The events that stand in a block from an offset on, up to `limit`.
  pub data Reads (b : Block R) (limit : ℕ) : ℕ → List (Event R) → Type 0 where
    finished : {o : ℕ} → o ≡ limit → Reads b limit o []
    reading :
        {e : Event R} {es : List (Event R)} {o : ℕ} (o' : ℕ)
        → ((c : Block R)
            → ((i : ℕ) → i < o' → c.nodes i ≡ b.nodes i)
            → read_event c o ≡ some (e, o'))
        → o < o'
        → Reads b limit o' es
        → Reads b limit o (e ∷ es)

  Reads-le : (b : Block R) (limit o : ℕ) (es : List (Event R)) → Reads b limit o es → o ≤ limit
  Reads-le b limit o [] (finished e) = omega (arith, e)
  Reads-le b limit o (e ∷ es) (reading o' r lt rest) =
      omega (arith, lt, Reads-le b limit o' es rest)

  pub Reads-lt :
      (b : Block R) (limit o : ℕ) (e : Event R) (es : List (Event R))
      → Reads b limit o (e ∷ es)
      → o < limit
  Reads-lt b limit o e es (reading o' r lt rest) = omega (arith, lt, Reads-le b limit o' es rest)

  -- One more event behind them, in a block that agrees up to there.
  Reads-more :
      (b c : Block R) (limit limit' o : ℕ) (es : List (Event R)) (e : Event R)
      → Reads b limit o es
      → ((i : ℕ) → i < limit → c.nodes i ≡ b.nodes i)
      → Reads c limit' limit (e ∷ [])
      → Reads c limit' o (es ++ e ∷ [])
  Reads-more b c limit limit' o [] e (finished eq) same last =
      subst (λ k. Reads c limit' k (e ∷ [])) (sym eq) last
  Reads-more b c limit limit' o (f ∷ es) e (reading o' r lt rest) same last =
      let le = Reads-le b limit o' es rest in
      reading o' (λ d agree. r d (λ i below. agree i below ∙ same i (omega (arith, below, le)))) lt
        (Reads-more b c limit limit' o' es e rest same last)

  -- Blocks that are each filled with at least one event.
  pub data Blocks : List (Block R) → List (Event R) → Type 0 where
    no_blocks : Blocks [] []
    block :
        {b : Block R} {bs : List (Block R)} {fs : List (Event R)} (e : Event R)
        (es : List (Event R))
        → Reads b b.count dom_size (e ∷ es)
        → Blocks bs fs
        → Blocks (b ∷ bs) (e ∷ (es ++ fs))

  Blocks-last :
      (bs : List (Block R)) (fs : List (Event R)) (b : Block R) (e : Event R) (es : List (Event R))
      → Blocks bs fs
      → Reads b b.count dom_size (e ∷ es)
      → Blocks (bs ++ b ∷ []) (fs ++ e ∷ es)
  Blocks-last [] _ b e es no_blocks r =
      subst (λ k. Blocks (b ∷ []) (e ∷ k)) (append-nil es) (block e es r no_blocks)
  Blocks-last _ _ b e es (block {b = c} {bs = bs} {fs = gs} f fs r' rest) r =
      subst (λ k. Blocks (c ∷ (bs ++ b ∷ [])) (f ∷ k)) (sym (append_assoc fs gs (e ∷ es)))
        (block f fs r' (Blocks-last bs gs b e es rest r))

  -- What a DOM holds: `front` in the blocks before the current one, and then at least one event.
  pub record Filled (d : Dom R) (all : List (Event R)) : Type 0 where
    pub front : List (Event R)
    pub first : Event R
    pub others : List (Event R)
    pub blocks : Blocks d.earlier front
    pub reads : Reads d.current d.current.count dom_size (first ∷ others)
    pub parts : all ≡ front ++ first ∷ others

  -- An event that has been stored is read at its place, from there to the count of its block.
  Stored-Reads :
      (root d : Dom R) (e : Event R) (start : ℕ)
      → event_size e ≤ 2 ^ 63
      → Stored root d e start
      → Reads d.current d.current.count start (e ∷ [])
  Stored-Reads root d e start small s =
      reading d.current.count s.read
        (omega (arith, s.placed.ends, dom_size_align-header (event_size e) small)) (finished refl)

  -- One more event is stored behind the others, in the current block or in a new one.
  dom_event-Filled :
      (grants : ℕ → Bool) (e : Event R) (d : Dom R) (all : List (Event R))
      → event_size e ≤ 2 ^ 63
      → (dom_event grants e d).success ≡ true
      → Filled d all
      → Filled (dom_event grants e d).state (all ++ e ∷ [])
  dom_event-Filled grants e d all small h f =
      let next = (dom_event grants e d).state in
      let (start, s) = dom_event-Stored grants e d small h in
      let one = Stored-Reads d next e start small s in
      let grown : all ++ e ∷ [] ≡ f.front ++ f.first ∷ (f.others ++ e ∷ []) =
        rw (f.parts) (append_assoc f.front (f.first ∷ f.others) (e ∷ [])) in
      elim s.placed.whereabouts [
        | inl (same_front, at_count, same) ↦ record {
          front = f.front;
          first = f.first;
          others = f.others ++ e ∷ [];
          blocks = rw same_front (f.blocks);
          reads =
              Reads-more d.current next.current d.current.count next.current.count dom_size
                (f.first ∷ f.others) e f.reads (λ i lt. same i (omega (arith, lt, at_count)))
                (rw at_count at one);
          parts = grown;
        }
        | inr (more, at_start) ↦ record {
          front = f.front ++ f.first ∷ f.others;
          first = e;
          others = [];
          blocks =
              rw more (Blocks-last d.earlier f.front d.current f.first f.others f.blocks f.reads);
          reads = rw at_start at one;
          parts = rw (f.parts) refl;
        }
      ]

  -- Events stored one after the other, all with success, take a DOM to another.
  pub data Stores (grants : ℕ → Bool) (final : Dom R) : List (Event R) → Dom R → Type 0 where
    stored : {d : Dom R} → d ≡ final → Stores grants final [] d
    storing :
        {e : Event R} {es : List (Event R)} {d : Dom R}
        → event_size e ≤ 2 ^ 63
        → (dom_event grants e d).success ≡ true
        → Stores grants final es (dom_event grants e d).state
        → Stores grants final (e ∷ es) d

  pub Stores-Filled :
      (grants : ℕ → Bool) (es : List (Event R)) (d final : Dom R) (all : List (Event R))
      → Stores grants final es d
      → Filled d all
      → Filled final (all ++ es)
  Stores-Filled grants [] d final all (stored e) f =
      rw (append-nil all) (subst (λ k. Filled k all) e f)
  Stores-Filled grants (e ∷ es) d final all (storing small h more) f =
      subst (Filled final) (append_assoc all (e ∷ []) es) (
        Stores-Filled grants es (dom_event grants e d).state final (all ++ e ∷ []) more
          (dom_event-Filled grants e d all small h f))

  -- The first event of a new DOM, where its first block has room for it.
  pub first-Filled :
      (grants : ℕ → Bool) (e : Event R) (root : Dom R)
      → root.earlier ≡ []
      → root.current.count ≡ dom_size
      → event_size e ≤ 2 ^ 63
      → (dom_event grants e root).success ≡ true
      → (dom_event grants e root).state.earlier ≡ []
      → Filled (dom_event grants e root).state (e ∷ [])
  first-Filled grants e root new empty small h alone =
      let next = (dom_event grants e root).state in
      let (start, s) = dom_event-Stored grants e root small h in
      let one = Stored-Reads root next e start small s in
      let begins : start ≡ dom_size = elim s.placed.whereabouts [
        | inl (same_front, at_count, same) ↦ at_count ∙ empty
        | inr (more, at_start) ↦ at_start
      ] in
      record {
        front = [];
        first = e;
        others = [];
        blocks = rw alone no_blocks;
        reads = rw begins at one;
        parts = refl;
      }

module _ {R : Type 0} where
  -- All the blocks of a DOM.
  pub Filled-Blocks : (d : Dom R) (es : List (Event R)) → Filled d es → Blocks (chain d) es
  Filled-Blocks d es f =
      rw (f.parts) (Blocks-last d.earlier f.front d.current f.first f.others f.blocks f.reads)

module _ {R G : Type 0} (send : Event R → G → Option (Bool × G)) (final : G) where
  replay-step :
      (fuel : ℕ) (b : Block R) (next : List (Block R)) (o o' : ℕ) (e : Event R) (g g' : G)
      → read_event b o ≡ some (e, o')
      → send e g ≡ some (true, g')
      → replay send (suc fuel) (b ∷ next) o g ≡ (
          if leb b.count o'
          then replay send fuel next dom_size g'
          else replay send fuel (b ∷ next) o' g')
  unfolding replay
  replay-step fuel b next o o' e g g' r s = rw (r, replay) (rw s refl)

  -- The rest of one block, and then what the blocks behind it do.
  replay-Reads :
      (b : Block R) (next : List (Block R)) (e : Event R) (es rest : List (Event R)) (fuel o : ℕ)
      (g : G)
      → Reads b b.count o (e ∷ es)
      → Sends send final (e ∷ (es ++ rest)) g
      → length (e ∷ (es ++ rest)) < fuel
      → ((g' : G) (fuel' : ℕ)
          → Sends send final rest g'
          → length rest < fuel'
          → replay send fuel' next dom_size g' ≡ replayed final)
      → replay send fuel (b ∷ next) o g ≡ replayed final
  replay-Reads b next e es rest zero o g r s le k = absurd (omega (arith, le))
  replay-Reads b next e [] rest (suc fuel) o g (reading o' r lt (finished at_end))
        (sending {g' = g'} took more) le k =
      let over : leb b.count o' ≡ true = ground (arith, at_end) in
      replay-step fuel b next o o' e g g' (r b (λ i h. refl)) took
      ∙ rw over (k g' fuel more (omega (arith, le)))
  replay-Reads b next e (f ∷ es) rest (suc fuel) o g (reading o' r lt r')
        (sending {g' = g'} took more) le k =
      let inside : leb b.count o' ≡ false = ground (arith, Reads-lt b b.count o' f es r') in
      replay-step fuel b next o o' e g g' (r b (λ i h. refl)) took
      ∙ rw inside (replay-Reads b next f es rest fuel o' g' r' more (omega (arith, le)) k)

  pub replay-Blocks :
      (bs : List (Block R)) (es : List (Event R)) (fuel : ℕ) (g : G)
      → Blocks bs es
      → Sends send final es g
      → length es < fuel
      → replay send fuel bs dom_size g ≡ replayed final
  unfolding replay
  replay-Blocks _ _ zero g filled s le = absurd (omega (arith, le))
  replay-Blocks _ _ (suc fuel) g no_blocks s le = ap replayed (Sends-final s)
  replay-Blocks _ _ (suc fuel) g (block {b = b} {bs = bs} {fs = fs} e es r rest) s le =
      replay-Reads b bs e es fs (suc fuel) dom_size g r s le
        (λ g' fuel' s' le'. replay-Blocks bs fs fuel' g' rest s' le')

  -- All that a DOM holds, from its root on.
  pub replay-Filled :
      (d : Dom R) (es : List (Event R)) (fuel : ℕ) (g : G)
      → Filled d es
      → Sends send final es g
      → length es < fuel
      → replay send fuel (chain d) dom_size g ≡ replayed final
  replay-Filled d es fuel g f s le = replay-Blocks (chain d) es fuel g (Filled-Blocks d es f) s le
