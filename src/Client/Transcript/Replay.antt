-- ===== src/Client/Transcript/Replay.antt =====
-- The transcript is a function of the stored events, not of how they arrive.
use darkpyonix_ember.Base.{
  ℕ, zero, suc, ◌≤◌, ◌<◌, ◌≡◌, refl, sym, ap, ◌∙◌, subst, ◌⊎◌, inl, inr, ◌≢◌, true, false, none,
  some, List, [], ◌∷◌, length, All, arith, leb, ◌==◌, Bool-cases, Option-cases, find, put, erase,
  nat_Eq, find-put, find-erase, beq_self, beq-eq, contains, length-erase-lt, find-none,
}
use darkpyonix_ember.Client.Wire.{AgentEvent}
use darkpyonix_ember.Client.Transcript.{Transcript, new, reduce, release_held, apply_seq, is_held}
use darkpyonix_ember.Client.Transcript.Reduce.{reduce_event-set_held, reduce_event-last_seq}

-- Below, `log` holds the stored events of the session, of which those up to `top` are offered.
module _ {J : Type 0} (null : J) (log : ℕ → AgentEvent J) (top : ℕ) where
  -- The events 1 to n applied in order to an empty transcript.
  pub replayed : ℕ → Transcript J
  replayed zero = new
  replayed (suc n) = reduce null (replayed n) (suc n) (log (suc n))

  pub record Follows (t : Transcript J) : Type 0 where
    pub core : record t { held = [] } ≡ replayed t.last_seq
    pub within : t.last_seq ≤ top
    pub ahead :
        (s : ℕ) (e : AgentEvent J)
        → find s t.held ≡ some e
        → (e ≡ log s) × (t.last_seq < s) × (s ≤ top)

  abbrev pub Known : Transcript J → ℕ → Type 0
  Known t s = (s ≤ t.last_seq) ⊎ ((e : AgentEvent J) × (find s t.held ≡ some e))

  -- One event applied: the next one of the log, which is no longer held.
  next_of : Transcript J → List (ℕ × AgentEvent J) → Transcript J
  next_of t h = reduce null (record t { held = h }) (suc t.last_seq) (log (suc t.last_seq))

  reduce_fields :
      (t : Transcript J) (h : List (ℕ × AgentEvent J))
      → (record (next_of t h) { held = [] }
          ≡ reduce null (record t { held = [] }) (suc t.last_seq) (log (suc t.last_seq)))
        × ((next_of t h).last_seq ≡ suc t.last_seq)
        × ((next_of t h).held ≡ h)
  unfolding next_of reduce
  reduce_fields t h =
      let s = suc t.last_seq in
      let u : Transcript J = record t { last_seq = s; held = h } in
      (
        sym (reduce_event-set_held null [] u s (log s)),
        reduce_event-last_seq null u s (log s),
        ap (λ k. k.held) (reduce_event-set_held null h u s (log s)),
      )

  next-Follows :
      (t : Transcript J) (h : List (ℕ × AgentEvent J))
      → suc t.last_seq ≤ top
      → find (suc t.last_seq) h ≡ none
      → ((s : ℕ) (e : AgentEvent J) → find s h ≡ some e → find s t.held ≡ some e)
      → Follows t
      → Follows (next_of t h)
  unfolding replayed
  next-Follows t h room gone sub v =
      let (whole, seq, held) = reduce_fields t h in
      record {
        core =
            whole
            ∙ ap (λ k. reduce null k (suc t.last_seq) (log (suc t.last_seq))) v.core
            ∙ ap replayed (sym seq);
        within = omega (arith, seq, room);
        ahead = λ s e p.
            let p' : find s h ≡ some e = ap (find s) (sym held) ∙ p in
            let (same, above, small) = v.ahead s e (sub s e p') in
            (same, omega (arith, seq, above, ne s e p'), small);
      }
    where
      ne : (s : ℕ) (e : AgentEvent J) → find s h ≡ some e → s ≢ suc t.last_seq
      ne s e p q = absurd (cc (ap (λ k. find k h) q, p, gone))

  abbrev Ready : Transcript J → Type 0
  Ready t = find (suc t.last_seq) t.held ≡ none

  record Settles (t t' : Transcript J) : Type 0 where
    follows : Follows t'
    ready : Ready t'
    keeps : (s : ℕ) → Known t s → Known t' s

  next-Known :
      (t : Transcript J) (s : ℕ) → Known t s → Known (next_of t (erase (suc t.last_seq) t.held)) s
  next-Known t s (inl h) =
      inl (omega (arith, (reduce_fields t (erase (suc t.last_seq) t.held)).1, h))
  next-Known t s (inr (e, p)) = elim (Bool-cases (suc t.last_seq == s)) [
    | inl here ↦ inl (ground (arith, (reduce_fields t (erase (suc t.last_seq) t.held)).1))
    | inr later ↦ inr (
      e,
      ap (find s) (reduce_fields t (erase (suc t.last_seq) t.held)).2
          ∙ find-erase s (suc t.last_seq) t.held
          ∙ rw later p,
    )
  ]

  release_held-Settles :
      (fuel : ℕ) (t : Transcript J)
      → length t.held < fuel
      → Follows t
      → Settles t (release_held null fuel t)
  unfolding release_held next_of
  release_held-Settles zero t h v = elim h [ ]
  release_held-Settles (suc fuel) t h v = elim (Option-cases (find (suc t.last_seq) t.held)) [
    | inl e ↦ rw (e, release_held) (record { follows = v; ready = e; keeps = λ s k. k })
    | inr (event, e) ↦
        let s = suc t.last_seq in
        let rest = erase s t.held in
        let (same, above, room) = v.ahead s event e in
        let held = (reduce_fields t rest).2 in
        let v' =
          next-Follows t rest room (find-erase s s t.held ∙ rw (beq_self s))
            (λ k x p. erased_was_there k x p) v in
        let r =
          release_held-Settles fuel (next_of t rest)
            (omega (arith, ap length held, length-erase-lt s event t.held e)) v' in
        rw (e, same, release_held)
          (record {
            follows = r.follows;
            ready = r.ready;
            keeps = λ k p. r.keeps k (next-Known t k p);
          })
  ]
    where
      erased_was_there :
          (k : ℕ) (x : AgentEvent J)
          → find k (erase (suc t.last_seq) t.held) ≡ some x
          → find k t.held ≡ some x
      erased_was_there k x p = elim (Bool-cases (suc t.last_seq == k)) [
        | inl here ↦ absurd (cc (p, find-erase k (suc t.last_seq) t.held, here))
        | inr other ↦ (sym (rw other at (find-erase k (suc t.last_seq) t.held))) ∙ p
      ]

  -- Offering the events of the log whose numbers are listed, in that order.
  unfoldable pub offers : Transcript J → List ℕ → Transcript J
  offers t [] = t
  offers t (s ∷ ss) = offers (apply_seq null t s (log s)).0 ss

  -- The next event, with those held back that it unblocks.
  next-Settles :
      (t : Transcript J)
      → suc t.last_seq ≤ top
      → Follows t
      → Ready t
      → let t' = release_held null (suc (length t.held)) (next_of t t.held) in
        Settles t t' × Known t' (suc t.last_seq)
  next-Settles t room v r =
      let (whole, seq, held) = reduce_fields t t.held in
      let v' = next-Follows t t.held room r (λ s e p. p) v in
      let done =
        release_held-Settles (suc (length t.held)) (next_of t t.held)
          (omega (arith, ap length held)) v' in
      (
        record {
          follows = done.follows;
          ready = done.ready;
          keeps = λ s k. done.keeps s (grown s k);
        },
        done.keeps (suc t.last_seq) (inl (omega (arith, seq))),
      )
    where
      grown : (s : ℕ) → Known t s → Known (next_of t t.held) s
      grown s (inl h) = inl (omega (arith, (reduce_fields t t.held).1, h))
      grown s (inr (e, p)) = inr (e, ap (find s) (reduce_fields t t.held).2 ∙ p)

  -- An event ahead of the next one is held back.
  later-Settles :
      (t : Transcript J) (s : ℕ)
      → s ≤ top
      → leb s t.last_seq ≡ false
      → (s == suc t.last_seq) ≡ false
      → Follows t
      → Ready t
      → let t' = record t { held = put s (log s) t.held } in Settles t t' × Known t' s
  later-Settles t s room above later v r = (
    record {
      follows = record { core = v.core; within = v.within; ahead = ahead };
      ready = find-put (suc t.last_seq) s (log s) t.held ∙ rw later r;
      keeps = keeps;
    },
    inr (log s, find-put s s (log s) t.held ∙ rw (beq_self s)),
  )
    where
      ahead :
          (j : ℕ) (e : AgentEvent J)
          → find j (put s (log s) t.held) ≡ some e
          → (e ≡ log j) × (t.last_seq < j) × (j ≤ top)
      ahead j e p = elim (Bool-cases (s == j)) [
        | inl here ↦
            let j_eq : s ≡ j = beq-eq s j here in
            let e_eq : log s ≡ e = cc (find-put j s (log s) t.held, here, p) in
            (sym e_eq ∙ ap log j_eq, ground arith, ground arith)
        | inr other ↦ v.ahead j e (sym (rw other at (find-put j s (log s) t.held)) ∙ p)
      ]

      keeps : (j : ℕ) → Known t j → Known (record t { held = put s (log s) t.held }) j
      keeps j (inl h) = inl h
      keeps j (inr (e, p)) = elim (Bool-cases (s == j)) [
        | inl here ↦ inr (log s, find-put j s (log s) t.held ∙ rw here)
        | inr other ↦ inr (e, find-put j s (log s) t.held ∙ rw other p)
      ]

  is_held-some :
      (t : Transcript J) (s : ℕ) (e : AgentEvent J)
      → find s t.held ≡ some e
      → is_held null t s ≡ true
  unfolding is_held
  is_held-some t s e p = ground arith

  is_held-none : (t : Transcript J) (s : ℕ) → find s t.held ≡ none → is_held null t s ≡ false
  unfolding is_held
  is_held-none t s p = ground arith

  offer-Settles :
      (t : Transcript J) (s : ℕ)
      → s ≤ top
      → Follows t
      → Ready t
      → Settles t (apply_seq null t s (log s)).0 × Known (apply_seq null t s (log s)).0 s
  unfolding apply_seq next_of
  offer-Settles t s room v r = elim (Bool-cases (leb s t.last_seq)) [
    | inl old ↦ rw (old, apply_seq) (same, inl (ground arith))
    | inr above ↦ elim (Option-cases (find s t.held)) [
      | inr (e, p) ↦ rw (above, is_held-some t s e p, apply_seq) (same, inr (e, p))
      | inl p ↦ elim (Bool-cases (s == suc t.last_seq)) [
        | inl next ↦
            rw (above, is_held-none t s p, next, beq-eq s (suc t.last_seq) next, apply_seq)
              (next-Settles t (ground arith) v r)
        | inr later ↦
            rw (above, is_held-none t s p, later, apply_seq)
              (later-Settles t s room above later v r)
      ]
    ]
  ]
    where
      same : Settles t t
      same = record { follows = v; ready = r; keeps = λ s k. k }

  offers-Settles :
      (t : Transcript J) (ss : List ℕ)
      → All (λ s. s ≤ top) ss
      → Follows t
      → Ready t
      → Settles t (offers t ss) × ((s : ℕ) → contains s ss ≡ true → Known (offers t ss) s)
  unfolding offers
  offers-Settles t [] h v r = (record { follows = v; ready = r; keeps = λ s k. k }, λ s k. cc)
  offers-Settles t (s ∷ ss) h v r =
      let (one, here) = offer-Settles t s h.0 v r in
      let (others, there) =
        offers-Settles (apply_seq null t s (log s)).0 ss h.1 one.follows one.ready in
      (
        record {
          follows = others.follows;
          ready = others.ready;
          keeps = λ k p. others.keeps k (one.keeps k p);
        },
        λ k p. elim (Bool-cases (s == k)) [
          | inl e ↦
              others.keeps k (subst (Known (apply_seq null t s (log s)).0) (beq-eq s k e) here)
          | inr e ↦ there k (rw e at p)
        ],
      )

  start-Follows : Follows new × Ready new
  unfolding new replayed
  start-Follows = (record { core = refl; within = omega arith; ahead = λ s e p. cc }, refl)

  -- Whatever events of the log are offered, in whatever order and however often, the transcript is
  -- the log applied in order up to some event, with some later events held back. An event that is
  -- held is the log's of that number. Each offered event is applied or held, and the event that is
  -- to be applied next is not held.
  pub offers_replay :
      (ss : List ℕ)
      → All (λ s. s ≤ top) ss
      → let t = offers new ss in
        (record t { held = [] } ≡ replayed t.last_seq)
        × ((s : ℕ) (e : AgentEvent J)
            → find s t.held ≡ some e
            → (e ≡ log s) × (t.last_seq < s) × (s ≤ top))
        × ((s : ℕ)
            → contains s ss ≡ true
            → (s ≤ t.last_seq) ⊎ ((e : AgentEvent J) × (find s t.held ≡ some e)))
        × (find (suc t.last_seq) t.held ≡ none)
  offers_replay ss h =
      let (settled, known) = offers-Settles new ss h start-Follows.0 start-Follows.1 in
      (settled.follows.core, settled.follows.ahead, known, settled.ready)

  -- Once each event from 1 to `top` was offered, in any order and with any repetition, the
  -- transcript is exactly the log applied in order, and nothing is held back.
  pub offers_complete :
      (ss : List ℕ)
      → All (λ s. s ≤ top) ss
      → ((s : ℕ) → 1 ≤ s → s ≤ top → contains s ss ≡ true)
      → offers new ss ≡ replayed top
  offers_complete ss h all = whole ∙ v.core ∙ ap replayed caught_up
    where
      t : Transcript J
      t = offers new ss

      settled : Settles new t × ((s : ℕ) → contains s ss ≡ true → Known t s)
      settled = offers-Settles new ss h start-Follows.0 start-Follows.1

      v : Follows t
      v = settled.0.follows

      no_more : suc t.last_seq ≤ top → ⊥
      no_more k = elim (settled.1 (suc t.last_seq) (all (suc t.last_seq) (omega arith) k)) [
        | inl p ↦ omega (arith, p)
        | inr (e, p) ↦ cc (p, settled.0.ready)
      ]

      caught_up : t.last_seq ≡ top
      caught_up = omega (arith, v.within, no_more)

      nothing_held : t.held ≡ []
      nothing_held = find-none t.held λ s e p. omega (arith, v.ahead s e p, caught_up)

      whole : t ≡ record t { held = [] }
      whole = λ i. record t { held = nothing_held i }
