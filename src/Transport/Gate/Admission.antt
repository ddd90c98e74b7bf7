-- ===== src/Transport/Gate/Admission.antt =====
-- Who is connected is allowed, whatever the gate was told and in whatever order.
use darkpyonix_ember.Base.{
  ℕ, ◌≡◌, refl, sym, ◌∙◌, ap, subst, inl, inr, ◌⊎◌, true, false, not, ◌&&◌, none, some, List, [],
  ◌∷◌, All, All-append, Eq, contains, contains-insert, contains-remove, beq-eq, find, put, erase,
  find-put, find-erase, if◌then◌else◌, ◌==◌, Bool-cases, Option-cases, arith,
}
use darkpyonix_ember.Transport.Gate.{
  GateState, is_listed, admits, is_allowed, collect, allow, live_of, strike, revoke, gone,
  remove_each, set_allowed, admit, drop_id, closed, Closed,
}

-- What a gate is told.
pub data Act (P C : Type 0) : Type 0 where
  allows : P → Act P C
  revokes : P → Act P C
  replaces : List P → Act P C
  admission : C → Act P C
  ends : P → ℕ → Act P C

List-cases {ℓ} :
    {A : Type ℓ} (xs : List A) → (xs ≡ []) ⊎ ((x : A) × (rest : List A) × (xs ≡ x ∷ rest))
List-cases [] = inl refl
List-cases (x ∷ rest) = inr (x, rest, refl)

module _ {P C : Type 0} ⦃e : Eq P⦄ where
  -- Striking a peer off admits nobody else or less.
  pub admits-strike :
      (st : GateState P C) (p j : P) → admits (strike p st) j ≡ (not (e.beq p j) && admits st j)
  unfolding admits strike is_listed
  admits-strike st p j = elim (Option-cases st.allowed) [
    | inl a ↦ rw (a, contains-insert j p st.denied) ground (arith, a)
    | inr (xs, a) ↦ rw (a, contains-remove j p xs) ground (arith, a)
  ]

  pub find-remove_each :
      (j : P) (ps : List P) (live : List (P × List (ℕ × C)))
      → find j (remove_each ps live).0 ≡ (if contains j ps then none else find j live)
  unfolding remove_each
  find-remove_each j [] live = refl
  find-remove_each j (p ∷ ps) live =
      ground (arith, find-remove_each j ps (erase p live), find-erase j p live)

  -- Who is connected and not on the new list is among those that go.
  pub contains-gone :
      (j : P) (fresh : List P) (live : List (P × List (ℕ × C))) (cs : List (ℕ × C))
      → find j live ≡ some cs
      → contains j fresh ≡ false
      → contains j (gone fresh live) ≡ true
  unfolding gone
  contains-gone j fresh [] cs f h = cc
  contains-gone j fresh ((p, ds) ∷ m) cs f h =
      ground (arith, contains-gone j fresh m cs, e.beq_iff p j)

  -- Who is on the new list is not.
  pub contains-gone_listed :
      (j : P) (fresh : List P) (live : List (P × List (ℕ × C)))
      → contains j fresh ≡ true
      → contains j (gone fresh live) ≡ false
  unfolding gone
  contains-gone_listed j fresh [] h = refl
  contains-gone_listed j fresh ((p, ds) ∷ m) h =
      ground (arith, contains-gone_listed j fresh m h, e.beq_iff p j)

module _ {P C : Type 0} ⦃e : Eq P⦄ (peer_of : C → P) where
  -- One call, and the connections that it closes.
  unfoldable pub step : GateState P C → Act P C → GateState P C × Closed C
  step st (allows p) = (allow st p, [])
  step st (revokes p) = let (st', out, n) = revoke st p in (st', out)
  step st (replaces ps) = let (st', out, n) = set_allowed st ps in (st', out)
  step st (admission c) = let (admitted, st', out) = admit peer_of st c in (st', out)
  step st (ends p id) = (closed st p id, [])

  unfoldable pub run : GateState P C → List (Act P C) → GateState P C
  unfolding step
  run st [] = st
  run st (a ∷ acts) = run (step st a).0 acts

  -- Every tracked connection is one of the peer it stands under, whom the gate admits.
  pub record IsTight (st : GateState P C) : Type 0 where
    pub admitted : (p : P) (cs : List (ℕ × C)) → find p st.live ≡ some cs → admits st p ≡ true
    pub owned :
        (p : P) (cs : List (ℕ × C)) → find p st.live ≡ some cs → All (λ c. peer_of c.1 ≡ p) cs

  admits-allow : (st : GateState P C) (p j : P) → admits st j ≡ true → admits (allow st p) j ≡ true
  unfolding admits allow is_listed
  admits-allow st p j h = elim (Option-cases st.allowed) [
    | inl a ↦ rw (a, contains-remove j p st.denied) ground (arith, h, a)
    | inr (xs, a) ↦
        rw (a, contains-remove j p st.denied, contains-insert j p xs) ground (arith, h, a)
  ]

  allow-IsTight : (st : GateState P C) (p : P) → IsTight st → IsTight (allow st p)
  unfolding allow
  allow-IsTight st p v = record {
    admitted = λ j cs f. admits-allow st p j (v.admitted j cs f);
    owned = v.owned;
  }

  pub revoke-IsTight : (st : GateState P C) (p : P) → IsTight st → IsTight (revoke st p).0
  unfolding revoke admits
  revoke-IsTight st p v = record {
    admitted =
        λ j cs f. ground (arith, admits-strike st p j, find-erase j p st.live, v.admitted j cs);
    owned = λ j cs f. v.owned j cs (ground (arith, find-erase j p st.live));
  }

  pub set_allowed-IsTight :
      (st : GateState P C) (ps : List P) → IsTight st → IsTight (set_allowed st ps).0
  unfolding set_allowed admits is_listed
  set_allowed-IsTight st ps v = record {
    admitted = λ j cs f. ground (
      arith,
      find-remove_each j (gone (collect ps) st.live) st.live,
      contains-gone j (collect ps) st.live cs,
    );
    owned = λ j cs f.
        v.owned j cs (ground (arith, find-remove_each j (gone (collect ps) st.live) st.live));
  }

  owned_or_empty :
      (st : GateState P C) (p : P) → IsTight st → All (λ c. peer_of c.1 ≡ p) (live_of p st.live)
  unfolding live_of
  owned_or_empty st p v = elim (Option-cases (find p st.live)) [
    | inl f ↦ rw (f, live_of) tt
    | inr (cs, f) ↦ rw (f, live_of) (v.owned p cs f)
  ]

  -- A peer that may connect gets its connections replaced by others of its own.
  put-IsTight :
      (st : GateState P C) (p : P) (n : ℕ) (conns : List (ℕ × C))
      → admits st p ≡ true
      → All (λ c. peer_of c.1 ≡ p) conns
      → IsTight st
      → IsTight (record st { live = put p conns st.live; next_id = n })
  unfolding admits
  put-IsTight st p n conns may own v = record { admitted = admitted; owned = owned }
    where
      admitted :
          (j : P) (cs : List (ℕ × C)) → find j (put p conns st.live) ≡ some cs → admits st j ≡ true
      admitted j cs f = elim (Bool-cases (e.beq p j)) [
        | inl same ↦ subst (λ k. admits st k ≡ true) (beq-eq p j same) may
        | inr other ↦ v.admitted j cs (sym (rw other at (find-put j p conns st.live)) ∙ f)
      ]

      owned :
          (j : P) (cs : List (ℕ × C))
          → find j (put p conns st.live) ≡ some cs
          → All (λ c. peer_of c.1 ≡ j) cs
      owned j cs f = elim (Bool-cases (e.beq p j)) [
        | inl same ↦
            subst (λ k. All (λ c. peer_of c.1 ≡ k) cs) (beq-eq p j same)
              (subst (All (λ c. peer_of c.1 ≡ p)) (put_same j cs f same) own)
        | inr other ↦ v.owned j cs (sym (rw other at (find-put j p conns st.live)) ∙ f)
      ]
        where
          put_same :
              (j : P) (cs : List (ℕ × C))
              → find j (put p conns st.live) ≡ some cs
              → e.beq p j ≡ true
              → conns ≡ cs
          put_same j cs f same = ground (arith, find-put j p conns st.live, f, same)

  admit-IsTight : (st : GateState P C) (c : C) → IsTight st → IsTight (admit peer_of st c).1
  unfolding admit admits
  admit-IsTight st c v = elim (Bool-cases (admits st (peer_of c))) [
    | inr shut ↦ rw (shut, admit) (record { admitted = v.admitted; owned = v.owned })
    | inl may ↦
        rw (may, admit)
          (put-IsTight st (peer_of c) _ _ may
            (All-append (λ d. peer_of d.1 ≡ peer_of c) (live_of (peer_of c) st.live)
              ((st.next_id, c) ∷ []) (owned_or_empty st (peer_of c) v) (refl, tt))
            v)
  ]

  All-drop_id : (Q : ℕ × C → Type 0) (id : ℕ) (cs : List (ℕ × C)) → All Q cs → All Q (drop_id id cs)
  unfolding drop_id
  All-drop_id Q id [] h = tt
  All-drop_id Q id (c ∷ cs) h = elim (Bool-cases (c.0 == id)) [
    | inl here ↦ rw (here, drop_id) (All-drop_id Q id cs h.1)
    | inr other ↦ rw (other, drop_id) (h.0, All-drop_id Q id cs h.1)
  ]

  erase-IsTight :
      (st : GateState P C) (p : P) → IsTight st → IsTight (record st { live = erase p st.live })
  unfolding admits
  erase-IsTight st p v = record {
    admitted = λ j cs f. v.admitted j cs (ground (arith, find-erase j p st.live));
    owned = λ j cs f. v.owned j cs (ground (arith, find-erase j p st.live));
  }

  closed-IsTight : (st : GateState P C) (p : P) (id : ℕ) → IsTight st → IsTight (closed st p id)
  unfolding closed
  closed-IsTight st p id v = elim (Option-cases (find p st.live)) [
    | inl f ↦ rw (f, closed) v
    | inr (cs, f) ↦ elim (List-cases (drop_id id cs)) [
      | inl d ↦ rw (f, d, closed) (erase-IsTight st p v)
      | inr (c, rest, d) ↦
          rw (f, d, closed)
            (put-IsTight st p st.next_id (c ∷ rest) (v.admitted p cs f)
              (subst (All (λ c. peer_of c.1 ≡ p)) d (All-drop_id _ id cs (v.owned p cs f))) v)
    ]
  ]

  pub step-IsTight : (st : GateState P C) (a : Act P C) → IsTight st → IsTight (step st a).0
  unfolding step
  step-IsTight st (allows p) v = allow-IsTight st p v
  step-IsTight st (revokes p) v = revoke-IsTight st p v
  step-IsTight st (replaces ps) v = set_allowed-IsTight st ps v
  step-IsTight st (admission c) v = admit-IsTight st c v
  step-IsTight st (ends p id) v = closed-IsTight st p id v

  pub run-IsTight :
      (st : GateState P C) (acts : List (Act P C)) → IsTight st → IsTight (run st acts)
  unfolding run
  run-IsTight st [] v = v
  run-IsTight st (a ∷ acts) v = run-IsTight (step st a).0 acts (step-IsTight st a v)

  pub empty-IsTight : (st : GateState P C) → st.live ≡ [] → IsTight st
  empty-IsTight st start = record {
    admitted = λ j ds g. cc (ap (find j) start, g);
    owned = λ j ds g. absurd (cc (ap (find j) start, g));
  }

  -- After any calls on a gate that starts without connections, each tracked connection is one of
  -- the peer that it is tracked under, and the gate admits that peer.
  pub run_admits_the_live :
      (st : GateState P C) (acts : List (Act P C)) (p : P) (cs : List (ℕ × C))
      → st.live ≡ []
      → find p (run st acts).live ≡ some cs
      → (is_allowed (run st acts) p ≡ true) × All (λ c. peer_of c.1 ≡ p) cs
  unfolding is_allowed
  run_admits_the_live st acts p cs start f =
      let v = run-IsTight st acts (empty-IsTight st start) in (v.admitted p cs f, v.owned p cs f)
