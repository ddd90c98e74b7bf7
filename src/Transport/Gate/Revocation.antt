-- ===== src/Transport/Gate/Revocation.antt =====
-- A peer that was cut off stays out, and a new list cuts off whom it does not name.
use darkpyonix_ember.Base.{
  ℕ, ◌≡◌, refl, ◌∙◌, ap, inl, inr, Bool, true, false, not, ◌&&◌, none, List, [], ◌∷◌, All, Eq,
  contains, contains-insert, contains-remove, beq_self, find, if◌then◌else◌, Bool-cases,
  Option-cases, arith,
}
use darkpyonix_ember.Transport.Gate.{
  GateState, is_listed, admits, is_allowed, collect, allow, live_of, revoke, gone, set_allowed,
  admit, closed, live_connections, close_not_allowed,
}
use darkpyonix_ember.Transport.Gate.Admission.{
  Act, allows, revokes, replaces, admission, ends, step, run, IsTight, run-IsTight, revoke-IsTight,
  admits-strike, find-remove_each, contains-gone, contains-gone_listed,
}

module _ {P : Type 0} ⦃e : Eq P⦄ where
  pub contains-collect : (p : P) (ps : List P) → contains p (collect ps) ≡ contains p ps
  unfolding collect
  contains-collect p [] = refl
  contains-collect p (x ∷ xs) = contains-insert p x (collect xs) ∙ rw (contains-collect p xs)

module _ {P C : Type 0} ⦃e : Eq P⦄ where
  -- Nothing in the call lets the peer in.
  unfoldable pub spares : P → Act P C → Bool
  spares p (allows j) = not (e.beq j p)
  spares p (revokes j) = true
  spares p (replaces ps) = not (contains p ps)
  spares p (admission c) = true
  spares p (ends j id) = true

  admits-allow_other :
      (st : GateState P C) (j p : P) → e.beq j p ≡ false → admits (allow st j) p ≡ admits st p
  unfolding admits allow is_listed
  admits-allow_other st j p h = elim (Option-cases st.allowed) [
    | inl a ↦ rw (a, contains-remove p j st.denied, h) refl
    | inr (xs, a) ↦ rw (a, contains-remove p j st.denied, contains-insert p j xs, h) refl
  ]

  admits-admit :
      (peer_of : C → P) (st : GateState P C) (c : C) (p : P)
      → admits (admit peer_of st c).1 p ≡ admits st p
  unfolding admits admit
  admits-admit peer_of st c p = ground arith

  admits-closed : (st : GateState P C) (j p : P) (id : ℕ) → admits (closed st j id) p ≡ admits st p
  unfolding admits closed
  admits-closed st j p id = ground arith

  admits-revoke :
      (st : GateState P C) (j p : P) → admits (revoke st j).0 p ≡ (not (e.beq j p) && admits st p)
  unfolding revoke admits
  admits-revoke st j p = admits-strike st j p

  -- A replaced list admits exactly whom it names.
  pub admits-set_allowed :
      (st : GateState P C) (ps : List P) (p : P) → admits (set_allowed st ps).0 p ≡ contains p ps
  unfolding set_allowed admits is_listed
  admits-set_allowed st ps p = contains-collect p ps

  admits-step :
      (peer_of : C → P) (st : GateState P C) (a : Act P C) (p : P)
      → spares p a ≡ true
      → admits st p ≡ false
      → admits (step peer_of st a).0 p ≡ false
  unfolding step spares set_allowed revoke
  admits-step peer_of st (allows j) p s h = admits-allow_other st j p (ground arith) ∙ h
  admits-step peer_of st (revokes j) p s h = admits-revoke st j p ∙ rw h ground arith
  admits-step peer_of st (replaces ps) p s h = admits-set_allowed st ps p ∙ ground arith
  admits-step peer_of st (admission c) p s h = admits-admit peer_of st c p ∙ h
  admits-step peer_of st (ends j id) p s h = admits-closed st j p id ∙ h

  run-shut :
      (peer_of : C → P) (st : GateState P C) (acts : List (Act P C)) (p : P)
      → All (λ a. spares p a ≡ true) acts
      → admits st p ≡ false
      → admits (run peer_of st acts) p ≡ false
  unfolding run
  run-shut peer_of st [] p s h = h
  run-shut peer_of st (a ∷ acts) p s h =
      run-shut peer_of (step peer_of st a).0 acts p s.1 (admits-step peer_of st a p s.0 h)

  -- Where the gate is in good order and does not admit a peer, none of its connections is tracked.
  shut-live :
      (peer_of : C → P) (st : GateState P C) (p : P)
      → IsTight peer_of st
      → admits st p ≡ false
      → live_connections st p ≡ 0
  unfolding live_connections live_of
  shut-live peer_of st p v h = elim (Option-cases (find p st.live)) [
    | inl f ↦ rw (f, live_connections) refl
    | inr (cs, f) ↦ absurd (cc (v.admitted p cs f, h))
  ]

  admit-shut :
      (peer_of : C → P) (st : GateState P C) (c : C)
      → admits st (peer_of c) ≡ false
      → ((admit peer_of st c).0 ≡ none) × ((admit peer_of st c).2 ≡ (c, close_not_allowed) ∷ [])
  unfolding admit
  admit-shut peer_of st c h = rw (h, admit) (refl, refl)

  -- On a gate that tracks only connections of admitted peers: once a peer is revoked, and for as
  -- long as no call allows it and no replaced list names it, the gate does not admit it, tracks no
  -- connection of it, and refuses each new connection of it, which is closed with code 403.
  pub revoked_stays_out :
      (peer_of : C → P) (st : GateState P C) (p : P) (acts : List (Act P C)) (c : C)
      → IsTight peer_of st
      → All (λ a. spares p a ≡ true) acts
      → peer_of c ≡ p
      → let later = run peer_of (revoke st p).0 acts in
        (is_allowed later p ≡ false)
        × (live_connections later p ≡ 0)
        × ((admit peer_of later c).0 ≡ none)
        × ((admit peer_of later c).2 ≡ (c, close_not_allowed) ∷ [])
  unfolding is_allowed
  revoked_stays_out peer_of st p acts c v s own =
      let shut =
        run-shut peer_of (revoke st p).0 acts p s (admits-revoke st p p ∙ rw (beq_self p) refl) in
      let later = run peer_of (revoke st p).0 acts in
      (
        shut,
        shut-live peer_of later p
            (run-IsTight peer_of (revoke st p).0 acts (revoke-IsTight peer_of st p v)) shut,
        (admit-shut peer_of later c (ap (admits later) own ∙ shut)).0,
        (admit-shut peer_of later c (ap (admits later) own ∙ shut)).1,
      )

  live_connections-set_allowed :
      (st : GateState P C) (ps : List P) (p : P)
      → live_connections (set_allowed st ps).0 p
        ≡ (if contains p ps then live_connections st p else 0)
  unfolding live_connections live_of set_allowed
  live_connections-set_allowed st ps p = elim (Bool-cases (contains p ps)) [
    | inl named ↦
        rw
          (
            find-remove_each p (gone (collect ps) st.live) st.live,
            contains-gone_listed p (collect ps) st.live (contains-collect p ps ∙ named),
            named,
          )
          refl
    | inr unnamed ↦ elim (Option-cases (find p st.live)) [
      | inl f ↦ rw (find-remove_each p (gone (collect ps) st.live) st.live, f, unnamed) ground arith
      | inr (cs, f) ↦
          rw
            (
              find-remove_each p (gone (collect ps) st.live) st.live,
              contains-gone p (collect ps) st.live cs f (contains-collect p ps ∙ unnamed),
              unnamed,
            )
            refl
    ]
  ]

  -- A replaced list admits exactly the peers that it names; of each of these as many connections
  -- are tracked as before, and of the others none.
  pub set_allowed_keeps :
      (st : GateState P C) (ps : List P) (p : P)
      → let st' = (set_allowed st ps).0 in
        (is_allowed st' p ≡ contains p ps)
        × (live_connections st' p ≡ (if contains p ps then live_connections st p else 0))
  unfolding is_allowed
  set_allowed_keeps st ps p = (admits-set_allowed st ps p, live_connections-set_allowed st ps p)
