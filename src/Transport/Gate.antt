-- ===== src/Transport/Gate.antt =====
-- ember/transport/src/gate.rs: which peers may connect, and revocation. The peers are a type `P`
-- with a Boolean equality; a connection is a type `C` with the peer it was authenticated as, and
-- closing one is recorded as the connection with its close code. The state and the connection
-- counter are behind one lock, so each operation is one step. The logs are not modelled.
pub mod Admission
pub mod Revocation
mod Tests
use darkpyonix_ember.Base.{
  ℕ, ◌+◌, ◌%◌, ◌^◌, Bool, true, false, not, ◌&&◌, Option, none, some, List, [], ◌∷◌, ◌++◌, map,
  length, Eq, contains, insert, remove, find, put, erase, keep, if◌then◌else◌, ◌==◌,
}

abbrev pub close_not_allowed : ℕ
close_not_allowed = 403

abbrev pub close_revoked : ℕ
close_revoked = 401

-- `GateState`, with the counter of `GateInner`.
pub record GateState (P C : Type 0) : Type 0 where
  pub allowed : Option (List P)
  pub denied : List P
  pub live : List (P × List (ℕ × C))
  pub next_id : ℕ

-- What a call closes, with the code.
abbrev pub Closed : Type 0 → Type 0
Closed C = List (C × ℕ)

abbrev pub or_empty {ℓ} : {A : Type ℓ} → Option (List A) → List A
or_empty none = []
or_empty (some xs) = xs

module _ {P : Type 0} ⦃e : Eq P⦄ where
  unfoldable pub is_listed : P → Option (List P) → Bool
  is_listed peer none = true
  is_listed peer (some a) = contains peer a

  pub collect : List P → List P
  collect [] = []
  collect (p ∷ ps) = insert p (collect ps)

module _ {C : Type 0} where
  unfoldable pub close_all : ℕ → List (ℕ × C) → Closed C
  close_all code [] = []
  close_all code ((i, c) ∷ cs) = (c, code) ∷ close_all code cs

  pub drop_id : ℕ → List (ℕ × C) → List (ℕ × C)
  drop_id id [] = []
  drop_id id ((i, c) ∷ cs) = if i == id then drop_id id cs else (i, c) ∷ drop_id id cs

module _ {P C : Type 0} ⦃e : Eq P⦄ where
  unfoldable pub admits : GateState P C → P → Bool
  unfolding is_listed
  admits st peer = not (contains peer st.denied) && is_listed peer st.allowed

  -- An open gate.
  abbrev pub open_gate : GateState P C
  open_gate = record { allowed = none; denied = []; live = []; next_id = 0 }

  unfoldable pub allow_list : List P → GateState P C
  unfolding collect
  allow_list peers = record open_gate { allowed = some (collect peers) }

  unfoldable pub is_allowed : GateState P C → P → Bool
  unfolding admits
  is_allowed = admits

  unfoldable pub allow : GateState P C → P → GateState P C
  allow st peer = record st {
    denied = remove peer st.denied;
    allowed = elim st.allowed [ none ↦ none | some a ↦ some (insert peer a) ];
  }

  -- The tracked connections of one peer.
  unfoldable pub live_of : P → List (P × List (ℕ × C)) → List (ℕ × C)
  live_of peer live = or_empty (find peer live)

  -- The list of who may connect, without the peer: on an open gate the peer is denied instead.
  pub strike : P → GateState P C → GateState P C
  strike peer st = elim st.allowed [
    | some a ↦ record st { allowed = some (remove peer a) }
    | none ↦ record st { denied = insert peer st.denied }
  ]

  unfoldable pub revoke : GateState P C → P → GateState P C × Closed C × ℕ
  unfolding strike live_of close_all
  revoke st peer =
      let conns = live_of peer st.live in
      (
        record (strike peer st) { live = erase peer st.live },
        close_all close_revoked conns,
        length conns,
      )

  -- The keys of the live connections whose peers are not on the new list.
  pub gone : List P → List (P × List (ℕ × C)) → List P
  gone allowed [] = []
  gone allowed ((p, cs) ∷ m) = if contains p allowed then gone allowed m else p ∷ gone allowed m

  -- The entries of these peers removed from the map, and what they held.
  pub remove_each : List P → List (P × List (ℕ × C)) → List (P × List (ℕ × C)) × List (ℕ × C)
  unfolding live_of
  remove_each [] live = (live, [])
  remove_each (p ∷ ps) live =
      let rest = remove_each ps (erase p live) in (rest.0, live_of p live ++ rest.1)

  unfoldable pub set_allowed : GateState P C → List P → GateState P C × Closed C × ℕ
  unfolding collect gone remove_each close_all
  set_allowed st peers =
      let fresh = collect peers in
      let (live, dropped) = remove_each (gone fresh st.live) st.live in
      (
        record st { allowed = some fresh; denied = []; live = live },
        close_all close_revoked dropped,
        length dropped,
      )

  -- An accepted connection: `none` where it is refused. The counter is a `u64`.
  unfoldable pub admit : (C → P) → GateState P C → C → Option C × GateState P C × Closed C
  unfolding admits live_of
  admit peer_of st conn =
      let peer = peer_of conn in
      let counted : GateState P C = record st { next_id = (st.next_id + 1) % 2 ^ 64 } in
      if admits st peer
      then (
        some conn,
        record counted {
          live = put peer (live_of peer st.live ++ (st.next_id, conn) ∷ []) st.live;
        },
        [],
      )
      else (none, counted, (conn, close_not_allowed) ∷ [])

  -- The task that waits for the end of the connection numbered `id` of `peer`.
  unfoldable pub closed : GateState P C → P → ℕ → GateState P C
  unfolding drop_id
  closed st peer id = elim (find peer st.live) [
    | none ↦ st
    | some cs ↦ elim (drop_id id cs) [
      | [] ↦ record st { live = erase peer st.live }
      | c ∷ rest ↦ record st { live = put peer (c ∷ rest) st.live }
    ]
  ]

  unfoldable pub live_connections : GateState P C → P → ℕ
  unfolding live_of
  live_connections st peer = length (live_of peer st.live)
