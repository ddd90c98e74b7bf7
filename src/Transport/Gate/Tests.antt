-- ===== src/Transport/Gate/Tests.antt =====
-- Concrete gates. Connection `c` is of the peer `c % 10`.
use darkpyonix_ember.Base.{
  ℕ, ◌%◌, ◌≡◌, refl, true, false, none, List, [], ◌∷◌, All, contains, if◌then◌else◌, nat_Eq,
}
use darkpyonix_ember.Transport.Gate.{
  GateState, is_allowed, revoke, set_allowed, admit, live_connections, close_not_allowed,
  allow_list, allow, closed, open_gate,
}
use darkpyonix_ember.Transport.Gate.Admission.{
  Act, allows, replaces, admission, ends, run, IsTight, run-IsTight, empty-IsTight,
  run_admits_the_live,
}
use darkpyonix_ember.Transport.Gate.Revocation.{spares, revoked_stays_out, set_allowed_keeps}

abbrev peer_of : ℕ → ℕ
peer_of c = c % 10

abbrev home : GateState ℕ ℕ
unfolding allow_list
home = allow_list (1 ∷ 2 ∷ 3 ∷ [])

abbrev calls : List (Act ℕ ℕ)
calls = admission 11 ∷ admission 12 ∷ admission 21 ∷ admission 14 ∷ ends 1 0 ∷ allows 4 ∷ []

abbrev Served : ℕ × ℕ → Type 0
Served c = peer_of c.1 ≡ 1

run_admits_the_live_example :
    (is_allowed (run peer_of home calls) 1 ≡ true) × All Served ((2, 21) ∷ [])
unfolding run allow_list allow closed admit
run_admits_the_live_example = run_admits_the_live peer_of home calls 1 ((2, 21) ∷ []) refl refl

abbrev one_in : GateState ℕ ℕ
one_in = run peer_of open_gate (admission 11 ∷ admission 32 ∷ [])

one_in-IsTight : IsTight peer_of one_in
one_in-IsTight =
    run-IsTight peer_of open_gate (admission 11 ∷ admission 32 ∷ [])
      (empty-IsTight peer_of open_gate refl)

abbrev later_calls : List (Act ℕ ℕ)
later_calls = admission 31 ∷ allows 2 ∷ ends 1 0 ∷ replaces (2 ∷ 3 ∷ []) ∷ []

revoked_stays_out_example :
    let later = run peer_of (revoke one_in 1).0 later_calls in
    (is_allowed later 1 ≡ false)
    × (live_connections later 1 ≡ 0)
    × ((admit peer_of later 41).0 ≡ none)
    × ((admit peer_of later 41).2 ≡ (41, close_not_allowed) ∷ [])
unfolding spares
revoked_stays_out_example =
    revoked_stays_out peer_of one_in 1 later_calls 41 one_in-IsTight
      (refl, (refl, (refl, (refl, tt)))) refl

abbrev named : List ℕ
named = 2 ∷ 3 ∷ []

set_allowed_keeps_example :
    let st' = (set_allowed one_in named).0 in
    (is_allowed st' 1 ≡ contains {K = ℕ} 1 named)
    × (live_connections st' 1 ≡ (if contains {K = ℕ} 1 named then live_connections one_in 1 else 0))
set_allowed_keeps_example = set_allowed_keeps one_in named 1
