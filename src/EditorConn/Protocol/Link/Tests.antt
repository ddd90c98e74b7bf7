-- ===== src/EditorConn/Protocol/Link/Tests.antt =====
-- The theorems on two ends, at a run in which a socket breaks.
use darkpyonix_ember.Base.{◌≡◌, refl, List, [], ◌∷◌, arith, Prefix}
use darkpyonix_ember.EditorConn.Protocol.{new, send, receive, end_reconnect, begin_reconnect}
use darkpyonix_ember.EditorConn.Protocol.Link.{
  Event, near_does, far_does, sends, hears, loses, reconnects, start, run, act, step,
}
use darkpyonix_ember.EditorConn.Protocol.Link.Delivery.{run_delivers}
use darkpyonix_ember.EditorConn.Protocol.Link.CatchUp.{run_catches_up, resumed}

-- Message 1 arrives, 2 and 3 are lost with the socket.
abbrev broken : List Event
broken =
    near_does (sends (1 ∷ [])) 0
    ∷ far_does hears 1
    ∷ near_does (sends (2 ∷ [])) 2
    ∷ near_does (sends (3 ∷ [])) 3
    ∷ far_does loses 4
    ∷ near_does reconnects 5
    ∷ near_does (sends (4 ∷ [])) 6
    ∷ []

broken_heard : (run (start 0) broken).far.heard ≡ (1 ∷ []) ∷ []
unfolding run start step act new send receive
broken_heard = refl

run_delivers_example :
    Prefix (run (start 0) broken).near.heard (run (start 0) broken).far.sent
    × Prefix (run (start 0) broken).far.heard (run (start 0) broken).near.sent
run_delivers_example = run_delivers 0 broken (omega arith)

run_catches_up_example :
    (resumed (run (start 0) broken) 7).far.heard ≡ (1 ∷ []) ∷ (2 ∷ []) ∷ (3 ∷ []) ∷ (4 ∷ []) ∷ []
unfolding run start step act new send receive end_reconnect begin_reconnect
run_catches_up_example = run_catches_up 0 7 broken (omega arith) refl (omega arith, omega arith)
