-- ===== src/EditorConn/Protocol/Tests.antt =====
-- The protocol theorems at a run in which a socket breaks, and runs of the source's own tests.
use darkpyonix_ember.Base.{ℕ, ◌≡◌, refl, List, [], ◌∷◌, arith, true}
use darkpyonix_ember.EditorConn.Frame.{Frame, regular, replay_request, empty}
use darkpyonix_ember.EditorConn.Protocol.{new, receive, tick}
use darkpyonix_ember.EditorConn.Protocol.Queue.{End}
use darkpyonix_ember.EditorConn.Protocol.Acks.{receive_counters}

abbrev data_frame : ℕ → ℕ → List ℕ → Frame
data_frame id a payload = record { ty = regular; id = id; ack = a; payload = payload }

gap_requests_replay :
    (receive (new 0) (data_frame 2 0 (98 ∷ [])) 5).out ≡ empty replay_request 0 ∷ []
unfolding receive new
gap_requests_replay = refl

tick_times_out : (tick (new 0) 20_000).1 ≡ true
unfolding tick new
tick_times_out = refl

fresh_End : End [] 0 (new 0)
unfolding new
fresh_End = record {
  sent_count = refl;
  queue = refl;
  queued = tt;
  holding = tt;
  got_count = refl;
  acked = omega arith;
}

receive_counters_example : (receive (new 0) (data_frame 1 4 []) 9).state.outgoing_ack_id ≡ 4
unfolding new
receive_counters_example = (receive_counters (new 0) (data_frame 1 4 []) 9).0
