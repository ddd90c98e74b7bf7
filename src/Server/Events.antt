-- ===== src/Server/Events.antt =====
-- ember/server/src/events.rs: the events of a session as the server stores them, and the status that
-- they lead to. `J` is the type of JSON values.
pub mod Status
mod Tests
use darkpyonix_ember.Base.{ℕ, Bool, Option, List, [], ◌∷◌}
use Prim.Native.String.{String}

pub data ApprovalDecision : Type 0 where
  allow_once allow_always deny : ApprovalDecision

pub data TurnOutcome : Type 0 where
  completed interrupted failed : TurnOutcome

pub data AgentEvent (J : Type 0) : Type 0 where
  native_session : String → AgentEvent J
  user_message : String → AgentEvent J
  system_notice : String → AgentEvent J
  assistant_delta : String → AgentEvent J
  assistant_message : String → AgentEvent J
  tool_call : (call_id name : String) → J → AgentEvent J
  tool_result : (call_id output : String) → (is_error : Bool) → AgentEvent J
  approval_requested : (approval_id tool : String) → J → AgentEvent J
  approval_resolved : (approval_id : String) → ApprovalDecision → AgentEvent J
  usage : (input_tokens output_tokens : ℕ) → AgentEvent J
  rate_limited : (resets_at : Option ℕ) → String → AgentEvent J
  turn_ended : TurnOutcome → AgentEvent J
  error : String → AgentEvent J
  notice : String → AgentEvent J

pub data SessionStatus : Type 0 where
  idle running waiting_for_approval finished failed_turn : SessionStatus

unfoldable pub after : {J : Type 0} → SessionStatus → AgentEvent J → SessionStatus
after s (user_message text) = running
after s (approval_requested id tool input) = waiting_for_approval
after s (approval_resolved id decision) = running
after s (turn_ended failed) = failed_turn
after s (turn_ended completed) = finished
after s (turn_ended interrupted) = finished
after s (native_session id) = s
after s (system_notice text) = s
after s (assistant_delta text) = s
after s (assistant_message text) = s
after s (tool_call id name input) = s
after s (tool_result id output is_error) = s
after s (usage i o) = s
after s (rate_limited resets_at message) = s
after s (error message) = s
after s (notice message) = s
