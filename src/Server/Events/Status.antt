-- ===== src/Server/Events/Status.antt =====
-- The status after a sequence of events.
use darkpyonix_ember.Base.{List, [], ◌∷◌, Option, none, some}
use darkpyonix_ember.Server.Events.{
  AgentEvent, SessionStatus, after, native_session, user_message, system_notice, assistant_delta,
  assistant_message, tool_call, tool_result, approval_requested, approval_resolved, usage,
  rate_limited, turn_ended, error, notice, completed, interrupted, failed, running,
  waiting_for_approval, finished, failed_turn,
}

abbrev pub or_old : SessionStatus → Option SessionStatus → SessionStatus
or_old s none = s
or_old s (some d) = d

module _ {J : Type 0} where
  unfoldable pub after_all : SessionStatus → List (AgentEvent J) → SessionStatus
  after_all s [] = s
  after_all s (e ∷ es) = after_all (after s e) es

  -- The status that an event decides on by itself.
  unfoldable pub decided : AgentEvent J → Option SessionStatus
  decided (user_message text) = some running
  decided (approval_requested id tool input) = some waiting_for_approval
  decided (approval_resolved id decision) = some running
  decided (turn_ended failed) = some failed_turn
  decided (turn_ended completed) = some finished
  decided (turn_ended interrupted) = some finished
  decided (native_session id) = none
  decided (system_notice text) = none
  decided (assistant_delta text) = none
  decided (assistant_message text) = none
  decided (tool_call id name input) = none
  decided (tool_result id output is_error) = none
  decided (usage i o) = none
  decided (rate_limited resets_at message) = none
  decided (error message) = none
  decided (notice message) = none

  -- What the last event of the list that decides on a status decides, if there is one.
  unfoldable pub last_decided : List (AgentEvent J) → Option SessionStatus
  last_decided [] = none
  last_decided (e ∷ es) = elim (last_decided es) [ some d ↦ some d | none ↦ decided e ]
