-- ===== src/Client/Transcript/Reduce.antt =====
-- The reducer neither reads nor changes what is held back or the last number seen.
use darkpyonix_ember.Base.{List, arith, false, nat_Eq, refl, suc, ℕ, ◌<◌, ◌≡◌}
use darkpyonix_ember.Client.Wire.{
  AgentEvent, native_session, user_message, assistant_delta, assistant_message, tool_call,
  tool_result, approval_requested, approval_resolved, usage, turn_ended, error, notice, unknown,
}
use darkpyonix_ember.Client.Transcript.{
  Transcript, apply_seq, card_at, end_stream, gap, is_held, push_item, reduce_event,
}

module _ {J : Type 0} (null : J) where
  abbrev pub set_held : List (ℕ × AgentEvent J) → Transcript J → Transcript J
  set_held h t = record t { held = h }

  pub reduce_event-set_held :
      (h : List (ℕ × AgentEvent J)) (t : Transcript J) (s : ℕ) (e : AgentEvent J)
      → reduce_event null (set_held h t) s e ≡ set_held h (reduce_event null t s e)
  unfolding reduce_event end_stream push_item card_at
  reduce_event-set_held h t s (user_message text) = ground arith
  reduce_event-set_held h t s (assistant_delta text) = ground arith
  reduce_event-set_held h t s (assistant_message text) = ground arith
  reduce_event-set_held h t s (tool_call id name input) = ground arith
  reduce_event-set_held h t s (tool_result id output is_error) = ground arith
  reduce_event-set_held h t s (approval_requested id tool input) = ground arith
  reduce_event-set_held h t s (approval_resolved id decision) = ground arith
  reduce_event-set_held h t s (usage i o) = refl
  reduce_event-set_held h t s (turn_ended outcome) = ground arith
  reduce_event-set_held h t s (error message) = refl
  reduce_event-set_held h t s (notice message) = refl
  reduce_event-set_held h t s (native_session id) = refl
  reduce_event-set_held h t s unknown = refl

  pub reduce_event-last_seq :
      (t : Transcript J) (s : ℕ) (e : AgentEvent J)
      → (reduce_event null t s e).last_seq ≡ t.last_seq
  unfolding reduce_event end_stream push_item card_at
  reduce_event-last_seq t s (user_message text) = ground arith
  reduce_event-last_seq t s (assistant_delta text) = ground arith
  reduce_event-last_seq t s (assistant_message text) = ground arith
  reduce_event-last_seq t s (tool_call id name input) = ground arith
  reduce_event-last_seq t s (tool_result id output is_error) = ground arith
  reduce_event-last_seq t s (approval_requested id tool input) = ground arith
  reduce_event-last_seq t s (approval_resolved id decision) = ground arith
  reduce_event-last_seq t s (usage i o) = refl
  reduce_event-last_seq t s (turn_ended outcome) = ground arith
  reduce_event-last_seq t s (error message) = refl
  reduce_event-last_seq t s (notice message) = refl
  reduce_event-last_seq t s (native_session id) = refl
  reduce_event-last_seq t s unknown = refl

  -- An event behind a gap, new to the transcript, is answered with the number that is missing.
  pub apply_seq-gap :
      (t : Transcript J) (seq : ℕ) (event : AgentEvent J)
      → suc t.last_seq < seq
      → is_held null t seq ≡ false
      → (apply_seq null t seq event).1 ≡ gap (suc t.last_seq)
  unfolding apply_seq
  apply_seq-gap t seq event far new = ground (arith, far, new)
