-- ===== src/Client/Transcript/Tests.antt =====
-- The transcript theorems at a small session whose events arrive out of order and twice.
use darkpyonix_ember.Base.{
  ℕ, zero, suc, ◌≤◌, ◌<◌, ◌≡◌, refl, ◌⊎◌, find, some, List, [], ◌∷◌, none, true, false, arith,
  contains, keep, nat_Eq,
}
use darkpyonix_ember.Client.Wire.{
  AgentEvent, user_message, assistant_delta, assistant_message, turn_ended, completed,
  approval_requested,
}
use darkpyonix_ember.Client.Transcript.{
  Transcript, user, assistant, new, reduce, reduce_event, pending_approvals,
}
use darkpyonix_ember.Client.Transcript.Replay.{offers, replayed, offers_replay, offers_complete}
use darkpyonix_ember.Client.Transcript.Indexes.{IsIndexed, reduce_event-IsIndexed}
use darkpyonix_ember.Client.Transcript.Cards.{deltas, deltas-message}
use darkpyonix_ember.Client.Transcript.Streaming.{is_streaming}
use darkpyonix_ember.Client.Transcript.Settled.{reduce_all, turn_ended_settles}

-- JSON values stand as numbers here.
abbrev log : ℕ → AgentEvent ℕ
log zero = user_message ""
log (suc zero) = user_message "hi"
log (suc (suc zero)) = assistant_delta "He"
log (suc (suc (suc n))) = assistant_message "Hello"

abbrev arrivals : List ℕ
arrivals = 3 ∷ 1 ∷ 1 ∷ 3 ∷ 2 ∷ []

all_arrive : (s : ℕ) → 1 ≤ s → s ≤ 3 → contains s arrivals ≡ true
all_arrive zero h k = absurd (omega arith)
all_arrive (suc zero) h k = refl
all_arrive (suc (suc zero)) h k = refl
all_arrive (suc (suc (suc zero))) h k = refl
all_arrive (suc (suc (suc (suc n)))) h k = absurd (omega arith)

offers_complete_example : offers 0 log 3 new arrivals ≡ replayed 0 log 3 3
offers_complete_example = offers_complete 0 log 3 arrivals (omega arith) all_arrive

-- The third event waits for the second.
abbrev waiting : Transcript ℕ
waiting = offers 0 log 3 new (3 ∷ 1 ∷ [])

offers_replay_example :
    (record waiting { held = [] } ≡ replayed 0 log 3 waiting.last_seq)
    × ((s : ℕ) (e : AgentEvent ℕ)
        → find s waiting.held ≡ some e
        → (e ≡ log s) × (waiting.last_seq < s) × (s ≤ 3))
    × ((s : ℕ)
        → contains s (3 ∷ 1 ∷ []) ≡ true
        → (s ≤ waiting.last_seq) ⊎ ((e : AgentEvent ℕ) × (find s waiting.held ≡ some e)))
    × (find (suc waiting.last_seq) waiting.held ≡ none)
offers_replay_example = offers_replay 0 log 3 (3 ∷ 1 ∷ []) (omega arith)

abbrev asking : Transcript ℕ
asking = record {
  items = user 1 "go" ∷ [];
  usage = record { input_tokens = 0; output_tokens = 0 };
  last_seq = 1;
  held = [];
  tool_index = [];
  approval_index = [];
  streaming = none;
}

-- A reply and an approval that the end of the turn cuts off.
abbrev cut_off : List (ℕ × AgentEvent ℕ)
cut_off = (1, approval_requested "a" "Bash" 7) ∷ (2, assistant_delta "He") ∷ []

turn_ended_settles_example :
    let t = reduce 0 (reduce_all 0 new cut_off) 3 (turn_ended completed) in
    (pending_approvals t ≡ []) × (keep is_streaming t.items ≡ []) × (t.streaming ≡ none)
turn_ended_settles_example = turn_ended_settles 0 cut_off 3 completed

deltas-message_example :
    (reduce 0 (deltas 0 asking ((2, "He") ∷ (3, "llo") ∷ [])) 4 (assistant_message "Hello")).items
    ≡ user 1 "go" ∷ assistant 4 "Hello" false ∷ []
deltas-message_example = (deltas-message 0 asking 2 "He" ((3, "llo") ∷ []) 4 "Hello" refl).1

asking-IsIndexed : IsIndexed asking
asking-IsIndexed = record { stream = λ i e. cc; tools = λ id i e. cc; approvals = λ id i e. cc }

reduce_event-IsIndexed_example :
    IsIndexed (reduce_event 0 asking 2 (approval_requested "a" "Bash" 7))
reduce_event-IsIndexed_example =
    reduce_event-IsIndexed 0 asking 2 (approval_requested "a" "Bash" 7) asking-IsIndexed
