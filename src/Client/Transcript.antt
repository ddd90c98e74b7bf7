-- ===== src/Client/Transcript.antt =====
-- ember/client/src/transcript.rs: one session's conversation, reduced from its stored events.
-- Sequence numbers are natural numbers: the source's `i64` starts at 0 and an event at or below
-- it is a duplicate. An index that is out of range, where the source would panic, changes nothing;
-- `Transcript.Indexes` shows that the reducer uses none.
pub mod Reduce
pub mod Replay
pub mod Indexes
pub mod Cards
pub mod Streaming
pub mod Settled
mod Tests
use darkpyonix_ember.Base.{
  ℕ, zero, suc, ◌+◌, ◌%◌, ◌^◌, Bool, true, false, ◌||◌, not, Option, none, some, List, [], ◌∷◌,
  ◌++◌, length, get_elem?, leb, ◌==◌, if◌then◌else◌, find, put, erase, string_Eq, nat_Eq, keep,
}
use Prim.Native.String.{String}
use Prim.Native.String.{◌++◌ as text_append}
use mathlib.Core.Option
use darkpyonix_ember.Client.Wire.{
  AgentEvent, ApprovalDecision, TurnOutcome, native_session, user_message, assistant_delta,
  assistant_message, tool_call, tool_result, approval_requested, approval_resolved, usage,
  turn_ended, error, notice, unknown,
}

pub record ToolOutput : Type 0 where
  pub output : String
  pub is_error : Bool

pub data ApprovalState : Type 0 where
  pending : ApprovalState
  resolved : ApprovalDecision → ApprovalState
  abandoned : ApprovalState

pub data TranscriptItem (J : Type 0) : Type 0 where
  user : (seq : ℕ) → String → TranscriptItem J
  assistant : (seq : ℕ) → String → (streaming : Bool) → TranscriptItem J
  tool_card : (seq : ℕ) → (call_id name : String) → J → Option ToolOutput → TranscriptItem J
  approval : (seq : ℕ) → (approval_id tool : String) → J → ApprovalState → TranscriptItem J
  ended : (seq : ℕ) → TurnOutcome → TranscriptItem J
  failure : (seq : ℕ) → String → TranscriptItem J
  note : (seq : ℕ) → String → TranscriptItem J

pub record Usage : Type 0 where
  pub input_tokens : ℕ
  pub output_tokens : ℕ

pub data Applied : Type 0 where
  changed duplicate : Applied
  gap : (expected : ℕ) → Applied

pub record Transcript (J : Type 0) : Type 0 where
  pub items : List (TranscriptItem J)
  pub usage : Usage
  pub last_seq : ℕ
  pub held : List (ℕ × AgentEvent J)
  pub tool_index : List (String × ℕ)
  pub approval_index : List (String × ℕ)
  pub streaming : Option ℕ

-- `items[i] = f(items[i])`.
pub modify {ℓ} : {A : Type ℓ} → ℕ → (A → A) → List A → List A
modify i f [] = []
modify zero f (x ∷ xs) = f x ∷ xs
modify (suc i) f (x ∷ xs) = x ∷ modify i f xs

module _ {J : Type 0} where
  unfoldable pub new : Transcript J
  new = record {
    items = [];
    usage = record { input_tokens = 0; output_tokens = 0 };
    last_seq = 0;
    held = [];
    tool_index = [];
    approval_index = [];
    streaming = none;
  }

  -- `push_str` on the text of an assistant item.
  pub extend_text : String → TranscriptItem J → TranscriptItem J
  extend_text more (assistant seq text streaming) = assistant seq (text_append text more) streaming
  extend_text more item = item

  pub stop_streaming : TranscriptItem J → TranscriptItem J
  stop_streaming (assistant seq text streaming) = assistant seq text false
  stop_streaming item = item

  pub resolve : ApprovalDecision → TranscriptItem J → TranscriptItem J
  resolve decision (approval seq id tool input state) =
      approval seq id tool input (resolved decision)
  resolve decision item = item

  pub abandon : TranscriptItem J → TranscriptItem J
  abandon (approval seq id tool input pending) = approval seq id tool input abandoned
  abandon item = item

  pub abandon_all : List (TranscriptItem J) → List (TranscriptItem J)
  unfolding abandon
  abandon_all [] = []
  abandon_all (item ∷ items) = abandon item ∷ abandon_all items

  pub end_stream : Transcript J → Transcript J
  unfolding modify stop_streaming
  end_stream t = elim t.streaming [
    | some i ↦ record t { items = modify i stop_streaming t.items; streaming = none }
    | none ↦ t
  ]

  pub push_item : TranscriptItem J → Transcript J → Transcript J
  push_item item t = record t { items = t.items ++ item ∷ [] }

  -- The item that a call's result belongs to, if the index leads to a tool card.
  pub card_at : Transcript J → String → Option ℕ
  card_at t call_id = elim (find call_id t.tool_index) [
    | none ↦ none
    | some i ↦ elim (get_elem? t.items i) [
      | some item ↦ elim item [ tool_card seq id name input result ↦ some i | _ ↦ none ]
      | none ↦ none
    ]
  ]

  pub give_result : ToolOutput → TranscriptItem J → TranscriptItem J
  give_result out (tool_card seq id name input result) = tool_card seq id name input (some out)
  give_result out item = item

  module _ (null : J) where
    -- The match on the event. The sequence number is set in `reduce`.
    pub reduce_event : Transcript J → ℕ → AgentEvent J → Transcript J
    unfolding extend_text give_result resolve abandon_all modify
    reduce_event t seq (user_message text) = push_item (user seq text) (end_stream t)
    reduce_event t seq (assistant_delta text) = elim t.streaming [
      | some i ↦ record t { items = modify i (extend_text text) t.items }
      | none ↦ push_item (assistant seq text true) (record t { streaming = some (length t.items) })
    ]
    reduce_event t seq (assistant_message text) = elim t.streaming [
      | some i ↦ record t {
        items = modify i (λ _. assistant seq text false) t.items;
        streaming = none;
      }
      | none ↦ push_item (assistant seq text false) t
    ]
    reduce_event t seq (tool_call call_id name input) =
        let t' = end_stream t in
        push_item (tool_card seq call_id name input none)
          (record t' { tool_index = put call_id (length t'.items) t'.tool_index })
    reduce_event t seq (tool_result call_id output is_error) =
        let out : ToolOutput = record { output = output; is_error = is_error } in
        elim (card_at t call_id) [
          | some i ↦ record t { items = modify i (give_result out) t.items }
          | none ↦
              push_item (tool_card seq call_id "" null (some out))
                (record t { tool_index = put call_id (length t.items) t.tool_index })
        ]
    reduce_event t seq (approval_requested approval_id tool input) =
        let t' = end_stream t in
        push_item (approval seq approval_id tool input pending)
          (record t' { approval_index = put approval_id (length t'.items) t'.approval_index })
    reduce_event t seq (approval_resolved approval_id decision) =
        elim (find approval_id t.approval_index) [
          | some i ↦ record t { items = modify i (resolve decision) t.items }
          | none ↦ t
        ]
    reduce_event t seq (usage input output) = record t {
      usage = record {
        input_tokens = (t.usage.input_tokens + input) % 2 ^ 64;
        output_tokens = (t.usage.output_tokens + output) % 2 ^ 64;
      };
    }
    reduce_event t seq (turn_ended outcome) =
        let t' = end_stream t in
        push_item (ended seq outcome) (record t' { items = abandon_all t'.items })
    reduce_event t seq (error message) = push_item (failure seq message) t
    reduce_event t seq (notice message) = push_item (note seq message) t
    reduce_event t seq (native_session id) = t
    reduce_event t seq unknown = t

    pub reduce : Transcript J → ℕ → AgentEvent J → Transcript J
    unfolding reduce_event
    reduce t seq event = reduce_event (record t { last_seq = seq }) seq event

    -- The loop that applies what was held back, while the next event is there.
    pub release_held : ℕ → Transcript J → Transcript J
    release_held zero t = t
    release_held (suc fuel) t = elim (find (suc t.last_seq) t.held) [
      | some event ↦
          release_held fuel
            (reduce (record t { held = erase (suc t.last_seq) t.held }) (suc t.last_seq) event)
      | none ↦ t
    ]

    unfoldable pub is_held : Transcript J → ℕ → Bool
    is_held t seq = elim (find seq t.held) [ some event ↦ true | none ↦ false ]

    -- One round more than there are held events is enough, as each round applies one.
    pub apply_seq : Transcript J → ℕ → AgentEvent J → Transcript J × Applied
    apply_seq t seq event =
        if leb seq t.last_seq || is_held t seq
        then (t, duplicate)
        else if seq == suc t.last_seq
        then (release_held (suc (length t.held)) (reduce t seq event), changed)
        else (record t { held = put seq event t.held }, gap (suc t.last_seq))

  abbrev pub is_pending : TranscriptItem J → Bool
  is_pending (approval seq id tool input pending) = true
  is_pending item = false

  pub pending_approvals : Transcript J → List (TranscriptItem J)
  pending_approvals t = keep is_pending t.items
