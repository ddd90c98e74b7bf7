-- ===== src/Client/Wire.antt =====
-- ember/client/src/wire.rs: what the server stores and sends. `J` is the type of JSON values
-- (`serde_json::Value`), which the client only carries.
use darkpyonix_ember.Base.{
  ℕ, Bool, false, Option, List, [], ◌∷◌, string_Eq, if◌then◌else◌, not, ◌||◌,
}
use Prim.Native.String.{String}

pub data ApprovalDecision : Type 0 where
  allow_once allow_always deny : ApprovalDecision

pub data TurnOutcome : Type 0 where
  completed interrupted failed : TurnOutcome

pub data AgentEvent (J : Type 0) : Type 0 where
  native_session : String → AgentEvent J
  user_message : String → AgentEvent J
  assistant_delta : String → AgentEvent J
  assistant_message : String → AgentEvent J
  tool_call : (call_id name : String) → J → AgentEvent J
  tool_result : (call_id output : String) → (is_error : Bool) → AgentEvent J
  approval_requested : (approval_id tool : String) → J → AgentEvent J
  approval_resolved : (approval_id : String) → ApprovalDecision → AgentEvent J
  usage : (input_tokens output_tokens : ℕ) → AgentEvent J
  turn_ended : TurnOutcome → AgentEvent J
  error : String → AgentEvent J
  notice : String → AgentEvent J
  unknown : AgentEvent J

pub data SessionStatus : Type 0 where
  idle running waiting_for_approval finished failed_turn unknown_status : SessionStatus

pub record SessionRecord : Type 0 where
  pub id : String
  pub project : String
  pub agent : String
  pub cwd : String
  pub model : Option String
  pub native_id : Option String
  pub status : SessionStatus
  pub title : String
  pub created_at : ℕ
  pub updated_at : ℕ
  pub last_seq : ℕ
  pub account_id : Option String
  pub account_reason : Option String
  pub pinned : Bool
  pub archived : Bool

abbrev bool_eq : Bool → Bool → Bool
bool_eq a b = if a then b else not b

-- The title, the pin and the archive mark of `other`; and whether one of them was new.
unfoldable pub take_meta : SessionRecord → SessionRecord → SessionRecord × Bool
take_meta rec other = (
  record rec { title = other.title; pinned = other.pinned; archived = other.archived },
  not (string_Eq.beq rec.title other.title)
      || not (bool_eq rec.pinned other.pinned)
      || not (bool_eq rec.archived other.archived),
)

pub record Project : Type 0 where
  pub name : String
  pub created_at : ℕ
  pub computers : List String

pub record StoredEvent (J : Type 0) : Type 0 where
  pub session_id : String
  pub seq : ℕ
  pub at : ℕ
  pub event : AgentEvent J

pub data TeamRole : Type 0 where
  leader_role teammate_role unknown_role : TeamRole

pub data TaskStatus : Type 0 where
  task_open in_progress blocked done cancelled unknown_task : TaskStatus

pub record TeamMember : Type 0 where
  pub session_id : String
  pub name : String
  pub role : TeamRole
  pub joined_at : ℕ
  pub ended_at : Option ℕ
  pub title : String
  pub agent : String
  pub status : Option SessionStatus

pub record TeamTask : Type 0 where
  pub id : String
  pub team_id : String
  pub number : ℕ
  pub title : String
  pub detail : String
  pub status : TaskStatus
  pub assignee : Option String
  pub assignee_name : Option String
  pub created_by : String
  pub created_at : ℕ
  pub updated_at : ℕ

pub record TeamView : Type 0 where
  pub id : String
  pub project : String
  pub leader : String
  pub created_at : ℕ
  pub members : List TeamMember
  pub tasks : List TeamTask

-- Whether the team lists the session: `member(..).is_some()`.
pub lists_member : List TeamMember → String → Bool
lists_member [] session_id = false
lists_member (m ∷ ms) session_id =
    string_Eq.beq m.session_id session_id || lists_member ms session_id

pub data Push (J : Type 0) : Type 0 where
  session_created : SessionRecord → Push J
  pushed_event : SessionStatus → StoredEvent J → Push J
  lagged : (missed : ℕ) → Push J
  session_updated : SessionRecord → Push J
  project_updated : Project → Push J
  team_updated : TeamView → Push J
