-- ===== src/Client/State/Data.antt =====
-- The state of the client, its inputs and what they change, and the maps of
-- ember/client/src/state.rs.
use darkpyonix_ember.Base.{
  ℕ, Bool, true, false, not, ◌&&◌, ◌||◌, Option, none, some, List, [], ◌∷◌, Eq, string_Eq, contains,
  insert, find, put, if◌then◌else◌,
}
use Prim.Native.String.{String}
use Prim.Native.String.{compare as string_compare}
use Prim.Native.Nat.{Ordering}
use darkpyonix_ember.Client.Wire.{
  SessionRecord, Project, StoredEvent, TeamView, TeamMember, lists_member, Push,
}
use darkpyonix_ember.Client.Transcript.{Transcript}

pub data LauncherStatus : Type 0 where
  shows_idle shows_running shows_waiting finished_unread shows_finished shows_failed shows_unknown :
      LauncherStatus

pub data Reachability : Type 0 where
  unknown_reach online unreachable : Reachability

pub record Computer : Type 0 where
  pub id : String
  pub name : String
  pub reachability : Reachability
  pub projects : List String

pub data ConnectionState : Type 0 where
  offline : ConnectionState
  connecting : (attempt : ℕ) → ConnectionState
  connected : ConnectionState
  reconnecting : (attempt retry_in_ms : ℕ) → (error : String) → ConnectionState
  incompatible : (server client : ℕ) → ConnectionState

pub data Input (J : Type 0) : Type 0 where
  sessions_loaded : List SessionRecord → Input J
  session_loaded : SessionRecord → Input J
  push : Push J → Input J
  events_fetched : (session_id : String) → List (StoredEvent J) → Input J
  opened : String → Input J
  closed_view : String → Input J
  connection_changed : ConnectionState → Input J
  computers_loaded : List Computer → Input J
  projects_loaded : List Project → Input J
  team_loaded : (session_id : String) → Option TeamView → Input J

pub record Changes : Type 0 where
  pub projects : Bool
  pub sessions : List String
  pub transcripts : List String
  pub computers : Bool
  pub connection : Bool
  pub teams : List String
  pub resync : List String
  pub resync_all : Bool
  pub persist : Bool

abbrev pub no_changes : Changes
no_changes = record {
  projects = false;
  sessions = [];
  transcripts = [];
  computers = false;
  connection = false;
  teams = [];
  resync = [];
  resync_all = false;
  persist = false;
}

abbrev pub is_nil {ℓ} : {A : Type ℓ} → List A → Bool
is_nil [] = true
is_nil (x ∷ xs) = false

unfoldable pub no_change : Changes → Bool
no_change ch =
    not ch.projects
    && is_nil ch.sessions
    && is_nil ch.transcripts
    && not ch.computers
    && not ch.connection
    && is_nil ch.teams
    && is_nil ch.resync
    && not ch.resync_all
    && not ch.persist

pub record State (J : Type 0) : Type 0 where
  pub sessions : List (String × SessionRecord)
  pub transcripts : List (String × Transcript J)
  pub open_views : List String
  pub last_seen : List (String × ℕ)
  pub baselined : Bool
  pub computers : List Computer
  pub project_records : List (String × Project)
  pub projects_known : Bool
  pub teams : List (String × TeamView)
  pub team_of : List (String × String)
  pub connection : ConnectionState
  pub revision : ℕ

-- The equalities that the source derives.
pub record Derived : Type 0 where
  pub session_eq : Eq SessionRecord
  pub project_eq : Eq Project
  pub projects_eq : Eq (List (String × Project))
  pub team_eq : Eq TeamView
  pub connection_eq : Eq ConnectionState
  pub computers_eq : Eq (List Computer)
  pub names_eq : Eq (List String)

abbrev pub or_zero : Option ℕ → ℕ
or_zero none = 0
or_zero (some n) = n

-- A map's key, put where its order has it.
pub put_sorted {ℓ} : {V : Type ℓ} → String → V → List (String × V) → List (String × V)
put_sorted k v [] = (k, v) ∷ []
put_sorted k v ((j, w) ∷ m) =
    let rest = put_sorted k v m in
    elim (string_compare k j) [
      | Ordering.lt ↦ (k, v) ∷ (j, w) ∷ m
      | Ordering.eq ↦ (k, v) ∷ m
      | Ordering.gt ↦ (j, w) ∷ rest
    ]

pub by_name : List Project → List (String × Project) → List (String × Project)
by_name [] m = m
by_name (p ∷ ps) m = by_name ps (put_sorted p.name p m)

-- The names of the projects that the computer is assigned to, in the map's order.
pub assigned : String → List (String × Project) → List String
assigned computer [] = []
assigned computer ((name, p) ∷ m) =
    if contains computer p.computers then p.name ∷ assigned computer m else assigned computer m

-- Entries whose session the new team no longer lists leave the index.
pub keep_members : TeamView → List (String × String) → List (String × String)
keep_members team [] = []
keep_members team ((sid, tid) ∷ m) =
    if not (string_Eq.beq tid team.id) || lists_member team.members sid
    then (sid, tid) ∷ keep_members team m
    else keep_members team m

-- The members point at the team; the teams that they pointed at before have changed.
pub point_members :
    String
    → List TeamMember
    → List (String × String) × List String
    → List (String × String) × List String
point_members id [] r = r
point_members id (m ∷ ms) (team_of, changed_teams) =
    let changed_teams' : List String = elim (find m.session_id team_of) [
      | none ↦ changed_teams
      | some old ↦ if string_Eq.beq old id then changed_teams else insert old changed_teams
    ] in
    point_members id ms (put m.session_id id team_of, changed_teams')

pub record CacheSnapshot : Type 0 where
  pub format : ℕ
  pub was_baselined : Bool
  pub cached_sessions : List SessionRecord
  pub cached_seen : List (String × ℕ)
  pub cached_computers : List Computer
  pub cached_projects : List Project

pub record SessionView : Type 0 where
  pub record_of : SessionRecord
  pub shown_status : LauncherStatus
  pub is_shown : Bool

pub by_id : List SessionRecord → List (String × SessionRecord) → List (String × SessionRecord)
by_id [] m = m
by_id (s ∷ ss) m = by_id ss (put s.id s m)
