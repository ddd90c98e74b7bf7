-- ===== src/Client/State/Tests.antt =====
-- A concrete client, with the equalities that the source derives.
use darkpyonix_ember.Base.{
  ◌↔◌, inl, inr, Bool-cases, nat_Eq, ℕ, ◌≡◌, ◌≤◌, refl, Bool, true, false, none, some, List, [],
  ◌∷◌, Eq, find, string_Eq, zero, suc, contains, arith,
}
use Prim.Native.String.{String}
use darkpyonix_ember.Client.Wire.{
  SessionRecord, StoredEvent, Project, TeamView, pushed_event, running, idle, notice, AgentEvent,
}
use darkpyonix_ember.Client.Transcript.{new}
use darkpyonix_ember.Client.State.{
  State, Derived, Input, Computer, ConnectionState, offline, push, opened, sessions_loaded, seen,
  closed_view, events_fetched,
}
use darkpyonix_ember.Client.Transcript.Replay.{replayed}
use darkpyonix_ember.Client.State.Feeds.{arriving, of_session}
use darkpyonix_ember.Client.State.CatchUp.{arrived, numbers, applied_replays}
use darkpyonix_ember.Client.State.Seen.{applied, applied_moves_forward}

is_yes : {A : Type 0} → Dec A → Bool
is_yes (yes a) = true
is_yes (no n) = false

is_yes_iff : {A : Type 0} (d : Dec A) → (is_yes d ≡ true) ↔ A
unfolding is_yes
is_yes_iff (yes a) = (λ e. a, λ b. refl)
is_yes_iff (no n) = (λ e. absurd (cc e), λ b. absurd (n b))

from_discrete : {A : Type 0} → Discrete A → Eq A
from_discrete d = record { beq = λ a b. is_yes (d a b); beq_iff = λ a b. is_yes_iff (d a b) }

to_discrete : {A : Type 0} → Eq A → Discrete A
to_discrete e a b = elim (Bool-cases (e.beq a b)) [
  | inl h ↦ yes ((e.beq_iff a b).0 h)
  | inr h ↦ no (λ p. cc ((e.beq_iff a b).1 p, h))
]

String-discrete : Discrete String
String-discrete = to_discrete string_Eq

Nat-discrete : Discrete ℕ
Nat-discrete = to_discrete nat_Eq

SessionRecord-discrete : Discrete SessionRecord
SessionRecord-discrete = hlevel (String-discrete, Nat-discrete)

Project-discrete : Discrete (List (String × Project))
Project-discrete = hlevel (String-discrete, Nat-discrete)

TeamView-discrete : Discrete TeamView
TeamView-discrete = hlevel (String-discrete, Nat-discrete)

ConnectionState-discrete : Discrete ConnectionState
ConnectionState-discrete = hlevel (String-discrete, Nat-discrete)

Computers-discrete : Discrete (List Computer)
Computers-discrete = hlevel (String-discrete, Nat-discrete)

OneProject-discrete : Discrete Project
OneProject-discrete = hlevel (String-discrete, Nat-discrete)

Names-discrete : Discrete (List String)
Names-discrete = hlevel (String-discrete)

abbrev derived : Derived
derived = record {
  session_eq = from_discrete SessionRecord-discrete;
  project_eq = from_discrete OneProject-discrete;
  projects_eq = from_discrete Project-discrete;
  team_eq = from_discrete TeamView-discrete;
  connection_eq = from_discrete ConnectionState-discrete;
  computers_eq = from_discrete Computers-discrete;
  names_eq = from_discrete Names-discrete;
}

-- JSON values are numbers here.
abbrev chat : SessionRecord
chat = record {
  id = "a";
  project = "p";
  agent = "scripted";
  cwd = "/tmp";
  model = none;
  native_id = none;
  status = idle;
  title = "t";
  created_at = 0;
  updated_at = 3;
  last_seq = 3;
  account_id = none;
  account_reason = none;
  pinned = false;
  archived = false;
}

abbrev start : State ℕ
start = record {
  sessions = ("a", chat) ∷ [];
  transcripts = ("a", new) ∷ [];
  open_views = "a" ∷ [];
  last_seen = ("a", 3) ∷ [];
  baselined = true;
  computers = [];
  project_records = [];
  projects_known = false;
  teams = [];
  team_of = [];
  connection = offline;
  revision = 0;
}

abbrev fifth : StoredEvent ℕ
fifth = record { session_id = "a"; seq = 5; at = 9; event = notice "hi" }

abbrev inputs : List (Input ℕ)
inputs = push (pushed_event running fifth) ∷ sessions_loaded (chat ∷ []) ∷ opened "a" ∷ []

applied_moves_forward_example :
    (seen 0 derived start "a" ≤ seen 0 derived (applied 0 derived start inputs) "a")
    × ((rec' : SessionRecord) × (find "a" (applied 0 derived start inputs).sessions ≡ some rec')
        × (3 ≤ rec'.last_seq))
applied_moves_forward_example = applied_moves_forward 0 derived start inputs "a" chat refl

-- The log of the session: notices only.
abbrev log : ℕ → AgentEvent ℕ
log n = notice "hi"

abbrev stored : String → ℕ → StoredEvent ℕ
stored id n = record { session_id = id; seq = n; at = 9; event = log n }

-- The second event is pushed first, another session's follows, and the first two are fetched.
abbrev gap_filled : List (Input ℕ)
gap_filled =
    push (pushed_event running (stored "a" 2))
    ∷ push (pushed_event running (stored "b" 7))
    ∷ closed_view "a"
    ∷ events_fetched "a" (stored "a" 1 ∷ stored "a" 2 ∷ [])
    ∷ []

both_arrive :
    (n : ℕ)
    → 1 ≤ n
    → n ≤ 2
    → contains n (numbers 0 derived (arrived 0 derived "a" gap_filled)) ≡ true
unfolding arrived arriving of_session
both_arrive zero h k = absurd (omega arith)
both_arrive (suc zero) h k = refl
both_arrive (suc (suc zero)) h k = refl
both_arrive (suc (suc (suc n))) h k = absurd (omega arith)

applied_replays_example :
    find "a" (applied 0 derived start gap_filled).transcripts ≡ some (replayed 0 log 2 2)
unfolding arrived arriving of_session
applied_replays_example =
    applied_replays 0 derived log 2 start gap_filled "a" refl
      ((refl, omega arith), ((refl, omega arith), ((refl, omega arith), tt))) both_arrive
