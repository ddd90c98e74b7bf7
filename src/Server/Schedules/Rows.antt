-- ===== src/Server/Schedules/Rows.antt =====
-- ember/server/src/schedules/mod.rs: a schedule as the row of its table, and what creating,
-- updating, pausing, resuming and firing make of it. The checks of the project, session, account
-- and computer of a new schedule, the runs' own table and the notices are not modelled. Instants
-- are as in the parent; `now - GRACE_MS` does not underflow for a clock after 1970.
-- The statements of an operation lock the database one by one: `update`, `resume` and `plan` decide
-- on the row as they read it (`current`, `s`), and write to the row that is there by then (`row`).
use darkpyonix_ember.Base.{
  ℕ, ◌+◌, ◌-◌, max, Bool, true, false, not, ◌&&◌, Option, none, some, List, [], ◌∷◌, length, drop,
  ltb, leb, ◌==◌, if◌then◌else◌,
}
use darkpyonix_ember.Server.Schedules.{
  ScheduleKind, cron, interval, once, Result, ok, err, ◌>>=◌, or_err, Calendar, validate,
  next_after, occurrences_between, Due, in_the_past, never_fires, empty_prompt, no_trigger, trim,
}
use Prim.Native.String.{String}

abbrev pub grace_ms : ℕ
grace_ms = 60_000

abbrev pub max_missed_rows : ℕ
max_missed_rows = 20

pub data ScheduleTarget : Type 0 where
  continue : (session_id : String) → ScheduleTarget
  new_session : (title : Option String) → ScheduleTarget

pub record Schedule : Type 0 where
  pub id : String
  pub project : String
  pub agent : String
  pub account_id : Option String
  pub computer_id : Option String
  pub cwd : Option String
  pub prompt : List ℕ
  pub kind : ScheduleKind
  pub target : ScheduleTarget
  pub paused : Bool
  pub catch_up : Bool
  pub next_run_at : Option ℕ
  pub last_run_at : Option ℕ
  pub created_by_session : Option String
  pub created_at : ℕ
  pub updated_at : ℕ
  pub anchor_at : ℕ

-- The parts of the request that pass its checks, with the agent that these find.
pub record NewSchedule : Type 0 where
  pub project : String
  pub agent : String
  pub account : Option String
  pub computer : Option String
  pub cwd : Option String
  pub prompt : List ℕ
  pub kind : ScheduleKind
  pub target : ScheduleTarget
  pub paused : Bool
  pub catch_up : Bool

pub record SchedulePatch : Type 0 where
  pub prompt : Option (List ℕ)
  pub kind : Option ScheduleKind
  pub catch_up : Option Bool

abbrev pub unwrap_or {ℓ} : {A : Type ℓ} → A → Option A → A
unwrap_or a none = a
unwrap_or a (some b) = b

abbrev pub is_none {ℓ} : {A : Type ℓ} → Option A → Bool
is_none none = true
is_none (some a) = false

abbrev pub is_blank : Option (List ℕ) → Bool
is_blank none = false
is_blank (some text) = elim (trim text) [ [] ↦ true | d ∷ ds ↦ false ]

-- `(!paused).then_some(next)`.
abbrev pub unless_paused : Bool → ℕ → Option ℕ
unless_paused paused next = if paused then none else some next

-- `without_last` is `pop`, and `last_or` is `last().unwrap_or`.
unfoldable pub without_last : List ℕ → List ℕ
without_last [] = []
without_last (t ∷ []) = []
without_last (t ∷ u ∷ us) = t ∷ without_last (u ∷ us)

unfoldable pub last_or : ℕ → List ℕ → ℕ
last_or d [] = d
last_or d (t ∷ ts) = last_or t ts

pub record Missed : Type 0 where
  pub count : ℕ
  pub times : List ℕ
  pub last_missed : ℕ

module _ {Z X D L : Type 0} (c : Calendar Z X D L) where
  unfoldable pub first_of : ScheduleKind → (anchor now : ℕ) → Result ℕ
  first_of (once at) anchor now =
      if ltb at (now - grace_ms) then err (in_the_past at) else ok (max at now)
  first_of (cron expr tz) anchor now = next_after c (cron expr tz) anchor now >>= or_err never_fires
  first_of (interval seconds) anchor now =
      next_after c (interval seconds) anchor now >>= or_err never_fires

  unfoldable pub first_trigger : ScheduleKind → (anchor now : ℕ) → Result ℕ
  first_trigger kind anchor now = validate c kind >>= λ valid. first_of kind anchor now

  unfoldable pub create :
      (id : String) → NewSchedule → (created_by : Option String) (now : ℕ) → Result Schedule
  create id new created_by now = do
    next ← first_trigger new.kind now now
    ok (record {
      id = id;
      project = new.project;
      agent = new.agent;
      account_id = new.account;
      computer_id = new.computer;
      cwd = new.cwd;
      prompt = new.prompt;
      kind = new.kind;
      target = new.target;
      paused = new.paused;
      catch_up = new.catch_up;
      next_run_at = unless_paused new.paused next;
      last_run_at = none;
      created_by_session = created_by;
      created_at = now;
      updated_at = now;
      anchor_at = now;
    })

  -- The kind, the anchor and the next trigger of the updated row.
  unfoldable pub update_kind :
      Option ScheduleKind → (now : ℕ) → (current : Schedule) → Result (ScheduleKind × ℕ × Option ℕ)
  update_kind none now current = ok (current.kind, current.anchor_at, current.next_run_at)
  update_kind (some kind) now current = do
    next ← first_trigger kind now now
    ok (kind, now, unless_paused current.paused next)

  unfoldable pub update : SchedulePatch → (now : ℕ) → (current row : Schedule) → Result Schedule
  update patch now current row = if is_blank patch.prompt then err empty_prompt else do
    timing ← update_kind patch.kind now current
    ok (record row {
      prompt = unwrap_or row.prompt patch.prompt;
      kind = timing.0;
      catch_up = unwrap_or row.catch_up patch.catch_up;
      anchor_at = timing.1;
      next_run_at = timing.2;
      updated_at = now;
    })

  unfoldable pub resumed_next : ScheduleKind → Option ℕ → (now : ℕ) → Result (Option ℕ)
  resumed_next (once at) last_run_at now =
      ok (if is_none last_run_at && leb (now - grace_ms) at then some (max at now) else none)
  resumed_next (cron expr tz) last_run_at now = next_after c (cron expr tz) now now
  resumed_next (interval seconds) last_run_at now = next_after c (interval seconds) now now

  unfoldable pub resume : (now : ℕ) → (s row : Schedule) → Result Schedule
  resume now s row = do
    next ← resumed_next s.kind s.last_run_at now
    ok (record row { paused = false; anchor_at = now; next_run_at = next; updated_at = now })

unfoldable pub pause : (now : ℕ) → (row : Schedule) → Schedule
pause now row = record row { paused = true; next_run_at = none; updated_at = now }

-- The filter of `due`.
unfoldable pub is_due : (now : ℕ) → Schedule → Bool
is_due now s = not s.paused && elim s.next_run_at [ none ↦ false | some t ↦ leb t now ]

-- The triggers that get a `missed` row, of the recent ones.
unfoldable pub missed_times : (run_at : Option ℕ) → List ℕ → List ℕ
missed_times run_at recent =
    let times = if is_none run_at then recent else without_last recent in
    drop (length times - max_missed_rows) times

unfoldable pub missed_of : (run_at : Option ℕ) → Due → Missed
missed_of run_at due =
    let count = due.count - (if is_none run_at then 0 else 1) in
    let times = missed_times run_at due.recent in
    if count == 0
    then record { count = 0; times = []; last_missed = due.first }
    else record { count = count; times = times; last_missed = last_or due.first times }

unfoldable pub run_time : (catch_up : Bool) (now latest : ℕ) → Option ℕ
run_time catch_up now latest =
    if leb (now - latest) grace_ms then some latest else if catch_up then some latest else none

abbrev pub coalesce {ℓ} : {A : Type ℓ} → Option A → Option A → Option A
coalesce none b = b
coalesce (some a) b = some a

-- `plan`: the row afterwards, the triggers missed, and the one to run.
module _ {Z X D L : Type 0} (c : Calendar Z X D L) where
  unfoldable pub plan :
      (s : Schedule) → (now : ℕ) → (row : Schedule) → Result (Schedule × Missed × Option ℕ)
  plan s now row = do
    first ← or_err no_trigger s.next_run_at
    due ← occurrences_between c s.kind s.anchor_at now (max_missed_rows + 1) first
    next ← next_after c s.kind s.anchor_at now
    let run_at = run_time s.catch_up now due.latest
    ok (
      record row { next_run_at = next; last_run_at = coalesce run_at row.last_run_at },
      missed_of run_at due,
      run_at,
    )
