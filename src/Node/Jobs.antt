-- ===== src/Node/Jobs.antt =====
-- ember/node/src/jobs.rs with its types of proto.rs: background jobs and the log of events that a
-- server replays. The job map and the log are behind locks, so each operation is one step; a
-- broadcast is the list of what was sent. Bytes are numbers, a text is the list of its scalar
-- values, an exit code or a signal is the `u32` with the bits of the `i32`. Spawning a process,
-- signalling it and the clock are outside: their results are arguments. `lossy` stands for
-- `String::from_utf8_lossy`, and `T` for `TermInfo`.
pub mod Log
pub mod Runs
pub mod Output
pub mod Tails
pub mod Remove
pub mod Cut
mod Tests
use darkpyonix_ember.Base.{
  ℕ, zero, suc, ◌+◌, ◌-◌, ◌%◌, ◌^◌, Bool, true, false, ◌||◌, ◌&&◌, Option, none, some, List, [],
  ◌∷◌, ◌++◌, map, length, drop, keep, find, put, erase, ltb, leb, ◌==◌, if◌then◌else◌, ◌⊎◌, inl,
  inr, string_Eq,
}
use darkpyonix_ember.Editor.Coords.{len_utf8, utf8_size}
use Prim.Native.String.{String}

abbrev pub tail_bytes : ℕ
tail_bytes = 262_144

abbrev pub event_history : ℕ
event_history = 1_024

pub data Program : Type 0 where
  argv : List String → Program
  shell : String → Program

pub data JobState : Type 0 where
  running exited signaled : JobState

pub record JobInfo : Type 0 where
  pub id : String
  pub label : Option String
  pub program : Program
  pub cwd : String
  pub pid : Option ℕ
  pub state : JobState
  pub exit_code : Option ℕ
  pub signal : Option ℕ
  pub started_ms : ℕ
  pub finished_ms : Option ℕ
  pub output_bytes : ℕ

pub record Job : Type 0 where
  pub info : JobInfo
  pub tail : List ℕ

pub record JobDetail : Type 0 where
  pub info : JobInfo
  pub tail : List ℕ

-- A message is its UTF-8 bytes.
pub data ExecEvent : Type 0 where
  started : (pid : ℕ) → ExecEvent
  stdout stderr : (data' : List ℕ) → ExecEvent
  exit : (code signal : Option ℕ) → ExecEvent
  error : (message : List ℕ) → ExecEvent

pub data NodeEventKind (T : Type 0) : Type 0 where
  job_started : JobInfo → NodeEventKind T
  job_finished : JobInfo → (tail : List ℕ) → NodeEventKind T
  term_started term_finished : T → NodeEventKind T

pub record NodeEvent (T : Type 0) : Type 0 where
  pub seq : ℕ
  pub boot_id : String
  pub kind : NodeEventKind T

pub record EventLog (T : Type 0) : Type 0 where
  pub next_seq : ℕ
  pub history : List (NodeEvent T)

pub data Removal : Type 0 where
  removed still_running unknown : Removal

pub record Jobs (T : Type 0) : Type 0 where
  pub boot_id : String
  pub jobs : List (String × Job)
  pub log : EventLog T

module _ {T : Type 0} where
  abbrev pub new : String → Jobs T
  new boot_id = record { boot_id = boot_id; jobs = []; log = record { next_seq = 1; history = [] } }

  -- `push_back`, and `pop_front` past the limit.
  unfoldable pub push_event : List (NodeEvent T) → NodeEvent T → List (NodeEvent T)
  push_event history ev =
      let longer = history ++ ev ∷ [] in
      if ltb event_history (length longer) then drop 1 longer else longer

  -- The counter is a `u64`. The event is what is broadcast.
  unfoldable pub emit : NodeEventKind T → Jobs T → Jobs T × NodeEvent T
  emit kind j =
      let ev : NodeEvent T = record { seq = j.log.next_seq; boot_id = j.boot_id; kind = kind } in
      (
        record j {
          log = record {
            next_seq = (j.log.next_seq + 1) % (2 ^ 64);
            history = push_event j.log.history ev;
          };
        },
        ev,
      )

  -- The backlog; the receiver that goes with it gets every later broadcast.
  unfoldable pub subscribe : ℕ → Jobs T → List (NodeEvent T)
  subscribe after j = keep (λ e. ltb after e.seq) j.log.history

  -- `start` up to the reader task, with what spawning gave: an error or the process id.
  unfoldable pub start :
      (spawned : String ⊎ ℕ) (id : String) (label : Option String)
      → Program
      → (cwd : String) (now : ℕ) → Jobs T
      → String ⊎ (JobInfo × Jobs T × NodeEvent T)
  start (inl e) id label program cwd now j = inl e
  start (inr pid) id label program cwd now j =
      let info : JobInfo = record {
        id = id;
        label = label;
        program = program;
        cwd = cwd;
        pid = some pid;
        state = running;
        exit_code = none;
        signal = none;
        started_ms = now;
        finished_ms = none;
        output_bytes = 0;
      } in
      let entry : Job = record { info = info; tail = [] } in
      let (j', ev) = emit (job_started info) (record j { jobs = put id entry j.jobs }) in
      inr (info, j', ev)

-- The newest bytes, `tail_bytes` at most.
unfoldable pub trim : List ℕ → List ℕ
trim tail = drop (length tail - tail_bytes) tail

unfoldable pub on_output : List ℕ → Job → Job
on_output chunk job = record {
  info = record job.info { output_bytes = (job.info.output_bytes + length chunk) % (2 ^ 64) };
  tail = trim (job.tail ++ chunk);
}

abbrev pub finished_state : Option ℕ → JobState
finished_state none = exited
finished_state (some signal) = signaled

unfoldable pub on_exit : (code signal : Option ℕ) (now : ℕ) → Job → Job
on_exit code signal now job = record job {
  info = record job.info {
    state = finished_state signal;
    exit_code = code;
    signal = signal;
    finished_ms = some now;
    pid = none;
  };
}

-- "\n[ember-node] {message}\n" in bytes.
unfoldable pub error_line : List ℕ → List ℕ
error_line message =
    (10 ∷ 91 ∷ 101 ∷ 109 ∷ 98 ∷ 101 ∷ 114 ∷ 45 ∷ 110 ∷ 111 ∷ 100 ∷ 101 ∷ 93 ∷ 32 ∷ [])
    ++ (message ++ 10 ∷ [])

unfoldable pub on_error : List ℕ → Job → Job
on_error message job = record job { tail = job.tail ++ error_line message }

module _ (lossy : List ℕ → List ℕ) {T : Type 0} where
  -- One turn of the reader task on a job of the map: the state, what is sent, and whether the task
  -- goes on.
  unfoldable pub on_event :
      (now : ℕ) (id : String) → ExecEvent → Job → Jobs T → Jobs T × List (NodeEvent T) × Bool
  on_event now id (stdout chunk) job j =
      (record j { jobs = put id (on_output chunk job) j.jobs }, [], true)
  on_event now id (stderr chunk) job j =
      (record j { jobs = put id (on_output chunk job) j.jobs }, [], true)
  on_event now id (exit code signal) job j =
      let done = on_exit code signal now job in
      let (j', ev) =
        emit (job_finished done.info (lossy done.tail)) (record j { jobs = put id done j.jobs }) in
      (j', ev ∷ [], false)
  on_event now id (error message) job j =
      (record j { jobs = put id (on_error message job) j.jobs }, [], true)
  on_event now id (started pid) job j = (j, [], true)

  unfoldable pub read_event :
      (now : ℕ) (id : String) → ExecEvent → Jobs T → Jobs T × List (NodeEvent T) × Bool
  read_event now id ev j = elim (find id j.jobs) [
    | none ↦ (j, [], true)
    | some job ↦ on_event now id ev job j
  ]

  -- The reader task on a whole stream of events, with nothing in between.
  unfoldable pub read_all :
      (now : ℕ) (id : String) → List ExecEvent → Jobs T → Jobs T × List (NodeEvent T)
  read_all now id [] j = (j, [])
  read_all now id (ev ∷ evs) j =
      let (j', sent, goes_on) = read_event now id ev j in
      let rest = read_all now id evs j' in if goes_on then (rest.0, sent ++ rest.1) else (j', sent)

-- `str::is_char_boundary`.
unfoldable pub is_char_boundary : List ℕ → ℕ → Bool
is_char_boundary [] cut = cut == 0
is_char_boundary (c ∷ cs) cut =
    cut == 0 || (leb (len_utf8 c) cut && is_char_boundary cs (cut - len_utf8 c))

-- The loop `while !tail.is_char_boundary(cut)`, with fuel.
unfoldable pub next_boundary : (fuel : ℕ) → List ℕ → ℕ → ℕ
next_boundary zero tail cut = cut
next_boundary (suc fuel) tail cut =
    let rest = next_boundary fuel tail (cut + 1) in if is_char_boundary tail cut then cut else rest

-- `tail[cut..]`, at a boundary.
unfoldable pub slice_from : List ℕ → ℕ → List ℕ
slice_from [] cut = []
slice_from (c ∷ cs) zero = c ∷ cs
slice_from (c ∷ cs) (suc cut) = slice_from cs (suc cut - len_utf8 c)

-- At most `n` bytes of the text. A boundary is met within its length.
unfoldable pub cut_tail : ℕ → List ℕ → List ℕ
unfolding utf8_size next_boundary slice_from is_char_boundary
cut_tail n tail =
    if ltb n (utf8_size tail)
    then slice_from tail (next_boundary (utf8_size tail) tail (utf8_size tail - n))
    else tail

abbrev pub cut_if : Option ℕ → List ℕ → List ℕ
cut_if none tail = tail
cut_if (some n) tail = cut_tail n tail

-- Stable, as `sort_by_key`.
unfoldable pub insert_by_start : JobInfo → List JobInfo → List JobInfo
insert_by_start x [] = x ∷ []
insert_by_start x (y ∷ ys) =
    if leb x.started_ms y.started_ms then x ∷ y ∷ ys else y ∷ insert_by_start x ys

unfoldable pub sort_by_start : List JobInfo → List JobInfo
sort_by_start [] = []
sort_by_start (x ∷ xs) = insert_by_start x (sort_by_start xs)

abbrev pub job_info : String × Job → JobInfo
job_info (id, job) = job.info

-- The process group and the signal of `kill_group`; 15 is `SIGTERM`.
abbrev pub signalled : Option ℕ → Option ℕ → Option (ℕ × ℕ)
signalled none signal = none
signalled (some pid) none = some (pid, 15)
signalled (some pid) (some signal) = some (pid, signal)

abbrev pub is_running : JobState → Bool
is_running running = true
is_running exited = false
is_running signaled = false

module _ {T : Type 0} where
  unfoldable pub list : Jobs T → List JobInfo
  list j = sort_by_start (map job_info j.jobs)

  unfoldable pub get : (lossy : List ℕ → List ℕ) → String → Option ℕ → Jobs T → Option JobDetail
  get lossy id n j = elim (find id j.jobs) [
    | none ↦ none
    | some job ↦ some (record { info = job.info; tail = cut_if n (lossy job.tail) })
  ]

  -- Whether the job is known, and the process group and signal of the call of `kill_group`.
  unfoldable pub kill : String → Option ℕ → Jobs T → Bool × Option (ℕ × ℕ)
  kill id signal j = elim (find id j.jobs) [
    | none ↦ (false, none)
    | some job ↦ (true, signalled job.info.pid signal)
  ]

  unfoldable pub remove : String → Jobs T → Jobs T × Removal
  remove id j = elim (find id j.jobs) [
    | none ↦ (j, unknown)
    | some job ↦
        if is_running job.info.state
        then (j, still_running)
        else (record j { jobs = erase id j.jobs }, removed)
  ]
