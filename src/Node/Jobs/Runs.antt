-- ===== src/Node/Jobs/Runs.antt =====
-- Runs of the daemon: any sequence of calls and of turns of the reader tasks.
use darkpyonix_ember.Base.{
  ℕ, ◌+◌, ◌^◌, ◌≤◌, ◌<◌, ◌≡◌, sym, ap, ◌∙◌, Bool, true, false, Option, List, [], ◌∷◌, ◌++◌,
  append-nil, append_assoc, length, drop, find, erase, if◌then◌else◌, ◌⊎◌, inl, inr, arith,
  length-append, string_Eq, newest, Option-cases,
}
use darkpyonix_ember.Node.Jobs.{
  ExecEvent, NodeEvent, NodeEventKind, Jobs, Job, JobInfo, Program, Removal, event_history, emit,
  start, read_event, on_event, remove, subscribe, new, started, stdout, stderr, exit, error,
  is_running, removed, still_running,
}
use darkpyonix_ember.Node.Jobs.Log.{
  Logged, numbered, length-numbered, new-Logged, emit-Logged, emit-numbered, subscribe-Logged,
}
use Prim.Native.String.{String}

-- One step of the daemon: a call of `start` that goes on once the process is spawned or not, a turn
-- of a reader task, a call of `remove`, or an event of the terminals.
pub data Command (T : Type 0) : Type 0 where
  start_job :
      (spawned : String ⊎ ℕ) (id : String) (label : Option String)
      → Program
      → (cwd : String) (now : ℕ) → Command T
  read : (now : ℕ) (id : String) → ExecEvent → Command T
  remove_job : (id : String) → Command T
  terminal : NodeEventKind T → Command T

module _ {T : Type 0} where
  abbrev pub started_of :
      Jobs T → String ⊎ (JobInfo × Jobs T × NodeEvent T) → Jobs T × List (NodeEvent T)
  started_of j (inl e) = (j, [])
  started_of j (inr (info, j', ev)) = (j', ev ∷ [])

module _ (lossy : List ℕ → List ℕ) {T : Type 0} where
  unfoldable pub step : Command T → Jobs T → Jobs T × List (NodeEvent T)
  step (start_job spawned id label program cwd now) j =
      started_of j (start spawned id label program cwd now j)
  step (read now id ev) j = let (j', sent, goes_on) = read_event lossy now id ev j in (j', sent)
  step (remove_job id) j = ((remove id j).0, [])
  step (terminal kind) j = let (j', ev) = emit kind j in (j', ev ∷ [])

  unfoldable pub run : List (Command T) → Jobs T → Jobs T × List (NodeEvent T)
  run [] j = (j, [])
  run (c ∷ cs) j = let (j', sent) = step c j in let (j'', later) = run cs j' in (j'', sent ++ later)

module _ {T : Type 0} where
  with_jobs :
      {boot : String} {kinds : List (NodeEventKind T)} {j : Jobs T} (m : List (String × Job))
      → Logged boot kinds j
      → Logged boot kinds (record j { jobs = m })
  with_jobs m l = record { same_boot = l.same_boot; counted = l.counted; kept = l.kept }

  -- The daemon that had broadcast events of `kinds` has gone on and sent more of them.
  record Grown (boot : String) (kinds : List (NodeEventKind T)) (j : Jobs T)
      (sent : List (NodeEvent T)) : Type 0 where
    more : List (NodeEventKind T)
    logged : Logged boot (kinds ++ more) j
    sent_next : numbered boot 1 kinds ++ sent ≡ numbered boot 1 (kinds ++ more)

  quiet :
      {boot : String} {kinds : List (NodeEventKind T)} {j : Jobs T}
      → Logged boot kinds j
      → Grown boot kinds j []
  quiet {boot} {kinds} {j} l = record {
    more = [];
    logged = rw (append-nil kinds) l;
    sent_next = append-nil _ ∙ ap (numbered boot 1) (sym (append-nil kinds));
  }

  emits :
      {boot : String} {kinds : List (NodeEventKind T)} (k : NodeEventKind T) {j : Jobs T}
      → Logged boot kinds j
      → length kinds + 2 < 2 ^ 64
      → Grown boot kinds (emit k j).0 ((emit k j).1 ∷ [])
  emits k {j} l room = record {
    more = k ∷ [];
    logged = emit-Logged k j l room;
    sent_next = emit-numbered k j l;
  }

  length-more :
      {boot : String} {kinds : List (NodeEventKind T)} {j : Jobs T} {sent : List (NodeEvent T)}
      → (g : Grown boot kinds j sent) → length (kinds ++ g.more) ≡ length kinds + length sent
  length-more {boot} {kinds} {j} {sent} g = omega (
    arith,
    ap length g.sent_next,
    length-append (numbered boot 1 kinds) sent,
    length-numbered boot 1 kinds,
    length-numbered boot 1 (kinds ++ g.more),
  )

  then_more :
      {boot : String} {kinds : List (NodeEventKind T)} {j j' : Jobs T}
      {sent later : List (NodeEvent T)} (g : Grown boot kinds j sent)
      → Grown boot (kinds ++ g.more) j' later
      → Grown boot kinds j' (sent ++ later)
  then_more {boot} {kinds} {sent = sent} {later} g h = record {
    more = g.more ++ h.more;
    logged = rw (sym (append_assoc kinds g.more h.more)) h.logged;
    sent_next =
        sym (append_assoc (numbered boot 1 kinds) sent later)
        ∙ (ap (λ xs. xs ++ later) g.sent_next
            ∙ (h.sent_next ∙ ap (numbered boot 1) (append_assoc kinds g.more h.more)));
  }

module _ (lossy : List ℕ → List ℕ) {T : Type 0} {boot : String}
    {kinds : List (NodeEventKind T)} where
  on_event-Grown :
      (now : ℕ) (id : String) (ev : ExecEvent) (job : Job) (j : Jobs T)
      → Logged boot kinds j
      → length kinds + length (on_event lossy now id ev job j).1 + 1 < 2 ^ 64
      → Grown boot kinds (on_event lossy now id ev job j).0 (on_event lossy now id ev job j).1
  unfolding on_event
  on_event-Grown now id (stdout chunk) job j l room = quiet (with_jobs _ l)
  on_event-Grown now id (stderr chunk) job j l room = quiet (with_jobs _ l)
  on_event-Grown now id (exit code signal) job j l room = emits _ (with_jobs _ l) (omega arith)
  on_event-Grown now id (error message) job j l room = quiet (with_jobs _ l)
  on_event-Grown now id (started pid) job j l room = quiet l

  read_event-Grown :
      (now : ℕ) (id : String) (ev : ExecEvent) (j : Jobs T)
      → Logged boot kinds j
      → length kinds + length (read_event lossy now id ev j).1 + 1 < 2 ^ 64
      → Grown boot kinds (read_event lossy now id ev j).0 (read_event lossy now id ev j).1
  unfolding read_event
  read_event-Grown now id ev j l room = elim (Option-cases (find id j.jobs)) [
    | inl missing ↦ rw (missing, read_event) (quiet l)
    | inr (job, known) ↦
        rw (known, read_event) (on_event-Grown now id ev job j l (rw (known, read_event) at room))
  ]

  remove_if :
      (b : Bool) (id : String) {j : Jobs T}
      → Logged boot kinds j
      → Grown boot kinds
          (let r : Jobs T × Removal =
              if b then (j, still_running) else (record j { jobs = erase id j.jobs }, removed) in
            r.0)
          []
  remove_if true id l = quiet l
  remove_if false id l = quiet (with_jobs _ l)

  remove-Grown :
      (id : String) (j : Jobs T) → Logged boot kinds j → Grown boot kinds (remove id j).0 []
  unfolding remove
  remove-Grown id j l = elim (Option-cases (find id j.jobs)) [
    | inl missing ↦ rw (missing, remove) (quiet l)
    | inr (job, known) ↦ rw (known, remove) (remove_if (is_running job.info.state) id l)
  ]

  step-Grown :
      (c : Command T) (j : Jobs T)
      → Logged boot kinds j
      → length kinds + length (step lossy c j).1 + 1 < 2 ^ 64
      → Grown boot kinds (step lossy c j).0 (step lossy c j).1
  unfolding step start
  step-Grown (start_job (inl e) id label program cwd now) j l room = quiet l
  step-Grown (start_job (inr pid) id label program cwd now) j l room =
      emits _ (with_jobs _ l) (omega arith)
  step-Grown (read now id ev) j l room = read_event-Grown now id ev j l room
  step-Grown (remove_job id) j l room = remove-Grown id j l
  step-Grown (terminal kind) j l room = emits kind l (omega arith)

module _ (lossy : List ℕ → List ℕ) {T : Type 0} {boot : String} where
  run-Grown :
      (cs : List (Command T)) (j : Jobs T) {kinds : List (NodeEventKind T)}
      → Logged boot kinds j
      → length kinds + length (run lossy cs j).1 + 1 < 2 ^ 64
      → Grown boot kinds (run lossy cs j).0 (run lossy cs j).1
  unfolding run
  run-Grown [] j l room = quiet l
  run-Grown (c ∷ cs) j l room =
      let first = step lossy c j in
      let sizes = length-append first.1 (run lossy cs first.0).1 in
      let g = step-Grown lossy c j l (omega (arith, sizes)) in
      then_more g (run-Grown cs first.0 g.logged (omega (arith, sizes, length-more g)))

-- In every run of a daemon that has broadcast fewer than 2 ^ 64 - 1 events, the events broadcast are
-- numbered 1, 2, 3, … with the daemon's boot id, and a server that has seen the first `after` of
-- them, which are at most 1024 fewer than all, is handed exactly the later ones when it asks.
pub run-subscribe :
    (lossy : List ℕ → List ℕ) {T : Type 0} (boot : String) (cs : List (Command T)) (after : ℕ)
    → length (run lossy cs (new boot)).1 + 1 < 2 ^ 64
    → length (run lossy cs (new boot)).1 ≤ after + event_history
    → ((kinds : List (NodeEventKind T)) × ((run lossy cs (new boot)).1 ≡ numbered boot 1 kinds))
      × (subscribe after (run lossy cs (new boot)).0 ≡ drop after (run lossy cs (new boot)).1)
unfolding numbered
run-subscribe lossy boot cs after room near =
    let g = run-Grown lossy cs (new boot) (new-Logged boot) (omega (arith, room)) in
    (
      (g.more, g.sent_next),
      subscribe-Logged after _ g.logged (omega (arith, near, length-more g))
          ∙ ap (drop after) (sym g.sent_next),
    )

-- After every such run the history is the newest 1024 of the events broadcast, or all where there
-- are fewer.
pub run-history :
    (lossy : List ℕ → List ℕ) {T : Type 0} (boot : String) (cs : List (Command T))
    → length (run lossy cs (new boot)).1 + 1 < 2 ^ 64
    → (run lossy cs (new boot)).0.log.history ≡ newest event_history (run lossy cs (new boot)).1
unfolding numbered
run-history lossy boot cs room =
    let g = run-Grown lossy cs (new boot) (new-Logged boot) (omega (arith, room)) in
    g.logged.kept ∙ ap (newest event_history) (sym g.sent_next)
