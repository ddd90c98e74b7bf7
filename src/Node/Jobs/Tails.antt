-- ===== src/Node/Jobs/Tails.antt =====
-- What every job of the map satisfies in every run: the bound of its tail, and a state that agrees
-- with its process id, exit and end.
use darkpyonix_ember.Base.{
  ℕ, ◌≤◌, ◌≡◌, ◌≢◌, refl, sym, ◌∙◌, subst, Bool, true, false, Option, none, some, List, [], ◌∷◌,
  ◌++◌, All, length, find, put, erase, if◌then◌else◌, inl, inr, arith, string_Eq, find-put,
  find-erase, Option-cases, length-newest,
}
use darkpyonix_ember.Node.Jobs.{
  ExecEvent, Jobs, Job, JobState, Program, Removal, tail_bytes, trim, on_output, on_exit, on_error,
  on_event, read_event, emit, start, remove, new, started, stdout, stderr, exit, error, running,
  exited, signaled, is_running, finished_state, removed, still_running,
}
use darkpyonix_ember.Node.Jobs.Runs.{Command, start_job, read, remove_job, terminal, step, run}
use Prim.Native.String.{String}

module _ (P : Job → Type 0) where
  abbrev pub Each : List (String × Job) → Type 0
  Each m = (id : String) (job : Job) → find id m ≡ some job → P job

  put_if :
      (b : Bool) (m : List (String × Job)) (k : String) (new job : Job)
      → Each m
      → P new
      → (if b then some new else find k m) ≡ some job
      → P job
  put_if true m k new job all h e = subst P (cc) h
  put_if false m k new job all h e = all k job e

  Each-put :
      (id : String) (new : Job) (m : List (String × Job)) → Each m → P new → Each (put id new m)
  Each-put id new m all h k job e =
      put_if (string_Eq.beq id k) m k new job all h (sym (find-put k id new m) ∙ e)

  erase_if :
      (b : Bool) (m : List (String × Job)) (k : String) (job : Job)
      → Each m
      → (if b then none else find k m) ≡ some job
      → P job
  erase_if true m k job all e = absurd cc
  erase_if false m k job all e = all k job e

  Each-erase : (id : String) (m : List (String × Job)) → Each m → Each (erase id m)
  Each-erase id m all k job e =
      erase_if (string_Eq.beq id k) m k job all (sym (find-erase k id m) ∙ e)

  -- The property holds of a job that starts, and output, an exit and an error of the allowed ones
  -- keep it.
  pub record Lasts (Allowed : List ℕ → Type 0) : Type 0 where
    pub on_start :
        (id : String) (label : Option String) (program : Program) (cwd : String) (pid now : ℕ)
        → P (record {
          info = record {
            id = id;
            label = label;
            program = program;
            cwd = cwd;
            pid = some pid;
            state = running;
            exit_code = none;
            signal = none;
            started_ms = now;
            finished_ms = none;
            output_bytes = 0;
          };
          tail = [];
        })
    pub on_out : (chunk : List ℕ) (job : Job) → P job → P (on_output chunk job)
    pub on_end :
        (code signal : Option ℕ) (now : ℕ) (job : Job) → P job → P (on_exit code signal now job)
    pub on_err : (message : List ℕ) (job : Job) → Allowed message → P job → P (on_error message job)

-- The messages of the errors that the command reads satisfy `Allowed`.
unfoldable pub Reads : {T : Type 0} → (List ℕ → Type 0) → Command T → Type 0
Reads Allowed (read now id (error message)) = Allowed message
Reads Allowed (read now id (exit code signal)) = Unit {0}
Reads Allowed (read now id (stdout chunk)) = Unit {0}
Reads Allowed (read now id (stderr chunk)) = Unit {0}
Reads Allowed (read now id (started pid)) = Unit {0}
Reads Allowed (start_job spawned id label program cwd now) = Unit {0}
Reads Allowed (remove_job id) = Unit {0}
Reads Allowed (terminal kind) = Unit {0}

module _ {P : Job → Type 0} {Allowed : List ℕ → Type 0} (kept : Lasts P Allowed)
    (lossy : List ℕ → List ℕ) {T : Type 0} where
  event-Each :
      (now : ℕ) (id : String) (ev : ExecEvent) (job : Job) (j : Jobs T)
      → Reads {T = T} Allowed (read now id ev)
      → P job
      → Each P j.jobs
      → Each P (on_event lossy now id ev job j).0.jobs
  unfolding on_event emit Reads
  event-Each now id (stdout chunk) job j ok h all =
      Each-put P id _ j.jobs all (kept.on_out chunk job h)
  event-Each now id (stderr chunk) job j ok h all =
      Each-put P id _ j.jobs all (kept.on_out chunk job h)
  event-Each now id (exit code signal) job j ok h all =
      Each-put P id _ j.jobs all (kept.on_end code signal now job h)
  event-Each now id (error message) job j ok h all =
      Each-put P id _ j.jobs all (kept.on_err message job ok h)
  event-Each now id (started pid) job j ok h all = all

  remove_if-Each :
      (b : Bool) (id : String) (j : Jobs T)
      → Each P j.jobs
      → Each P
          (let r : Jobs T × Removal =
              if b then (j, still_running) else (record j { jobs = erase id j.jobs }, removed) in
            r.0).jobs
  remove_if-Each true id j all = all
  remove_if-Each false id j all = Each-erase P id j.jobs all

  step-Each :
      (c : Command T) (j : Jobs T)
      → Reads Allowed c
      → Each P j.jobs
      → Each P (step lossy c j).0.jobs
  unfolding step start emit read_event remove
  step-Each (start_job (inl e) id label program cwd now) j ok all = all
  step-Each (start_job (inr pid) id label program cwd now) j ok all =
      Each-put P id _ j.jobs all (kept.on_start id label program cwd pid now)
  step-Each (read now id ev) j ok all = elim (Option-cases (find id j.jobs)) [
    | inl missing ↦ rw (missing, read_event) all
    | inr (job, known) ↦
        rw (known, read_event) (event-Each now id ev job j ok (all id job known) all)
  ]
  step-Each (remove_job id) j ok all = elim (Option-cases (find id j.jobs)) [
    | inl missing ↦ rw (missing, remove) all
    | inr (job, known) ↦ rw (known, remove) (remove_if-Each (is_running job.info.state) id j all)
  ]
  step-Each (terminal kind) j ok all = all

  pub run-Each :
      (cs : List (Command T)) (j : Jobs T)
      → All (Reads Allowed) cs
      → Each P j.jobs
      → Each P (run lossy cs j).0.jobs
  unfolding run
  run-Each [] j ok all = all
  run-Each (c ∷ cs) j ok all = run-Each cs (step lossy c j).0 ok.1 (step-Each c j ok.0 all)

-- The tail is within the limit.
abbrev pub Short : Job → Type 0
Short job = length job.tail ≤ tail_bytes

Short-Lasts : Lasts Short (λ message. ⊥)
unfolding on_output on_exit trim
Short-Lasts = record {
  on_start = λ id label program cwd pid now. omega arith;
  on_out = λ chunk job h. omega (arith, length-newest tail_bytes (job.tail ++ chunk));
  on_end = λ code signal now job h. h;
  on_err = λ message job never h. elim never [ ];
}

-- A state with the process id, the exit code, the signal and the end that go with it.
unfoldable pub Agrees : JobState → (pid code signal finished : Option ℕ) → Type 0
Agrees running pid code signal finished =
    (pid ≢ none) × (code ≡ none) × (signal ≡ none) × (finished ≡ none)
Agrees exited pid code signal finished = (pid ≡ none) × (signal ≡ none) × (finished ≢ none)
Agrees signaled pid code signal finished = (pid ≡ none) × (signal ≢ none) × (finished ≢ none)

abbrev pub IsValid : Job → Type 0
IsValid job =
    Agrees job.info.state job.info.pid job.info.exit_code job.info.signal job.info.finished_ms

end_Agrees :
    (code signal : Option ℕ) (now : ℕ) → Agrees (finished_state signal) none code signal (some now)
unfolding Agrees
end_Agrees code none now = (refl, refl, λ e. cc)
end_Agrees code (some n) now = (refl, λ e. cc, λ e. cc)

IsValid-Lasts : Lasts IsValid (λ message. Unit {0})
unfolding on_output on_exit on_error Agrees
IsValid-Lasts = record {
  on_start = λ id label program cwd pid now. (λ e. cc, refl, refl, refl);
  on_out = λ chunk job h. h;
  on_end = λ code signal now job h. end_Agrees code signal now;
  on_err = λ message job fine h. h;
}

nothing-Each : (P : Job → Type 0) → Each P []
nothing-Each P id job e = absurd cc

-- After every run of a new daemon in which no reader task reads an error, no job has kept more than
-- 256 KiB of output.
pub run-Short :
    (lossy : List ℕ → List ℕ) {T : Type 0} (boot : String) (cs : List (Command T)) (id : String)
    (job : Job)
    → All (Reads (λ message. ⊥)) cs
    → find id (run lossy cs (new boot)).0.jobs ≡ some job
    → length job.tail ≤ tail_bytes
run-Short lossy boot cs id job quiet known =
    run-Each Short-Lasts lossy cs (new boot) quiet (nothing-Each Short) id job known

module _ {T : Type 0} where
  any-Reads : (c : Command T) → Reads (λ message. Unit {0}) c
  unfolding Reads
  any-Reads (read now id (error message)) = tt
  any-Reads (read now id (exit code signal)) = tt
  any-Reads (read now id (stdout chunk)) = tt
  any-Reads (read now id (stderr chunk)) = tt
  any-Reads (read now id (started pid)) = tt
  any-Reads (start_job spawned id label program cwd now) = tt
  any-Reads (remove_job id) = tt
  any-Reads (terminal kind) = tt

  All-Reads : (cs : List (Command T)) → All (Reads (λ message. Unit {0})) cs
  All-Reads [] = tt
  All-Reads (c ∷ cs) = (any-Reads c, All-Reads cs)

-- After every run of a new daemon each job is consistent: while it runs it has a process id, and no
-- exit code, signal or end; once it has exited or was signaled it has no process id and has an
-- end, and it has a signal exactly where its state says so.
pub run-IsValid :
    (lossy : List ℕ → List ℕ) {T : Type 0} (boot : String) (cs : List (Command T)) (id : String)
    (job : Job)
    → find id (run lossy cs (new boot)).0.jobs ≡ some job
    → IsValid job
run-IsValid lossy boot cs id job known =
    run-Each IsValid-Lasts lossy cs (new boot) (All-Reads cs) (nothing-Each IsValid) id job known
