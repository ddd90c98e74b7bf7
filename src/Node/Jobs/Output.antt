-- ===== src/Node/Jobs/Output.antt =====
-- A job from its output to its end: the tail is the newest part of all that was written.
use darkpyonix_ember.Base.{
  ℕ, ◌+◌, ◌-◌, ◌%◌, ◌^◌, length-newest, ◌≤◌, ◌<◌, ◌≡◌, refl, sym, ap, ap₂, ◌∙◌, Option, none, some,
  List, [], ◌∷◌, ◌++◌, append_assoc, append-nil, All, length, drop, find, put, arith, length-append,
  string_Eq, newest, newest-append, find-put, beq_self,
}
use darkpyonix_ember.Node.Jobs.{
  EventLog, ExecEvent, NodeEvent, Jobs, Job, tail_bytes, trim, on_output, on_exit, on_event,
  read_event, read_all, emit, job_finished, started, stdout, stderr, exit, error, finished_state,
}
use Prim.Native.String.{String}

unfoldable pub bytes_of : ExecEvent → List ℕ
bytes_of (stdout chunk) = chunk
bytes_of (stderr chunk) = chunk
bytes_of (started pid) = []
bytes_of (exit code signal) = []
bytes_of (error message) = []

unfoldable pub output : List ExecEvent → List ℕ
unfolding bytes_of
output [] = []
output (ev ∷ evs) = bytes_of ev ++ output evs

-- Not the end of the process.
unfoldable pub GoesOn : ExecEvent → Type 0
GoesOn (stdout chunk) = Unit {0}
GoesOn (stderr chunk) = Unit {0}
GoesOn (started pid) = Unit {0}
GoesOn (exit code signal) = ⊥
GoesOn (error message) = ⊥

-- Chunks in sequence are one chunk.
on_output-on_output :
    (xs ys : List ℕ) (job : Job) → on_output ys (on_output xs job) ≡ on_output (xs ++ ys) job
unfolding on_output trim
on_output-on_output xs ys job =
    ap₂ (λ n t. record { info = record job.info { output_bytes = n }; tail = t })
      (omega (arith, length-append xs ys))
      (newest-append tail_bytes (job.tail ++ xs) ys
        ∙ ap (newest tail_bytes) (append_assoc job.tail xs ys))

on_output-nil :
    (job : Job)
    → length job.tail ≤ tail_bytes
    → job.info.output_bytes < 2 ^ 64
    → on_output [] job ≡ job
unfolding on_output trim
on_output-nil job short fits =
    ap₂ (λ n t. record { info = record job.info { output_bytes = n }; tail = t }) (omega arith)
      (rw (append-nil job.tail)
        (ap (λ k. drop k job.tail) {x = length job.tail - tail_bytes} {y = 0} (omega arith)))

known_put : (id : String) (job : Job) (m : List (String × Job)) → find id (put id job m) ≡ some job
known_put id job m = rw (find-put id id job m, beq_self id)

short_output : (xs : List ℕ) (job : Job) → length (on_output xs job).tail ≤ tail_bytes
unfolding on_output trim
short_output xs job = omega (arith, length-newest tail_bytes (job.tail ++ xs))

fits_output : (xs : List ℕ) (job : Job) → (on_output xs job).info.output_bytes < 2 ^ 64
unfolding on_output
fits_output xs job = omega arith

module _ (lossy : List ℕ → List ℕ) {T : Type 0} (now : ℕ) (id : String) where
  -- The reader task has gone from `j` over the events `evs`, and has still the events `rest`.
  record Gone (evs rest : List ExecEvent) (job : Job) (j : Jobs T) : Type 0 where
    state : Jobs T
    known : find id state.jobs ≡ some (on_output (output evs) job)
    same_log : state.log ≡ j.log
    same_boot : state.boot_id ≡ j.boot_id
    goes_on : read_all lossy now id (evs ++ rest) j ≡ read_all lossy now id rest state

  one_read :
      (ev : ExecEvent) (rest : List ExecEvent) {job : Job} {j : Jobs T}
      → GoesOn ev
      → find id j.jobs ≡ some job
      → length job.tail ≤ tail_bytes
      → job.info.output_bytes < 2 ^ 64
      → Gone (ev ∷ []) rest job j
  unfolding read_all read_event on_event output GoesOn
  one_read (stdout chunk) rest {job} {j} h found short fits = record {
    state = record j { jobs = put id (on_output chunk job) j.jobs };
    known = rw (append-nil chunk) (known_put id (on_output chunk job) j.jobs);
    same_log = refl;
    same_boot = refl;
    goes_on = rw (found, read_event);
  }
  one_read (stderr chunk) rest {job} {j} h found short fits = record {
    state = record j { jobs = put id (on_output chunk job) j.jobs };
    known = rw (append-nil chunk) (known_put id (on_output chunk job) j.jobs);
    same_log = refl;
    same_boot = refl;
    goes_on = rw (found, read_event);
  }
  one_read (started pid) rest {job} {j} h found short fits = record {
    state = j;
    known = found ∙ ap some (sym (on_output-nil job short fits));
    same_log = refl;
    same_boot = refl;
    goes_on = rw (found, read_event);
  }
  one_read (exit code signal) rest h found short fits = elim h [ ]
  one_read (error message) rest h found short fits = elim h [ ]

  reads :
      (evs rest : List ExecEvent) {job : Job} {j : Jobs T}
      → All GoesOn evs
      → find id j.jobs ≡ some job
      → length job.tail ≤ tail_bytes
      → job.info.output_bytes < 2 ^ 64
      → Gone evs rest job j
  unfolding output
  reads [] rest {job} {j} h found short fits = record {
    state = j;
    known = found ∙ ap some (sym (on_output-nil job short fits));
    same_log = refl;
    same_boot = refl;
    goes_on = refl;
  }
  reads (ev ∷ evs) rest {job} {j} h found short fits =
      let one = one_read ev (evs ++ rest) {j = j} h.0 found short fits in
      let all =
        reads evs rest {j = one.state} h.1 one.known (short_output _ job) (fits_output _ job) in
      record {
        state = all.state;
        known =
            all.known
            ∙ ap some (
                on_output-on_output (bytes_of ev ++ []) (output evs) job
                ∙ ap (λ xs. on_output (xs ++ output evs) job) (append-nil (bytes_of ev)));
        same_log = all.same_log ∙ one.same_log;
        same_boot = all.same_boot ∙ one.same_boot;
        goes_on = one.goes_on ∙ all.goes_on;
      }

  read_exit :
      (code signal : Option ℕ) (rest : List ExecEvent) (job : Job) (j : Jobs T)
      → find id j.jobs ≡ some job
      → let done = on_exit code signal now job in
        let r = read_all lossy now id (exit code signal ∷ rest) j in
        (find id r.0.jobs ≡ some done)
        × (r.1
            ≡ record {
              seq = j.log.next_seq;
              boot_id = j.boot_id;
              kind = job_finished done.info (lossy done.tail);
            }
              ∷ [])
  unfolding read_all read_event on_event emit
  read_exit code signal rest job j found =
      rw (found, read_event, read_all) (known_put id (on_exit code signal now job) j.jobs, refl)

-- A job of the map, with a tail within the limit and a count that fits 64 bits, is read to its end:
-- output and start events, then an exit, then anything. It is then finished with that exit, its
-- tail is the newest 256 KiB of all output, the count has grown by all of it, and exactly one
-- event is sent, the next of the log, with the finished job and its decoded tail.
pub read_all-exit :
    (lossy : List ℕ → List ℕ) {T : Type 0} (now : ℕ) (id : String) (evs : List ExecEvent)
    (code signal : Option ℕ) (rest : List ExecEvent) (job : Job) (j : Jobs T)
    → All GoesOn evs
    → find id j.jobs ≡ some job
    → length job.tail ≤ tail_bytes
    → job.info.output_bytes < 2 ^ 64
    → let done : Job = record {
      info = record job.info {
        output_bytes = (job.info.output_bytes + length (output evs)) % (2 ^ 64);
        state = finished_state signal;
        exit_code = code;
        signal = signal;
        finished_ms = some now;
        pid = none;
      };
      tail = newest tail_bytes (job.tail ++ output evs);
    } in
      let r = read_all lossy now id (evs ++ exit code signal ∷ rest) j in
      (find id r.0.jobs ≡ some done)
      × (r.1
          ≡ record {
            seq = j.log.next_seq;
            boot_id = j.boot_id;
            kind = job_finished done.info (lossy done.tail);
          }
            ∷ [])
unfolding on_exit on_output trim
read_all-exit lossy {T} now id evs code signal rest job j h found short fits =
    let g =
      reads lossy now id evs (exit code signal ∷ rest) {job = job} {j = j} h found short fits in
    let r = read_exit lossy now id code signal rest _ g.state g.known in
    let done = on_exit code signal now (on_output (output evs) job) in
    let event : EventLog T → String → List (NodeEvent T) = λ l b.
      record { seq = l.next_seq; boot_id = b; kind = job_finished done.info (lossy done.tail) }
      ∷ [] in
    rw g.goes_on (r.0, r.1 ∙ ap₂ event g.same_log g.same_boot)
