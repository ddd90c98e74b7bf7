-- ===== src/Node/Jobs/Tests.antt =====
-- A job that starts, writes and ends, on concrete inputs. Decoding is the identity here, and a
-- terminal is a number.
use darkpyonix_ember.Base.{
  ℕ, ◌+◌, ◌≤◌, ◌≡◌, refl, true, none, some, List, [], ◌∷◌, ◌++◌, length, drop, find, min, inr,
  arith, string_Eq, newest,
}
use darkpyonix_ember.Node.Jobs.{
  ExecEvent, Jobs, Job, argv, started, stdout, stderr, exit, new, event_history, tail_bytes,
  read_event, on_event, on_output, on_exit, emit, start, push_event, remove, removed, still_running,
  read_all, cut_tail, subscribe, job_finished, exited, trim, term_started, NodeEventKind, kill,
  running,
}
use darkpyonix_ember.Editor.Coords.{utf8_size}
use darkpyonix_ember.Node.Jobs.Log.{numbered}
use darkpyonix_ember.Node.Jobs.Runs.{
  Command, start_job, read, terminal, step, run, run-subscribe, run-history,
}
use darkpyonix_ember.Node.Jobs.Output.{output, GoesOn, read_all-exit}
use darkpyonix_ember.Node.Jobs.Tails.{Reads, IsValid, run-Short, run-IsValid}
use darkpyonix_ember.Node.Jobs.Remove.{Answers, remove-Answers}
use darkpyonix_ember.Node.Jobs.Cut.{cut_tail_lem}

abbrev same : List ℕ → List ℕ
same bytes = bytes

abbrev begins : Command ℕ
begins = start_job (inr 7) "a" none (argv ("ls" ∷ [])) "/" 100

abbrev commands : List (Command ℕ)
commands =
    begins
    ∷ terminal (term_started 1)
    ∷ read 110 "a" (stdout (104 ∷ 105 ∷ []))
    ∷ read 120 "a" (exit (some 0) none)
    ∷ []

abbrev going : Jobs ℕ
going = (run same (begins ∷ []) (new "b")).0

abbrev ended : Jobs ℕ
ended = (run same commands (new "b")).0

abbrev going_job : Job
going_job = record {
  info = record {
    id = "a";
    label = none;
    program = argv ("ls" ∷ []);
    cwd = "/";
    pid = some 7;
    state = running;
    exit_code = none;
    signal = none;
    started_ms = 100;
    finished_ms = none;
    output_bytes = 0;
  };
  tail = [];
}

abbrev ended_job : Job
ended_job = record {
  info = record {
    id = "a";
    label = none;
    program = argv ("ls" ∷ []);
    cwd = "/";
    pid = none;
    state = exited;
    exit_code = some 0;
    signal = none;
    started_ms = 100;
    finished_ms = some 120;
    output_bytes = 2;
  };
  tail = 104 ∷ 105 ∷ [];
}

going_known : find "a" going.jobs ≡ some going_job
unfolding run step start emit
going_known = refl

ended_known : find "a" ended.jobs ≡ some ended_job
unfolding run step start emit read_event on_event on_output trim on_exit
ended_known = refl

three_sent : length (run same commands (new "b")).1 ≡ 3
unfolding run step start emit read_event on_event on_output trim on_exit
three_sent = refl

-- The server has seen the start, and asks for the rest.
two_missed : length (subscribe 1 ended) ≡ 2
unfolding run step start emit read_event on_event on_output trim on_exit subscribe push_event
two_missed = refl

refused : (remove "a" going).1 ≡ still_running
unfolding run step start emit remove
refused = refl

forgotten : (remove "a" ended).1 ≡ removed
unfolding run step start emit remove read_event on_event on_output trim on_exit
forgotten = refl

signalled : kill "a" none going ≡ (true, some (7, 15))
unfolding run step start emit kill
signalled = refl

run-subscribe_example :
    ((kinds : List (NodeEventKind ℕ)) × ((run same commands (new "b")).1 ≡ numbered "b" 1 kinds))
    × (subscribe 1 ended ≡ drop 1 (run same commands (new "b")).1)
run-subscribe_example =
    run-subscribe same "b" commands 1 (omega (arith, three_sent)) (omega (arith, three_sent))

run-history_example : ended.log.history ≡ newest event_history (run same commands (new "b")).1
run-history_example = run-history same "b" commands (omega (arith, three_sent))

run-Short_example : length ended_job.tail ≤ tail_bytes
unfolding Reads
run-Short_example = run-Short same "b" commands "a" ended_job (tt, (tt, (tt, (tt, tt)))) ended_known

run-IsValid_example : IsValid ended_job
run-IsValid_example = run-IsValid same "b" commands "a" ended_job ended_known

remove-Answers_example : Answers "a" going (remove "a" going).0 (remove "a" going).1
remove-Answers_example = remove-Answers "a" going

-- "é!" in two bytes is only "!".
cut_test : cut_tail 2 (233 ∷ 33 ∷ []) ≡ 33 ∷ []
unfolding cut_tail
cut_test = refl

cut_tail_lem_example :
    ((front : List ℕ) × (front ++ cut_tail 2 (233 ∷ 33 ∷ []) ≡ 233 ∷ 33 ∷ []))
    × (utf8_size (cut_tail 2 (233 ∷ 33 ∷ [])) ≤ 2)
    × (min 2 (utf8_size (233 ∷ 33 ∷ [])) ≤ utf8_size (cut_tail 2 (233 ∷ 33 ∷ [])) + 3)
    × (utf8_size (233 ∷ 33 ∷ []) ≤ 2 → cut_tail 2 (233 ∷ 33 ∷ []) ≡ 233 ∷ 33 ∷ [])
cut_tail_lem_example = cut_tail_lem 2 (233 ∷ 33 ∷ [])

abbrev written : List ExecEvent
written = started 7 ∷ stdout (104 ∷ []) ∷ stderr (105 ∷ []) ∷ []

read_all-exit_example :
    (find "a" (read_all same 120 "a" (written ++ exit (some 0) none ∷ []) going).0.jobs
      ≡ some ended_job)
    × ((read_all same 120 "a" (written ++ exit (some 0) none ∷ []) going).1
        ≡ record {
          seq = going.log.next_seq;
          boot_id = going.boot_id;
          kind = job_finished ended_job.info ended_job.tail;
        }
          ∷ [])
unfolding GoesOn output
read_all-exit_example =
    read_all-exit same 120 "a" written (some 0) none [] going_job going (tt, (tt, (tt, tt)))
      going_known (omega arith) (omega arith)
