-- ===== src/Server/Schedules/Tests.antt =====
-- Intervals on concrete clocks. The calendar here knows one zone and no expression. Instants are
-- small numbers, so far before 1970.
use darkpyonix_ember.Base.{
  ℕ, ◌+◌, ◌*◌, ◌<◌, ◌≡◌, refl, true, false, Option, none, some, List, [], ◌∷◌, inr, arith,
}
use darkpyonix_ember.Server.Schedules.{
  cron, interval, ok, err, Calendar, IsCalendar, next_after, occurrences_between, validate,
  five_fields, too_short,
}
use darkpyonix_ember.Server.Schedules.Next.{
  InRange, FirstMultiple, next_after-FirstMultiple, next_after-later,
}
use darkpyonix_ember.Server.Schedules.Walk.{Outcome, occurrences_between-Outcome}
use darkpyonix_ember.Server.Schedules.Rows.{
  Schedule, continue, NewSchedule, plan, missed_of, missed_times, run_time, create, first_trigger,
  first_of, without_last, last_or, pause, resume, resumed_next, is_due,
}
use darkpyonix_ember.Server.Schedules.Plans.{Planned, plan-Planned}
use darkpyonix_ember.Server.Schedules.Rests.{
  RowStep, stop, go_on, fire, seen_at, row_run, row_step, create-Rests_always,
}

-- An instant is its number, and a match comes a second after what it is looked for from.
abbrev calendar : Calendar (Unit {0}) (Unit {0}) ℕ ℕ
calendar = record {
  parse_zone = λ tz. some tt;
  parse_expression = λ expr. inr tt;
  from_millis = λ t. some t;
  with_zone = λ z d. d;
  naive_local = λ d. d;
  same_local = λ a b. false;
  find_next = λ x d. some (d + 1_000);
  millis = λ d. d;
}

calendar-IsCalendar : IsCalendar calendar
calendar-IsCalendar = record {
  later = λ x d next h. ground arith;
  zone_keeps = λ z d. refl;
  same_millis = λ t d h. cc;
}

-- "* * * * *" and "* *".
abbrev every_minute : List ℕ
every_minute = 42 ∷ 32 ∷ 42 ∷ 32 ∷ 42 ∷ 32 ∷ 42 ∷ 32 ∷ 42 ∷ []

abbrev two_fields : List ℕ
two_fields = 42 ∷ 32 ∷ 42 ∷ []

five : validate calendar (cron every_minute []) ≡ ok tt
unfolding validate
five = refl

two : validate calendar (cron two_fields []) ≡ err (five_fields two_fields)
unfolding validate
two = refl

short : validate calendar (interval 59) ≡ err too_short
unfolding validate
short = refl

hour : next_after calendar (interval 3_600) 0 3_600_001 ≡ ok (some 7_200_000)
unfolding next_after
hour = refl

-- A count that is negative as an `i64` fires every millisecond.
wraps : next_after calendar (interval 9_223_372_036_854_775_808) 0 5 ≡ ok (some 6)
unfolding next_after
wraps = refl

ten_due :
    occurrences_between calendar (interval 60) 0 600_000 3 60_000
    ≡ ok (record {
      count = 10;
      first = 60_000;
      latest = 600_000;
      recent = 480_000 ∷ 540_000 ∷ 600_000 ∷ [];
    })
unfolding occurrences_between
ten_due = refl

next_after-FirstMultiple_example :
    (t : ℕ) × (next_after calendar (interval 3_600) 0 3_600_001 ≡ ok (some t))
    × FirstMultiple (3_600 * 1000) 0 3_600_001 t
unfolding InRange
next_after-FirstMultiple_example =
    next_after-FirstMultiple calendar 3_600 0 3_600_001
      (omega arith, omega arith, omega arith, omega arith)

cron_next : next_after calendar (cron every_minute []) 0 5 ≡ ok (some 1_005)
unfolding next_after
cron_next = refl

next_after-later_example : 5 < 1_005
unfolding InRange
next_after-later_example =
    next_after-later calendar calendar-IsCalendar (cron every_minute []) 0 5 1_005 tt cron_next

occurrences_between-Outcome_example :
    Outcome calendar
      (interval 60)
      0
      600_000
      3
      (60_000 ∷ [])
      60_000
      (occurrences_between calendar (interval 60) 0 600_000 3 60_000)
occurrences_between-Outcome_example =
    occurrences_between-Outcome calendar (interval 60) 0 600_000 3 60_000

abbrev minutely : NewSchedule
minutely = record {
  project = "p";
  agent = "claude";
  account = none;
  computer = none;
  cwd = none;
  prompt = 104 ∷ 105 ∷ [];
  kind = interval 60;
  target = continue "s";
  paused = false;
  catch_up = true;
}

abbrev row : Option ℕ → Option ℕ → Schedule
row next last = record {
  id = "a";
  project = "p";
  agent = "claude";
  account_id = none;
  computer_id = none;
  cwd = none;
  prompt = 104 ∷ 105 ∷ [];
  kind = interval 60;
  target = continue "s";
  paused = false;
  catch_up = true;
  next_run_at = next;
  last_run_at = last;
  created_by_session = none;
  created_at = 100_000;
  updated_at = 100_000;
  anchor_at = 100_000;
}

made : create calendar "a" minutely none 100_000 ≡ ok (row (some 160_000) none)
unfolding create first_trigger first_of validate next_after
made = refl

-- The server was down for five minutes: four triggers are missed, and the last runs.
caught_up :
    plan calendar (row (some 160_000) none) 405_000 (row (some 160_000) none)
    ≡ ok (
      row (some 460_000) (some 400_000),
      record {
        count = 4;
        times = 160_000 ∷ 220_000 ∷ 280_000 ∷ 340_000 ∷ [];
        last_missed = 340_000;
      },
      some 400_000,
    )
unfolding plan occurrences_between next_after run_time missed_of missed_times without_last last_or
caught_up = refl

plan-Planned_example :
    Planned calendar
      (row (some 160_000) none)
      405_000
      160_000
      (row (some 160_000) none)
      (row (some 460_000) (some 400_000))
      (record {
        count = 4;
        times = 160_000 ∷ 220_000 ∷ 280_000 ∷ 340_000 ∷ [];
        last_missed = 340_000;
      })
      (some 400_000)
plan-Planned_example =
    plan-Planned calendar (row (some 160_000) none) 405_000 160_000 (row (some 160_000) none)
      (row (some 460_000) (some 400_000)) _ (some 400_000) refl caught_up

-- The firing has read the row two writes before its own.
abbrev steps : List RowStep
steps = go_on 200_000 0 ∷ go_on 300_000 1 ∷ fire 405_000 2 ∷ stop 410_000 ∷ []

stopped : (row_run calendar steps (row (some 160_000) none) []).paused ≡ true
unfolding row_run row_step pause
stopped = refl

create-Rests_always_example :
    (row_run calendar steps (row (some 160_000) none) []).next_run_at ≡ none
unfolding row_step seen_at resume resumed_next next_after is_due plan occurrences_between run_time
create-Rests_always_example =
    create-Rests_always calendar "a" minutely none 100_000 (row (some 160_000) none) steps made
      (tt, (tt, (refl, (tt, tt)))) stopped

-- A pause between the reading and the write of a firing is undone in part: the row stays paused and
-- gets a next trigger.
abbrev race : List RowStep
race = stop 404_000 ∷ fire 405_000 1 ∷ []

raced :
    ((row_run calendar race (row (some 160_000) none) []).paused ≡ true)
    × ((row_run calendar race (row (some 160_000) none) []).next_run_at ≡ some 460_000)
unfolding row_run row_step seen_at pause is_due plan occurrences_between next_after run_time
    missed_of missed_times
raced = (refl, refl)
