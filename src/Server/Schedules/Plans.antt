-- ===== src/Server/Schedules/Plans.antt =====
-- What firing makes of the triggers that have passed.
use darkpyonix_ember.Base.{
  ℕ, zero, suc, ◌+◌, ◌-◌, ◌≤◌, ◌<◌, max, ◌≡◌, refl, sym, ap, ◌∙◌, subst, Bool, true, false, Option,
  none, some, List, [], ◌∷◌, length, drop, drop-nil, drop-add, length-drop, newest, leb, ◌==◌, ◌⊎◌,
  inl, inr, arith, Bool-cases,
}
use darkpyonix_ember.Server.Schedules.{
  ok, Calendar, next_after, Due, occurrences_between, max_walk, or_err, no_trigger,
}
use darkpyonix_ember.Server.Schedules.Next.{through, or_err-ok}
use darkpyonix_ember.Server.Schedules.Walk.{
  Chain, Ends, Walked, Outcome, last_from, occurrences_between-Outcome,
}
use darkpyonix_ember.Server.Schedules.Rows.{
  Schedule, Missed, plan, missed_of, missed_times, run_time, without_last, max_missed_rows,
  grace_ms, coalesce,
}

drop-without_last : (k : ℕ) (xs : List ℕ) → without_last (drop k xs) ≡ drop k (without_last xs)
unfolding without_last
drop-without_last zero xs = refl
drop-without_last (suc k) [] = refl
drop-without_last (suc k) (x ∷ []) = ap without_last (drop-nil k)
drop-without_last (suc k) (x ∷ y ∷ ys) = drop-without_last k (y ∷ ys)

length-without_last : (xs : List ℕ) → length (without_last xs) ≡ length xs - 1
unfolding without_last
length-without_last [] = omega arith
length-without_last (x ∷ []) = omega arith
length-without_last (x ∷ y ∷ ys) = omega (arith, length-without_last (y ∷ ys))

newest-newest : (m n : ℕ) (xs : List ℕ) → m ≤ n → newest m (newest n xs) ≡ newest m xs
newest-newest m n xs h =
    let k = length xs - n in
    sym (drop-add k (length (drop k xs) - m) xs)
    ∙ ap (λ j. drop j xs) (omega (arith, length-drop k xs))

-- The last of the newest `n + 1` may go before or after the rest is cut off.
newest-without_last :
    (n : ℕ) (xs : List ℕ) → newest n (without_last (newest (n + 1) xs)) ≡ newest n (without_last xs)
newest-without_last n xs =
    let k = length xs - (n + 1) in
    ap (newest n) (drop-without_last k xs)
    ∙ (sym (drop-add k (length (drop k (without_last xs)) - n) (without_last xs))
        ∙ ap (λ j. drop j (without_last xs))
            (omega (arith, length-drop k (without_last xs), length-without_last xs)))

-- The triggers of a list that are not run: all, or all but the last.
abbrev pub unrun : Option ℕ → List ℕ → List ℕ
unrun none all = all
unrun (some t) all = without_last all

missed_times_lem :
    (run_at : Option ℕ) (all : List ℕ)
    → missed_times run_at (newest (max (max_missed_rows + 1) 1) all)
      ≡ newest max_missed_rows (unrun run_at all)
unfolding missed_times
missed_times_lem none all = newest-newest 20 21 all (omega arith)
missed_times_lem (some t) all = newest-without_last 20 all

-- How many triggers of a plan are run.
abbrev pub runs : Option ℕ → ℕ
runs none = 0
runs (some t) = 1

-- The latest trigger is run in time or where catching up is on, and else nothing is.
run_time-last :
    (catch_up : Bool) (now latest : ℕ)
    → ((run_time catch_up now latest ≡ some latest)
        × ((catch_up ≡ true) ⊎ (now - latest ≤ grace_ms)))
      ⊎ ((run_time catch_up now latest ≡ none) × (catch_up ≡ false) × (grace_ms < now - latest))
unfolding run_time
run_time-last true now latest = elim (Bool-cases (leb (now - latest) grace_ms)) [
  | inl on_time ↦ rw on_time (inl (refl, inl refl))
  | inr late ↦ rw late (inl (refl, inl refl))
]
run_time-last false now latest = elim (Bool-cases (leb (now - latest) grace_ms)) [
  | inl on_time ↦ rw on_time (inl (refl, inr (ground arith)))
  | inr late ↦ rw late (inr (refl, refl, ground arith))
]

empty_of : (xs : List ℕ) → length xs ≡ 0 → xs ≡ []
empty_of [] h = refl
empty_of (x ∷ xs) h = absurd (omega arith)

missed_of_lem :
    (run_at : Option ℕ) (due : Due) (all : List ℕ)
    → due.count ≡ length all
    → 1 ≤ length all
    → due.recent ≡ newest (max (max_missed_rows + 1) 1) all
    → ((missed_of run_at due).count + runs run_at ≡ length all)
      × ((missed_of run_at due).times ≡ newest max_missed_rows (unrun run_at all))
unfolding missed_of
missed_of_lem none due all counted some' kept =
    let off : (due.count - 0 == 0) ≡ false = ground arith in
    rw off (omega (arith, counted), ap (missed_times none) kept ∙ missed_times_lem none all)
missed_of_lem (some t) due all counted some' kept = elim (Bool-cases (due.count - 1 == 0)) [
  | inl single ↦
      let nothing : without_last all ≡ [] =
        empty_of (without_last all) (ground (arith, length-without_last all)) in
      rw single (ground arith, ap (newest max_missed_rows) (sym nothing))
  | inr several ↦
      rw several
        (omega (arith, counted), ap (missed_times (some t)) kept ∙ missed_times_lem (some t) all)
]

or_err-eq :
    {o : Option ℕ} (start first : ℕ)
    → or_err no_trigger o ≡ ok start
    → o ≡ some first
    → start ≡ first
or_err-eq {o} start first started due = cc (or_err-ok no_trigger o started)

ok_tuple : {A : Type 0} {a b : A} → ok a ≡ ok b → a ≡ b
ok_tuple e = cc

limit_of :
    {E : Type 0} (count : ℕ) (more : List ℕ)
    → count ≡ 1 + length more
    → (count ≡ max_walk) ⊎ E
    → (1 + length more ≡ max_walk) ⊎ E
limit_of count more e (inl full) = inl (sym e ∙ full)
limit_of count more e (inr ends) = inr ends

module _ {Z X D L : Type 0} (c : Calendar Z X D L) where
  -- What a plan makes of the triggers `first ∷ more`.
  pub record Planned (s : Schedule) (now first : ℕ) (row after : Schedule) (missed : Missed)
      (run_at : Option ℕ) : Type 0 where
    pub more : List ℕ
    pub chain : Chain c s.kind s.anchor_at now first more
    pub all_or_limit :
        (1 + length more ≡ max_walk) ⊎ Ends c s.kind s.anchor_at now (last_from first more)
    pub each_counted : missed.count + runs run_at ≡ 1 + length more
    pub rows_kept : missed.times ≡ newest max_missed_rows (unrun run_at (first ∷ more))
    pub runs_last : (run_at ≡ none) ⊎ (run_at ≡ some (last_from first more))
    pub runs_late : run_at ≡ none → (s.catch_up ≡ false) × (grace_ms < now - last_from first more)
    pub drops_late : s.catch_up ≡ false → grace_ms < now - last_from first more → run_at ≡ none
    pub writes : after ≡ record row {
      next_run_at = after.next_run_at;
      last_run_at = coalesce run_at row.last_run_at;
    }
    pub moves_on : next_after c s.kind s.anchor_at now ≡ ok after.next_run_at

  outcome_of :
      (s : Schedule) (now : ℕ) (d : Due) (start first : ℕ)
      → start ≡ first
      → occurrences_between c s.kind s.anchor_at now (max_missed_rows + 1) start ≡ ok d
      → Walked c s.kind s.anchor_at now (max_missed_rows + 1) (first ∷ []) first d
  unfolding Outcome
  outcome_of s now d start first same walked =
      subst (λ t. Walked c s.kind s.anchor_at now (max_missed_rows + 1) (t ∷ []) t d) same
        (subst (Outcome c s.kind s.anchor_at now (max_missed_rows + 1) (start ∷ []) start) walked
          (occurrences_between-Outcome c s.kind s.anchor_at now (max_missed_rows + 1) start))

  run_of :
      (s : Schedule) (now first : ℕ) (d : Due) (more : List ℕ) (r : Option ℕ)
      → d.latest ≡ last_from first more
      → ((r ≡ some d.latest) × ((s.catch_up ≡ true) ⊎ (now - d.latest ≤ grace_ms)))
        ⊎ ((r ≡ none) × (s.catch_up ≡ false) × (grace_ms < now - d.latest))
      → ((r ≡ none) ⊎ (r ≡ some (last_from first more)))
        × (r ≡ none → (s.catch_up ≡ false) × (grace_ms < now - last_from first more))
        × (s.catch_up ≡ false → grace_ms < now - last_from first more → r ≡ none)
  run_of s now first d more r at_last (inl (ran, inl catching)) =
      (inr (ran ∙ ap some at_last), λ h. absurd cc, λ off late. absurd cc)
  run_of s now first d more r at_last (inl (ran, inr on_time)) = (
    inr (ran ∙ ap some at_last),
    λ h. absurd cc,
    λ off late. absurd (omega (arith, at_last, on_time)),
  )
  run_of s now first d more r at_last (inr (none_run, no_catch, late)) = (
    inl none_run,
    λ h. (no_catch, subst (λ t. grace_ms < now - t) at_last late),
    λ off later. none_run,
  )

  planned :
      (s : Schedule) (now first : ℕ) (row : Schedule) (d : Due) (next : Option ℕ)
      → Walked c s.kind s.anchor_at now (max_missed_rows + 1) (first ∷ []) first d
      → next_after c s.kind s.anchor_at now ≡ ok next
      → let r = run_time s.catch_up now d.latest in
        Planned s now first row
          (record row { next_run_at = next; last_run_at = coalesce r row.last_run_at })
          (missed_of r d)
          r
  planned s now first row d next w found =
      let r = run_time s.catch_up now d.latest in
      let (counts, rows) =
        missed_of_lem r d (first ∷ w.more) (omega (arith, w.counted)) (omega arith) w.kept in
      let (last, late, drops) =
        run_of s now first d w.more r w.at_last (run_time-last s.catch_up now d.latest) in
      record {
        more = w.more;
        chain = w.chain;
        all_or_limit = limit_of d.count w.more w.counted w.stopped;
        each_counted = omega (arith, counts);
        rows_kept = rows;
        runs_last = last;
        runs_late = late;
        drops_late = drops;
        writes = refl;
        moves_on = found;
      }

  -- When a schedule that was read as due is planned successfully, there is the list of its triggers
  -- up to now. It ends because no trigger follows by now, or it has 200000. Each trigger is run or
  -- counted as missed. Only the last can be run: it is not when it is more than a minute late and
  -- catching up is off, and it is otherwise. The newest 20 that are not run, or all where there are
  -- fewer, get a row. Of the schedule's row, whatever it is by then, only the last run and the next
  -- trigger are written, the latter as the first one after now.
  pub plan-Planned :
      (s : Schedule) (now first : ℕ) (row after : Schedule) (missed : Missed) (run_at : Option ℕ)
      → s.next_run_at ≡ some first
      → plan c s now row ≡ ok (after, missed, run_at)
      → Planned s now first row after missed run_at
  unfolding plan
  plan-Planned s now first row after missed run_at due h =
      let (start, started, h1) = through (or_err no_trigger s.next_run_at) _ h in
      let at_first : start ≡ first = or_err-eq start first started due in
      let (d, walked, h2) =
        through (occurrences_between c s.kind s.anchor_at now (max_missed_rows + 1) start) _ h1 in
      let (next, found, h3) = through (next_after c s.kind s.anchor_at now) _ h2 in
      subst (λ t. Planned s now first row t.0 t.1 t.2) (ok_tuple h3)
        (planned s now first row d next (outcome_of s now d start first at_first walked) found)
