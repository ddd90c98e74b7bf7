-- ===== src/Server/Schedules/Rests.antt =====
-- The life of a schedule's row: a paused schedule has no next trigger. Other
-- steps may come between an operation's reading of the row and its write.
use darkpyonix_ember.Base.{
  ℕ, zero, suc, ◌≡◌, ◌∙◌, All, refl, sym, ap, subst, Bool, true, false, not, ◌&&◌, Option, none,
  some, List, [], ◌∷◌, if◌then◌else◌, inl, inr, Bool-cases,
}
use darkpyonix_ember.Server.Schedules.{
  ScheduleKind, Result, ok, err, Calendar, next_after, occurrences_between, or_err, no_trigger,
}
use darkpyonix_ember.Server.Schedules.Next.{through}
use darkpyonix_ember.Server.Schedules.Rows.{
  Schedule, NewSchedule, SchedulePatch, Missed, create, update, update_kind, pause, resume, plan,
  is_due, unless_paused, first_trigger, resumed_next, is_blank,
}
use Prim.Native.String.{String}

-- An operation reads its row some number of writes before it writes itself.
pub data RowStep : Type 0 where
  change : SchedulePatch → (now ago : ℕ) → RowStep
  stop : (now : ℕ) → RowStep
  go_on fire : (now ago : ℕ) → RowStep

-- A failed call leaves the row alone.
abbrev pub or_same : Schedule → Result Schedule → Schedule
or_same s (ok s') = s'
or_same s (err e) = s

abbrev pub row_after : Schedule → Result (Schedule × Missed × Option ℕ) → Schedule
row_after s (ok (s', missed, run_at)) = s'
row_after s (err e) = s

abbrev pub Rests : Schedule → Type 0
Rests s = s.paused ≡ true → s.next_run_at ≡ none

-- The row as it was before the last `ago` writes, or as it was created.
unfoldable pub seen_at : (ago : ℕ) → (row : Schedule) → (past : List Schedule) → Schedule
seen_at zero row past = row
seen_at (suc ago) row [] = row
seen_at (suc ago) row (r ∷ past) = seen_at ago r past

module _ {Z X D L : Type 0} (c : Calendar Z X D L) where
  unfoldable pub row_step : RowStep → (row : Schedule) → (past : List Schedule) → Schedule
  row_step (change patch now ago) row past =
      or_same row (update c patch now (seen_at ago row past) row)
  row_step (stop now) row past = pause now row
  row_step (go_on now ago) row past = or_same row (resume c now (seen_at ago row past) row)
  row_step (fire now ago) row past =
      let s = seen_at ago row past in if is_due now s then row_after row (plan c s now row) else row

  unfoldable pub row_run : List RowStep → (row : Schedule) → (past : List Schedule) → Schedule
  row_run [] row past = row
  row_run (r ∷ rs) row past = row_run rs (row_step r row past) (row ∷ past)

  -- The row is as much paused when an update or a firing writes it as when it was read.
  abbrev pub SamePause : RowStep → (row : Schedule) → (past : List Schedule) → Type 0
  SamePause (change patch now ago) row past = (seen_at ago row past).paused ≡ row.paused
  SamePause (stop now) row past = Unit
  SamePause (go_on now ago) row past = Unit
  SamePause (fire now ago) row past = (seen_at ago row past).paused ≡ row.paused

  abbrev pub AllSamePause : List RowStep → (row : Schedule) → (past : List Schedule) → Type 0
  AllSamePause [] row past = Unit
  AllSamePause (r ∷ rs) row past =
      SamePause r row past × AllSamePause rs (row_step r row past) (row ∷ past)

unless_paused_lem : (p : Bool) (next : ℕ) → p ≡ true → unless_paused p next ≡ none
unless_paused_lem true next h = refl
unless_paused_lem false next h = absurd cc

ok-eq : {A : Type 0} {a b : A} → ok a ≡ ok b → a ≡ b
ok-eq e = cc

or_same-Rests :
    (s : Schedule) (r : Result Schedule)
    → Rests s
    → ((s' : Schedule) → r ≡ ok s' → Rests s')
    → Rests (or_same s r)
or_same-Rests s (ok s') old new = new s' refl
or_same-Rests s (err e) old new = old

row_after-Rests :
    (s : Schedule) (r : Result (Schedule × Missed × Option ℕ))
    → Rests s
    → ((s' : Schedule) (missed : Missed) (run_at : Option ℕ)
        → r ≡ ok (s', missed, run_at)
        → Rests s')
    → Rests (row_after s r)
row_after-Rests s (ok (s', missed, run_at)) old new = new s' missed run_at refl
row_after-Rests s (err e) old new = old

due_runs : (p b : Bool) → not p && b ≡ true → p ≡ false
due_runs true b h = absurd cc
due_runs false b h = refl

module _ {Z X D L : Type 0} (c : Calendar Z X D L) where
  create-Rests :
      (id : String) (new : NewSchedule) (created_by : Option String) (now : ℕ) (s : Schedule)
      → create c id new created_by now ≡ ok s
      → Rests s
  unfolding create
  create-Rests id new created_by now s h =
      let (next, found, h1) = through (first_trigger c new.kind now now) _ h in
      subst Rests (ok-eq h1) (unless_paused_lem new.paused next)

  update_kind-Rests :
      (kind : Option ScheduleKind) (now : ℕ) (s : Schedule) (t : ScheduleKind × ℕ × Option ℕ)
      → Rests s
      → s.paused ≡ true
      → update_kind c kind now s ≡ ok t
      → t.2 ≡ none
  unfolding update_kind
  update_kind-Rests none now s t rests on h = sym (ap (λ k. k.2) (ok-eq h)) ∙ rests on
  update_kind-Rests (some kind) now s t rests on h =
      let (next, found, h1) = through (first_trigger c kind now now) _ h in
      sym (ap (λ k. k.2) (ok-eq h1)) ∙ unless_paused_lem s.paused next on

  update-Rests :
      (patch : SchedulePatch) (now : ℕ) (s row row' : Schedule)
      → Rests s
      → s.paused ≡ row.paused
      → update c patch now s row ≡ ok row'
      → Rests row'
  unfolding update
  update-Rests patch now s row row' rests same h = elim (Bool-cases (is_blank patch.prompt)) [
    | inl blank ↦ absurd (cc (rw (blank, update) at h))
    | inr full ↦
        let (t, timed, h1) = through (update_kind c patch.kind now s) _ (rw (full, update) at h) in
        subst Rests (ok-eq h1) (λ on. update_kind-Rests patch.kind now s t rests (same ∙ on) timed)
  ]

  resume-Rests : (now : ℕ) (s row row' : Schedule) → resume c now s row ≡ ok row' → Rests row'
  unfolding resume
  resume-Rests now s row row' h =
      let (next, found, h1) = through (resumed_next c s.kind s.last_run_at now) _ h in
      subst Rests (ok-eq h1) (λ on. absurd cc)

  plan-keeps_paused :
      (now : ℕ) (s row row' : Schedule) (missed : Missed) (run_at : Option ℕ)
      → plan c s now row ≡ ok (row', missed, run_at)
      → row'.paused ≡ row.paused
  unfolding plan
  plan-keeps_paused now s row row' missed run_at h =
      let (start, started, h1) = through (or_err no_trigger s.next_run_at) _ h in
      let (d, walked, h2) = through (occurrences_between c s.kind s.anchor_at now 21 start) _ h1 in
      let (next, found, h3) = through (next_after c s.kind s.anchor_at now) _ h2 in
      ap (λ t. t.paused) (sym (ap (λ t. t.0) (ok-eq h3)))

  seen_at-Rests :
      (ago : ℕ) (row : Schedule) (past : List Schedule)
      → Rests row
      → All Rests past
      → Rests (seen_at ago row past)
  unfolding seen_at
  seen_at-Rests zero row past rests all = rests
  seen_at-Rests (suc ago) row [] rests all = rests
  seen_at-Rests (suc ago) row (r ∷ past) rests all = seen_at-Rests ago r past all.0 all.1

  row_step-Rests :
      (r : RowStep) (row : Schedule) (past : List Schedule)
      → Rests row
      → All Rests past
      → SamePause c r row past
      → Rests (row_step c r row past)
  unfolding row_step pause is_due
  row_step-Rests (change patch now ago) row past rests all same =
      let s = seen_at ago row past in
      or_same-Rests row (update c patch now s row) rests
        (λ s' h. update-Rests patch now s row s' (seen_at-Rests ago row past rests all) same h)
  row_step-Rests (stop now) row past rests all same = λ p. refl
  row_step-Rests (go_on now ago) row past rests all same =
      let s = seen_at ago row past in
      or_same-Rests row (resume c now s row) rests (λ s' h. resume-Rests now s row s' h)
  row_step-Rests (fire now ago) row past rests all same =
      let s = seen_at ago row past in
      elim (Bool-cases (is_due now s)) [
        | inr off ↦ rw off rests
        | inl due ↦ rw due (
            row_after-Rests row (plan c s now row) rests (λ s' missed run_at h on.
              absurd (
                cc
                  (plan-keeps_paused now s row s' missed run_at h, same, due_runs s.paused _ due))))
      ]

  run-Rests :
      (rs : List RowStep) (row : Schedule) (past : List Schedule)
      → Rests row
      → All Rests past
      → AllSamePause c rs row past
      → Rests (row_run c rs row past)
  unfolding row_run
  run-Rests [] row past rests all same = rests
  run-Rests (r ∷ rs) row past rests all same =
      run-Rests rs (row_step c r row past) (row ∷ past) (row_step-Rests r row past rests all same.0)
        (rests, all) same.1

  -- From its creation on, through any updates, pauses, resumptions and firings, failed ones
  -- included, each of which may have read the row any number of writes before its own, a schedule
  -- that is paused has no next trigger, provided that no update or firing reads the row paused
  -- and finds it running when it writes, or the other way round.
  pub create-Rests_always :
      (id : String) (new : NewSchedule) (created_by : Option String) (now : ℕ) (s : Schedule)
      (rs : List RowStep)
      → create c id new created_by now ≡ ok s
      → AllSamePause c rs s []
      → (row_run c rs s []).paused ≡ true
      → (row_run c rs s []).next_run_at ≡ none
  create-Rests_always id new created_by now s rs made same =
      run-Rests rs s [] (create-Rests id new created_by now s made) tt same
