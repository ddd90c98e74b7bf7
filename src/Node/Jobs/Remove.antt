-- ===== src/Node/Jobs/Remove.antt =====
-- Forgetting a job.
use darkpyonix_ember.Base.{
  ◌≡◌, refl, Bool, true, false, none, some, find, erase, if◌then◌else◌, inl, inr, string_Eq,
  find-erase, Option-cases,
}
use darkpyonix_ember.Node.Jobs.{
  Jobs, Job, Removal, remove, removed, still_running, unknown, is_running,
}
use Prim.Native.String.{String}

-- What an answer of `remove` promises about the daemon before and after.
unfoldable pub Answers : {T : Type 0} → String → (before after : Jobs T) → Removal → Type 0
Answers id before after removed =
    ((job : Job) × (find id before.jobs ≡ some job) × (is_running job.info.state ≡ false))
    × ((k : String) → find k after.jobs ≡ (if string_Eq.beq id k then none else find k before.jobs))
    × (after.log ≡ before.log)
Answers id before after still_running =
    ((job : Job) × (find id before.jobs ≡ some job) × (is_running job.info.state ≡ true))
    × (after ≡ before)
Answers id before after unknown = (find id before.jobs ≡ none) × (after ≡ before)

module _ {T : Type 0} (id : String) (j : Jobs T) where
  known_Answers :
      (job : Job) (b : Bool)
      → find id j.jobs ≡ some job
      → is_running job.info.state ≡ b
      → let r : Jobs T × Removal =
          if b then (j, still_running) else (record j { jobs = erase id j.jobs }, removed) in
        Answers id j r.0 r.1
  unfolding Answers
  known_Answers job true known state = ((job, known, state), refl)
  known_Answers job false known state = ((job, known, state), λ k. find-erase k id j.jobs, refl)

  -- Only a job that no longer runs is removed, and then it alone goes and the log stays. A running
  -- job is refused, an unknown one is reported as such, and both leave the daemon as it was.
  pub remove-Answers : Answers id j (remove id j).0 (remove id j).1
  unfolding remove Answers
  remove-Answers = elim (Option-cases (find id j.jobs)) [
    | inl missing ↦ rw (missing, remove) (missing, refl)
    | inr (job, known) ↦
        rw (known, remove) (known_Answers job (is_running job.info.state) known refl)
  ]
