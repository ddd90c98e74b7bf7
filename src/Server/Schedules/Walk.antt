-- ===== src/Server/Schedules/Walk.antt =====
-- The triggers that have passed: the loop of `occurrences_between` against the list that it walks.
use darkpyonix_ember.Base.{
  ℕ, zero, suc, ◌+◌, ◌-◌, ◌≤◌, ◌<◌, max, ◌≡◌, refl, sym, ap, ◌∙◌, Option, none, some, List, [], ◌∷◌,
  ◌++◌, append_assoc, append-nil, length, length-append, drop, ltb, leb, ◌⊎◌, inl, inr, arith,
  Bool-cases, leb→le, ltb→lt, newest, push_newest,
}
use darkpyonix_ember.Server.Schedules.{
  ScheduleKind, Result, ok, err, Calendar, next_after, Due, push_recent, add_due, walk,
  occurrences_between, max_walk, TimingError,
}

unfoldable pub last_from : ℕ → List ℕ → ℕ
last_from t [] = t
last_from t (n ∷ ns) = last_from n ns

module _ {Z X D L : Type 0} (c : Calendar Z X D L) (kind : ScheduleKind) (anchor until : ℕ) where
  -- Each is the next trigger after the one before, and none is past `until`.
  unfoldable pub Chain : ℕ → List ℕ → Type 0
  Chain t [] = Unit {0}
  Chain t (n ∷ ns) = (next_after c kind anchor t ≡ ok (some n)) × (n ≤ until) × Chain n ns

  -- No trigger follows by `until`.
  abbrev pub Ends : ℕ → Type 0
  Ends t =
      (next_after c kind anchor t ≡ ok none)
      ⊎ ((n : ℕ) × (next_after c kind anchor t ≡ ok (some n)) × (until < n))

  -- From the triggers `before`, of which the last is `t`, the walk went over `more`.
  pub record Walked (keep : ℕ) (before : List ℕ) (t : ℕ) (due : Due) : Type 0 where
    pub more : List ℕ
    pub chain : Chain t more
    pub counted : due.count ≡ length before + length more
    pub bounded : due.count ≤ max_walk
    pub kept : due.recent ≡ newest (max keep 1) (before ++ more)
    pub at_last : due.latest ≡ last_from t more
    pub stopped : (due.count ≡ max_walk) ⊎ Ends (last_from t more)

  pub record Fails (t : ℕ) (e : TimingError) : Type 0 where
    pub more : List ℕ
    pub chain : Chain t more
    pub fails : next_after c kind anchor (last_from t more) ≡ err e

  unfoldable pub Outcome : (keep : ℕ) → List ℕ → ℕ → Result Due → Type 0
  Outcome keep before t (ok due) = Walked keep before t due
  Outcome keep before t (err e) = Fails t e

  -- The count of the triggers passed so far.
  pub record Upto (keep : ℕ) (before : List ℕ) (t : ℕ) (due : Due) : Type 0 where
    pub counted : due.count ≡ length before
    pub kept : due.recent ≡ newest (max keep 1) before
    pub at_last : due.latest ≡ t
    pub bounded : due.count ≤ max_walk

  Upto-Walked :
      {keep : ℕ} {before : List ℕ} {t : ℕ} {due : Due}
      → Upto keep before t due
      → (due.count ≡ max_walk) ⊎ Ends t
      → Walked keep before t due
  unfolding Chain last_from
  Upto-Walked {before = before} u stop = record {
    more = [];
    chain = tt;
    counted = omega (arith, u.counted);
    bounded = u.bounded;
    kept = u.kept ∙ ap (newest _) (sym (append-nil before));
    at_last = u.at_last;
    stopped = stop;
  }

  add_due-Upto :
      {keep : ℕ} {before : List ℕ} {t : ℕ} (due : Due) (n : ℕ)
      → Upto keep before t due
      → due.count < max_walk
      → Upto keep (before ++ n ∷ []) n (add_due keep due n)
  unfolding add_due push_recent
  add_due-Upto {keep} {before} due n u more = record {
    counted = omega (arith, u.counted, length-append before (n ∷ []));
    kept = ap (λ r. push_recent keep r n) u.kept ∙ push_newest (max keep 1) before n;
    at_last = refl;
    bounded = omega arith;
  }

  one_more :
      (keep : ℕ) (before : List ℕ) (t n : ℕ) (r : Result Due)
      → next_after c kind anchor t ≡ ok (some n)
      → n ≤ until
      → Outcome keep (before ++ n ∷ []) n r
      → Outcome keep before t r
  unfolding Outcome Chain last_from
  one_more keep before t n (ok due) found near w = record {
    more = n ∷ w.more;
    chain = (found, near, w.chain);
    counted = omega (arith, w.counted, length-append before (n ∷ []));
    bounded = w.bounded;
    kept = w.kept ∙ ap (newest _) (append_assoc before (n ∷ []) w.more);
    at_last = w.at_last;
    stopped = w.stopped;
  }
  one_more keep before t n (err e) found near f = record {
    more = n ∷ f.more;
    chain = (found, near, f.chain);
    fails = f.fails;
  }

  abbrev Answer : ℕ → Type 0
  Answer t =
      ((e : TimingError) × (next_after c kind anchor t ≡ err e))
      ⊎ (next_after c kind anchor t ≡ ok none)
      ⊎ ((n : ℕ) × (next_after c kind anchor t ≡ ok (some n)))

  answered : (t : ℕ) (r : Result (Option ℕ)) → next_after c kind anchor t ≡ r → Answer t
  answered t (err e) h = inl (e, h)
  answered t (ok none) h = inr (inl h)
  answered t (ok (some n)) h = inr (inr (n, h))

  walk-Outcome :
      (keep fuel : ℕ) (before : List ℕ) (due : Due) (t : ℕ)
      → Upto keep before t due
      → max_walk < due.count + fuel
      → Outcome keep before t (walk c kind anchor until keep fuel due t)
  unfolding walk Outcome Chain last_from add_due
  walk-Outcome keep zero before due t u enough = absurd (omega (arith, u.bounded))
  walk-Outcome keep (suc fuel) before due t u enough = elim (Bool-cases (ltb due.count max_walk)) [
    | inr full ↦ rw full (Upto-Walked u (inl (ground (arith, u.bounded))))
    | inl room ↦ rw room (elim (answered t (next_after c kind anchor t) refl) [
      | inl (e, h) ↦ rw h (record { more = []; chain = tt; fails = h })
      | inr (inl h) ↦ rw h (Upto-Walked u (inr (inl h)))
      | inr (inr (n, h)) ↦ elim (Bool-cases (leb n until)) [
        | inl near ↦
            rw (h, near)
              (one_more keep before t n _ h (leb→le n until near) (
                walk-Outcome keep fuel (before ++ n ∷ []) (add_due keep due n) n
                  (add_due-Upto due n u (ltb→lt _ _ room)) (omega arith)))
        | inr far ↦ rw (h, far) (Upto-Walked u (inr (inr (n, h, ground arith))))
      ]
    ])
  ]

  -- The walk from the planned trigger `first` returns. Where it succeeds there is a list of triggers
  -- after `first`, each the next after the one before and none past `until`; the count is one
  -- more than its length and 200000 at most, the latest is its last, and the recent ones are the
  -- newest of all, as many as are wanted and one at least. It has stopped at 200000 triggers or
  -- because none follows by `until`. Where it fails, the error is that of the next trigger after
  -- one of the list.
  pub occurrences_between-Outcome :
      (keep first : ℕ)
      → Outcome keep (first ∷ []) first (occurrences_between c kind anchor until keep first)
  unfolding occurrences_between
  occurrences_between-Outcome keep first =
      walk-Outcome keep max_walk (first ∷ []) _ first
        (record {
          counted = refl;
          kept = ap (λ k. drop k (first ∷ [])) {x = 0} {y = 1 - max keep 1} (omega arith);
          at_last = refl;
          bounded = omega arith;
        })
        (omega arith)
