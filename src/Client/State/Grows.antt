-- ===== src/Client/State/Grows.antt =====
-- Taking records and marking sessions as seen only ever moves a session forward.
use darkpyonix_ember.Base.{
  ℕ, ◌≤◌, ◌≡◌, refl, sym, ◌∙◌, ap, subst, inl, inr, Bool, true, false, not, ◌||◌, some, List, [],
  ◌∷◌, string_Eq, contains, find, put, find-put, beq-eq, ltb, ◌==◌, if◌then◌else◌, Bool-cases,
  Option-cases, arith,
}
use native.Mathlib.Nat.{le_refl}
use Prim.Native.String.{String}
use darkpyonix_ember.Client.Wire.{SessionRecord}
use darkpyonix_ember.Client.State.{
  State, Changes, Derived, or_zero, seen, or_insert, mark_seen, take_record, upsert, upsert_all,
}

module _ {J : Type 0} (null : J) (derived : Derived) where
  -- From the first state to the second, no mark of what was seen falls and no session is forgotten
  -- or set back to an earlier event.
  pub record Grows (s t : State J) : Type 0 where
    pub marks : (id : String) → seen null derived s id ≤ seen null derived t id
    pub reaches :
        (id : String) (rec : SessionRecord)
        → find id s.sessions ≡ some rec
        → (rec' : SessionRecord) × (find id t.sessions ≡ some rec') × (rec.last_seq ≤ rec'.last_seq)

  pub Grows-same : (s t : State J) → s.last_seen ≡ t.last_seen → s.sessions ≡ t.sessions → Grows s t
  unfolding seen
  Grows-same s t e f = record {
    marks = λ id. omega (arith, ap (λ m. or_zero (find id m)) e);
    reaches = λ id rec g. (rec, ap (find id) (sym f) ∙ g, le_refl rec.last_seq);
  }

  pub Grows-then : (s t u : State J) → Grows s t → Grows t u → Grows s u
  Grows-then s t u g h = record {
    marks = λ id. omega (arith, g.marks id, h.marks id);
    reaches = λ id rec e.
        let (rec', e', le) = g.reaches id rec e in
        let (rec'', e'', le') = h.reaches id rec' e' in (rec'', e'', omega (arith, le, le'));
  }

  pub or_insert-le :
      (id : String) (n : ℕ) (m : List (String × ℕ)) (j : String)
      → or_zero (find j m) ≤ or_zero (find j (or_insert null derived id n m))
  unfolding or_insert
  or_insert-le id n m j = elim (Option-cases (find id m)) [
    | inr (k, e) ↦ rw (e, or_insert) (le_refl _)
    | inl e ↦
        rw (e, or_insert)
          (elim (Bool-cases (string_Eq.beq id j)) [
            | inl same ↦ rw (← beq-eq id j same, e) (omega arith)
            | inr other ↦ rw (find-put j id n m, other) (le_refl _)
          ])
  ]

  put-le :
      (id : String) (n : ℕ) (m : List (String × ℕ)) (j : String)
      → or_zero (find id m) ≤ n
      → or_zero (find j m) ≤ or_zero (find j (put id n m))
  put-le id n m j h = elim (Bool-cases (string_Eq.beq id j)) [
    | inl same ↦ rw (find-put j id n m, same, ← beq-eq id j same) h
    | inr other ↦ rw (find-put j id n m, other) (le_refl _)
  ]

  -- New marks, none below the old one.
  pub marks-Grows :
      (s : State J) (m : List (String × ℕ))
      → ((j : String) → or_zero (find j s.last_seen) ≤ or_zero (find j m))
      → Grows s (record s { last_seen = m })
  unfolding seen
  marks-Grows s m h = record { marks = h; reaches = λ id rec e. (rec, e, le_refl rec.last_seq) }

  -- A record that is not behind the one in its place.
  pub put-Grows :
      (s : State J) (id : String) (rec : SessionRecord)
      → ((cur : SessionRecord) → find id s.sessions ≡ some cur → cur.last_seq ≤ rec.last_seq)
      → Grows s (record s { sessions = put id rec s.sessions })
  unfolding seen
  put-Grows s id rec h = record {
    marks = λ j. le_refl _;
    reaches = λ j cur e. elim (Bool-cases (string_Eq.beq id j)) [
      | inl same ↦ (
        rec,
        find-put j id rec s.sessions ∙ rw same refl,
        h cur (ap (λ k. find k s.sessions) (beq-eq id j same) ∙ e),
      )
      | inr other ↦ (cur, find-put j id rec s.sessions ∙ rw other e, le_refl cur.last_seq)
    ];
  }

  pub if-Grows :
      {X : Type 0} (s : State J) (b : Bool) (c d : State J × X)
      → (b ≡ true → Grows s c.0)
      → (b ≡ false → Grows s d.0)
      → Grows s (if b then c else d).0
  if-Grows s true c d g h = g refl
  if-Grows s false c d g h = h refl

  pub mark_seen-Grows :
      (id : String) (s : State J) (ch : Changes) → Grows s (mark_seen null derived id (s, ch)).0
  unfolding mark_seen
  mark_seen-Grows id s ch = elim (Option-cases (find id s.sessions)) [
    | inl e ↦ rw (e, mark_seen) (Grows-same s s refl refl)
    | inr (rec, e) ↦
        let m = or_insert null derived id 0 s.last_seen in
        rw (e, mark_seen)
          (if-Grows s (ltb (or_zero (find id m)) rec.last_seq) _ _
            (λ b.
              Grows-then s (record s { last_seen = m }) _
                (marks-Grows s m (or_insert-le id 0 s.last_seen))
                (marks-Grows (record s { last_seen = m }) (put id rec.last_seq m)
                  (λ j. put-le id rec.last_seq m j (ground arith))))
            (λ b. marks-Grows s m (or_insert-le id 0 s.last_seen)))
  ]

  take_record-Grows :
      (rec : SessionRecord) (s : State J) (ch : Changes)
      → ((cur : SessionRecord) → find rec.id s.sessions ≡ some cur → cur.last_seq ≤ rec.last_seq)
      → Grows s (take_record null derived rec (s, ch)).0
  unfolding take_record
  take_record-Grows rec s ch h =
      let s' : State J = record s { sessions = put rec.id rec s.sessions } in
      if-Grows s (contains rec.id s.open_views) _ _
        (λ b. Grows-then s s' _ (put-Grows s rec.id rec h) (mark_seen-Grows rec.id s' ch))
        (λ b. put-Grows s rec.id rec h)

  pub upsert-Grows :
      (rec : SessionRecord) (s : State J) (ch : Changes)
      → Grows s (upsert null derived rec (s, ch)).0
  unfolding upsert
  upsert-Grows rec s ch = elim (Option-cases (find rec.id s.sessions)) [
    | inl e ↦
        rw (e, upsert)
          (Grows-then s s' _ first (take_record-Grows rec s' _ (λ cur f. absurd (cc (e, f)))))
    | inr (cur, e) ↦
        rw (e, upsert)
          (if-Grows s (ltb rec.last_seq cur.last_seq || derived.session_eq.beq cur rec) _ _
            (λ b. first)
            (λ b.
              if-Grows s
                (not (string_Eq.beq cur.project rec.project)
                  || not (cur.updated_at == rec.updated_at))
                (take_record null derived rec (s', record ch { projects = true }))
                (take_record null derived rec (s', ch))
                (λ c.
                  Grows-then s s' _ first
                    (take_record-Grows rec s' (record ch { projects = true }) (newer cur e b)))
                (λ c. Grows-then s s' _ first (take_record-Grows rec s' ch (newer cur e b)))))
  ]
    where
      s' : State J
      s' = record s {
        last_seen =
            or_insert null derived rec.id (if s.baselined then 0 else rec.last_seq) s.last_seen;
      }

      first : Grows s s'
      first =
          marks-Grows s _
            (or_insert-le rec.id (if s.baselined then 0 else rec.last_seq) s.last_seen)

      newer :
          (cur : SessionRecord)
          → find rec.id s.sessions ≡ some cur
          → (ltb rec.last_seq cur.last_seq || derived.session_eq.beq cur rec) ≡ false
          → (k : SessionRecord) → find rec.id s.sessions ≡ some k
          → k.last_seq ≤ rec.last_seq
      newer cur e b k f =
          subst (λ (r : SessionRecord). r.last_seq ≤ rec.last_seq) (same cur k (sym e ∙ f))
            (ground arith)
        where
          same : (a b : SessionRecord) → some a ≡ some b → a ≡ b
          same a b p = cc

  pub upsert_all-Grows :
      (recs : List SessionRecord) (s : State J) (ch : Changes)
      → Grows s (upsert_all null derived recs (s, ch)).0
  unfolding upsert_all
  upsert_all-Grows [] s ch = Grows-same s s refl refl
  upsert_all-Grows (rec ∷ recs) s ch =
      let c = upsert null derived rec (s, ch) in
      Grows-then s c.0 _ (upsert-Grows rec s ch) (upsert_all-Grows recs c.0 c.1)

  pub some-inj : (a b : SessionRecord) → some a ≡ some b → a ≡ b
  some-inj a b p = cc
