-- ===== src/Client/State/Feeds.antt =====
-- The transcript of a session is fed by the events that arrive for it, and by nothing else.
use darkpyonix_ember.Base.{
  ◌≡◌, refl, sym, ◌∙◌, ap, subst, inl, inr, true, false, Option, none, some, List, [], ◌∷◌, ◌++◌,
  string_Eq, contains, find, put, if◌then◌else◌, Option-cases, Bool-cases, insert, find-put, beq-eq,
}
use Prim.Native.String.{String}
use darkpyonix_ember.Client.Wire.{
  SessionStatus, StoredEvent, Push, session_created, pushed_event, lagged, session_updated,
  project_updated, team_updated,
}
use darkpyonix_ember.Client.Transcript.{Transcript, new, apply_seq}
use darkpyonix_ember.Client.State.{
  State, Changes, Derived, Input, push, events_fetched, or_insert, mark_seen, event_record,
  event_transcript, on_event, on_events, put_team, on_project, on_updated, on_push, on_opened,
}
use darkpyonix_ember.Client.State.Same.{
  Same, if-Same, mark_seen-Same, upsert-Same, event_record-Same, put_team-Same, on_project-Same,
  on_updated-Same,
}

module _ {J : Type 0} (null : J) (derived : Derived) where
  -- The events, in their order, offered to a transcript.
  unfoldable pub feed : Transcript J → List (StoredEvent J) → Transcript J
  feed t [] = t
  feed t (ev ∷ evs) = feed (apply_seq null t ev.seq ev.event).0 evs

  feed-append :
      (t : Transcript J) (xs ys : List (StoredEvent J)) → feed t (xs ++ ys) ≡ feed (feed t xs) ys
  unfolding feed
  feed-append t [] ys = refl
  feed-append t (ev ∷ xs) ys = feed-append (apply_seq null t ev.seq ev.event).0 xs ys

  -- From the first state to the second, a transcript of the session is fed the events.
  abbrev pub Feeds : String → State J → List (StoredEvent J) → State J → Type 0
  Feeds id s evs u =
      (t : Transcript J)
      → find id s.transcripts ≡ some t
      → find id u.transcripts ≡ some (feed t evs)

  pub Same-Feeds : (id : String) (s u : State J) → Same null derived s u → Feeds id s [] u
  unfolding feed
  Same-Feeds id s u same t e = ap (find id) same ∙ e

  pub Feeds-then :
      (id : String) (s u w : State J) (xs ys : List (StoredEvent J))
      → Feeds id s xs u
      → Feeds id u ys w
      → Feeds id s (xs ++ ys) w
  Feeds-then id s u w xs ys f g t e = g (feed t xs) (f t e) ∙ ap some (sym (feed-append t xs ys))

  -- The events of a list that belong to the session.
  unfoldable pub of_session : String → List (StoredEvent J) → List (StoredEvent J)
  of_session id [] = []
  of_session id (ev ∷ evs) =
      let rest = of_session id evs in if string_Eq.beq ev.session_id id then ev ∷ rest else rest

  event_transcript-Feeds :
      (id : String) (ev : StoredEvent J) (s : State J) (ch : Changes)
      → Feeds id s (of_session id (ev ∷ [])) (event_transcript null derived ev (s, ch)).0
  unfolding event_transcript of_session feed
  event_transcript-Feeds id ev s ch t e = elim (Bool-cases (string_Eq.beq ev.session_id id)) [
    | inl mine ↦
        let found : find ev.session_id s.transcripts ≡ some t =
          ap (λ k. find k s.transcripts) (beq-eq ev.session_id id mine) ∙ e in
        rw (mine, found, event_transcript)
          (find-put id ev.session_id (apply_seq null t ev.seq ev.event).0 s.transcripts
            ∙ rw mine refl)
    | inr other ↦ elim (Option-cases (find ev.session_id s.transcripts)) [
      | inl gone ↦ rw (other, gone, event_transcript) e
      | inr (t', found) ↦
          rw (other, found, event_transcript)
            (find-put id ev.session_id (apply_seq null t' ev.seq ev.event).0 s.transcripts
              ∙ rw other e)
    ]
  ]

  on_event-Feeds :
      (id : String) (status : Option SessionStatus) (ev : StoredEvent J) (s : State J)
      (ch : Changes)
      → Feeds id s (of_session id (ev ∷ [])) (on_event null derived status ev (s, ch)).0
  unfolding on_event
  on_event-Feeds id status ev s ch t e =
      let c = event_record null derived status ev (s, ch) in
      let c' = event_transcript null derived ev c in
      let marked =
        if-Same null derived c'.0 (contains ev.session_id c'.0.open_views)
          (mark_seen null derived ev.session_id c') c'
          (mark_seen-Same null derived ev.session_id c'.0 c'.1) refl in
      ap (find id) marked
      ∙ event_transcript-Feeds id ev c.0 c.1 t
          (ap (find id) (event_record-Same null derived status ev s ch) ∙ e)

  of_session-other :
      (id k : String) (ev : StoredEvent J)
      → string_Eq.beq k id ≡ false
      → string_Eq.beq ev.session_id k ≡ true
      → of_session id (ev ∷ []) ≡ []
  unfolding of_session
  of_session-other id k ev other theirs =
      let not_mine : string_Eq.beq ev.session_id id ≡ false =
        ap (λ j. string_Eq.beq j id) (beq-eq ev.session_id k theirs) ∙ other in
      rw not_mine refl

  pub on_events-mine :
      (id : String) (evs : List (StoredEvent J)) (s : State J) (ch : Changes)
      → Feeds id s (of_session id evs) (on_events null derived id evs (s, ch)).0
  unfolding on_events of_session
  on_events-mine id [] s ch = Same-Feeds id s s refl
  on_events-mine id (ev ∷ evs) s ch = elim (Bool-cases (string_Eq.beq ev.session_id id)) [
    | inl mine ↦
        let c = on_event null derived none ev (s, ch) in
        let first : Feeds id s (ev ∷ []) c.0 =
          rw (mine, of_session) at (on_event-Feeds id none ev s ch) in
        rw (mine, on_events, of_session)
          (Feeds-then id s c.0 (on_events null derived id evs c).0 (ev ∷ []) (of_session id evs)
            first (on_events-mine id evs c.0 c.1))
    | inr other ↦ rw (other, on_events, of_session) (on_events-mine id evs s ch)
  ]

  pub on_events-other :
      (id k : String) (evs : List (StoredEvent J)) (s : State J) (ch : Changes)
      → string_Eq.beq k id ≡ false
      → Feeds id s [] (on_events null derived k evs (s, ch)).0
  unfolding on_events
  on_events-other id k [] s ch other = Same-Feeds id s s refl
  on_events-other id k (ev ∷ evs) s ch other = elim (Bool-cases (string_Eq.beq ev.session_id k)) [
    | inl theirs ↦
        let c = on_event null derived none ev (s, ch) in
        let first : Feeds id s [] c.0 =
          subst (λ xs. Feeds id s xs c.0) (of_session-other id k ev other theirs)
            (on_event-Feeds id none ev s ch) in
        rw (theirs, on_events)
          (Feeds-then id s c.0 (on_events null derived k evs c).0 [] [] first
            (on_events-other id k evs c.0 c.1 other))
    | inr skipped ↦ rw (skipped, on_events) (on_events-other id k evs s ch other)
  ]

  pub on_opened-Feeds :
      (id k : String) (s : State J) (ch : Changes)
      → Feeds id s [] (on_opened null derived k (s, ch)).0
  unfolding on_opened feed
  on_opened-Feeds id k s ch t e = elim (Option-cases (find k s.transcripts)) [
    | inr (t', found) ↦
        let u : State J = record s { open_views = insert k s.open_views } in
        rw (found, on_opened) (ap (find id) (mark_seen-Same null derived k u ch) ∙ e)
    | inl gone ↦
        let u : State J = record s {
          open_views = insert k s.open_views;
          transcripts = put k new s.transcripts;
        } in
        let other : string_Eq.beq k id ≡ false = elim (Bool-cases (string_Eq.beq k id)) [
          | inl same ↦ absurd (cc (gone, ap (λ j. find j s.transcripts) (beq-eq k id same), e))
          | inr differs ↦ differs
        ] in
        rw (gone, on_opened)
          (ap (find id) (mark_seen-Same null derived k u ch)
            ∙ (find-put id k new s.transcripts ∙ rw other e))
  ]

  -- The events that an input brings for the session.
  unfoldable pub arriving : String → Input J → List (StoredEvent J)
  arriving id (push (pushed_event status ev)) = of_session id (ev ∷ [])
  arriving id (push p) = []
  arriving id (events_fetched k evs) = if string_Eq.beq k id then of_session id evs else []
  arriving id input = []

  pub on_push-Feeds :
      (id : String) (p : Push J) (s : State J) (ch : Changes)
      → Feeds id s (arriving id (push p)) (on_push null derived p (s, ch)).0
  unfolding on_push arriving
  on_push-Feeds id (session_created session) s ch =
      Same-Feeds id s (on_push null derived (session_created session) (s, ch)).0
        (elim (Option-cases (find session.id s.sessions)) [
          | inl e ↦
              let u : State J = record s {
                last_seen = or_insert null derived session.id 0 s.last_seen;
              } in
              rw (e, on_push) (upsert-Same null derived session u ch)
          | inr (rec, e) ↦ rw (e, on_push) (upsert-Same null derived session s ch)
        ])
  on_push-Feeds id (pushed_event status event) s ch = on_event-Feeds id (some status) event s ch
  on_push-Feeds id (lagged missed) s ch = Same-Feeds id s s refl
  on_push-Feeds id (session_updated session) s ch =
      Same-Feeds id s (on_updated null derived session (s, ch)).0
        (on_updated-Same null derived session s ch)
  on_push-Feeds id (project_updated project) s ch =
      Same-Feeds id s (on_project null derived project (s, ch)).0
        (on_project-Same null derived project s ch)
  on_push-Feeds id (team_updated team) s ch =
      Same-Feeds id s (put_team null derived team (s, ch)).0 (put_team-Same null derived team s ch)
