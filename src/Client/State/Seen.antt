-- ===== src/Client/State/Seen.antt =====
-- What the user has seen, and how far each session is known to go, never falls back.
use darkpyonix_ember.Base.{
  ◌≤◌, ◌+◌, ◌%◌, ◌^◌, ◌≡◌, refl, sym, ◌∙◌, subst, inl, inr, true, false, Option, none, some, List,
  [], ◌∷◌, string_Eq, contains, find, put, ltb, if◌then◌else◌, Option-cases, arith, insert, remove,
}
use native.Mathlib.Nat.{le_refl}
use Prim.Native.String.{String}
use darkpyonix_ember.Client.Wire.{
  SessionStatus, SessionRecord, take_meta, Project, StoredEvent, TeamView, lists_member, Push,
  session_created, pushed_event, lagged, session_updated, project_updated, team_updated,
}
use darkpyonix_ember.Client.State.{
  State, Changes, Derived, Input, sessions_loaded, session_loaded, push, events_fetched, opened,
  closed_view, connection_changed, computers_loaded, projects_loaded, team_loaded, no_changes, seen,
  or_insert, mark_seen, upsert_all, with_event, event_record, event_transcript, on_event, on_events,
  put_team, unlink_session, derive_computer_projects, derive_all, put_sorted, on_project,
  on_projects, on_updated, on_push, on_opened, on_closed, dispatch, apply, derive_all, put_sorted,
  by_name, no_change,
}
use darkpyonix_ember.Client.State.Grows.{
  Grows, Grows-same, Grows-then, or_insert-le, marks-Grows, put-Grows, if-Grows, mark_seen-Grows,
  upsert-Grows, upsert_all-Grows, some-inj,
}

module _ {J : Type 0} (null : J) (derived : Derived) where
  event_record-Grows :
      (status : Option SessionStatus) (ev : StoredEvent J) (s : State J) (ch : Changes)
      → Grows null derived s (event_record null derived status ev (s, ch)).0
  unfolding event_record with_event
  event_record-Grows status ev s ch = elim (Option-cases (find ev.session_id s.sessions)) [
    | inl e ↦ rw (e, event_record) (Grows-same null derived s s refl refl)
    | inr (rec, e) ↦
        rw (e, event_record)
          (if-Grows null derived s (ltb rec.last_seq ev.seq) _ _
            (λ b.
              put-Grows null derived s ev.session_id (with_event null derived status ev rec)
                (λ cur f.
                  subst (λ (r : SessionRecord). r.last_seq ≤ ev.seq)
                    (some-inj null derived rec cur (sym e ∙ f)) (ground arith)))
            (λ b. Grows-same null derived s s refl refl))
  ]

  event_transcript-Grows :
      (ev : StoredEvent J) (s : State J) (ch : Changes)
      → Grows null derived s (event_transcript null derived ev (s, ch)).0
  unfolding event_transcript
  event_transcript-Grows ev s ch = elim (Option-cases (find ev.session_id s.transcripts)) [
    | inl e ↦ rw (e, event_transcript) (Grows-same null derived s s refl refl)
    | inr (t, e) ↦ rw (e, event_transcript) (Grows-same null derived s _ refl refl)
  ]

  on_event-Grows :
      (status : Option SessionStatus) (ev : StoredEvent J) (s : State J) (ch : Changes)
      → Grows null derived s (on_event null derived status ev (s, ch)).0
  unfolding on_event
  on_event-Grows status ev s ch =
      let c = event_record null derived status ev (s, ch) in
      let c' = event_transcript null derived ev c in
      let noted =
        Grows-then null derived s c.0 c'.0 (event_record-Grows status ev s ch)
          (event_transcript-Grows ev c.0 c.1) in
      if-Grows null derived s (contains ev.session_id c'.0.open_views)
        (mark_seen null derived ev.session_id c') c'
        (λ b.
          Grows-then null derived s c'.0 _ noted
            (mark_seen-Grows null derived ev.session_id c'.0 c'.1))
        (λ b. noted)

  on_events-Grows :
      (id : String) (evs : List (StoredEvent J)) (s : State J) (ch : Changes)
      → Grows null derived s (on_events null derived id evs (s, ch)).0
  unfolding on_events
  on_events-Grows id [] s ch = Grows-same null derived s s refl refl
  on_events-Grows id (ev ∷ evs) s ch =
      let mine = string_Eq.beq ev.session_id id in
      let c = if mine then on_event null derived none ev (s, ch) else (s, ch) in
      Grows-then null derived s c.0 _
        (if-Grows null derived s mine (on_event null derived none ev (s, ch)) (s, ch)
          (λ b. on_event-Grows none ev s ch) (λ b. Grows-same null derived s s refl refl))
        (on_events-Grows id evs c.0 c.1)

  put_team-Grows :
      (team : TeamView) (s : State J) (ch : Changes)
      → Grows null derived s (put_team null derived team (s, ch)).0
  unfolding put_team
  put_team-Grows team s ch = elim (Option-cases (find team.id s.teams)) [
    | inl e ↦ rw (e, put_team) (Grows-same null derived s _ refl refl)
    | inr (old, e) ↦
        rw (e, put_team)
          (if-Grows null derived s (derived.team_eq.beq old team) (s, ch) _
            (λ b. Grows-same null derived s s refl refl)
            (λ b. Grows-same null derived s _ refl refl))
  ]

  unlink_session-Grows :
      (id : String) (s : State J) (ch : Changes)
      → Grows null derived s (unlink_session null derived id (s, ch)).0
  unfolding unlink_session
  unlink_session-Grows id s ch = elim (Option-cases (find id s.team_of)) [
    | inl e ↦ rw (e, unlink_session) (Grows-same null derived s s refl refl)
    | inr (old, e) ↦ rw (e, unlink_session) (Grows-same null derived s _ refl refl)
  ]

  derive-Grows : (s : State J) → Grows null derived s (derive_computer_projects null derived s).0
  unfolding derive_computer_projects
  derive-Grows s =
      if-Grows null derived s s.projects_known
        (
          record s { computers = (derive_all null derived s.project_records s.computers).0 },
          (derive_all null derived s.project_records s.computers).1,
        )
        (s, false) (λ b. Grows-same null derived s _ refl refl)
        (λ b. Grows-same null derived s s refl refl)

  on_project-Grows :
      (project : Project) (s : State J) (ch : Changes)
      → Grows null derived s (on_project null derived project (s, ch)).0
  unfolding on_project
  on_project-Grows project s ch = elim (Option-cases (find project.name s.project_records)) [
    | inl e ↦
        rw (e, on_project)
          (Grows-then null derived s (fresh project s) _
            (Grows-same null derived s (fresh project s) refl refl)
            (derive-Grows (fresh project s)))
    | inr (old, e) ↦
        rw (e, on_project)
          (if-Grows null derived s (derived.project_eq.beq old project)
            (record s { projects_known = true }, ch) _ (λ b. Grows-same null derived s _ refl refl)
            (λ b.
              Grows-then null derived s (fresh project s) _
                (Grows-same null derived s (fresh project s) refl refl)
                (derive-Grows (fresh project s))))
  ]
    where
      fresh : Project → State J → State J
      fresh project s = record s {
        projects_known = true;
        project_records = put_sorted project.name project s.project_records;
      }

  on_projects-Grows :
      (list : List Project) (s : State J) (ch : Changes)
      → Grows null derived s (on_projects null derived list (s, ch)).0
  unfolding on_projects
  on_projects-Grows list s ch =
      let fresh : State J = record s { projects_known = true; project_records = by_name list [] } in
      Grows-then null derived s fresh _ (Grows-same null derived s fresh refl refl)
        (derive-Grows fresh)

  on_updated-Grows :
      (session : SessionRecord) (s : State J) (ch : Changes)
      → Grows null derived s (on_updated null derived session (s, ch)).0
  unfolding on_updated take_meta
  on_updated-Grows session s ch = elim (Option-cases (find session.id s.sessions)) [
    | inl e ↦ rw (e, on_updated) (Grows-same null derived s s refl refl)
    | inr (cur, e) ↦
        let rec = (take_meta cur session).0 in
        let s' : State J = record s { sessions = put session.id rec s.sessions } in
        let g : Grows null derived s s' = put-Grows null derived s session.id rec (λ k f.
          subst (λ (r : SessionRecord). r.last_seq ≤ cur.last_seq)
            (some-inj null derived cur k (sym e ∙ f)) (le_refl cur.last_seq)) in
        rw (e, on_updated)
          (if-Grows null derived s (take_meta cur session).1
            (
              s',
              record ch {
                projects = true;
                sessions = insert session.id ch.sessions;
                persist = true;
              },
            )
            (s', ch) (λ b. g) (λ b. g))
  ]

  on_push-Grows :
      (p : Push J) (s : State J) (ch : Changes)
      → Grows null derived s (on_push null derived p (s, ch)).0
  unfolding on_push
  on_push-Grows (session_created session) s ch = elim (Option-cases (find session.id s.sessions)) [
    | inl e ↦
        let s' : State J = record s {
          last_seen = or_insert null derived session.id 0 s.last_seen;
        } in
        rw (e, on_push)
          (Grows-then null derived s s' _
            (marks-Grows null derived s _ (or_insert-le null derived session.id 0 s.last_seen))
            (upsert-Grows null derived session s' ch))
    | inr (rec, e) ↦ rw (e, on_push) (upsert-Grows null derived session s ch)
  ]
  on_push-Grows (pushed_event status event) s ch = on_event-Grows (some status) event s ch
  on_push-Grows (lagged missed) s ch = Grows-same null derived s s refl refl
  on_push-Grows (session_updated session) s ch = on_updated-Grows session s ch
  on_push-Grows (project_updated project) s ch = on_project-Grows project s ch
  on_push-Grows (team_updated team) s ch = put_team-Grows team s ch

  on_opened-Grows :
      (id : String) (s : State J) (ch : Changes)
      → Grows null derived s (on_opened null derived id (s, ch)).0
  unfolding on_opened
  on_opened-Grows id s ch =
      Grows-then null derived s _ _ (Grows-same null derived s _ refl refl)
        (mark_seen-Grows null derived id _ ch)

  on_closed-Grows :
      (id : String) (s : State J) (ch : Changes)
      → Grows null derived s (on_closed null derived id (s, ch)).0
  unfolding on_closed
  on_closed-Grows id s ch =
      let s' : State J = record s { open_views = remove id s.open_views } in
      let c = mark_seen null derived id (s', ch) in
      if-Grows null derived s (contains id s.open_views)
        (c.0, record c.1 { sessions = insert id c.1.sessions }) (s, ch)
        (λ b.
          Grows-then null derived s s' _ (Grows-same null derived s s' refl refl)
            (mark_seen-Grows null derived id s' ch))
        (λ b. Grows-same null derived s s refl refl)

  dispatch-Grows :
      (input : Input J) (s : State J) (ch : Changes)
      → Grows null derived s (dispatch null derived input (s, ch)).0
  unfolding dispatch
  dispatch-Grows (sessions_loaded list) s ch =
      let c = upsert_all null derived list (s, ch) in
      let g = upsert_all-Grows null derived list s ch in
      if-Grows null derived s c.0.baselined c
        (record c.0 { baselined = true }, record c.1 { persist = true }) (λ b. g)
        (λ b. Grows-then null derived s c.0 _ g (Grows-same null derived c.0 _ refl refl))
  dispatch-Grows (session_loaded rec) s ch = upsert-Grows null derived rec s ch
  dispatch-Grows (push p) s ch = on_push-Grows p s ch
  dispatch-Grows (events_fetched id events) s ch = on_events-Grows id events s ch
  dispatch-Grows (opened id) s ch = on_opened-Grows id s ch
  dispatch-Grows (closed_view id) s ch = on_closed-Grows id s ch
  dispatch-Grows (connection_changed conn) s ch =
      if-Grows null derived s (derived.connection_eq.beq conn s.connection) (s, ch)
        (record s { connection = conn }, record ch { connection = true })
        (λ b. Grows-same null derived s s refl refl) (λ b. Grows-same null derived s _ refl refl)
  dispatch-Grows (computers_loaded list) s ch =
      let s' : State J = record s { computers = list } in
      if-Grows null derived s (derived.computers_eq.beq list s.computers) (s, ch)
        (
          (derive_computer_projects null derived s').0,
          record ch { computers = true; persist = true },
        )
        (λ b. Grows-same null derived s s refl refl)
        (λ b.
          Grows-then null derived s s' _ (Grows-same null derived s s' refl refl) (derive-Grows s'))
  dispatch-Grows (projects_loaded list) s ch = on_projects-Grows list s ch
  dispatch-Grows (team_loaded id none) s ch = unlink_session-Grows id s ch
  dispatch-Grows (team_loaded id (some team)) s ch =
      let c = unlink_session null derived id (s, ch) in
      if-Grows null derived s (lists_member team.members id) (put_team null derived team (s, ch))
        (put_team null derived team c) (λ b. put_team-Grows team s ch)
        (λ b.
          Grows-then null derived s c.0 _ (unlink_session-Grows id s ch)
            (put_team-Grows team c.0 c.1))

  apply-Grows :
      (s : State J) (input : Input J) → Grows null derived s (apply null derived s input).0
  unfolding apply
  apply-Grows s input =
      let c = dispatch null derived input (s, no_changes) in
      let g = dispatch-Grows input s no_changes in
      if-Grows null derived s (no_change c.1) c
        (record c.0 { revision = (c.0.revision + 1) % 2 ^ 64 }, c.1) (λ b. g)
        (λ b. Grows-then null derived s c.0 _ g (Grows-same null derived c.0 _ refl refl))

  -- Inputs one after the other.
  unfoldable pub applied : State J → List (Input J) → State J
  applied s [] = s
  applied s (input ∷ inputs) = applied (apply null derived s input).0 inputs

  applied-Grows : (s : State J) (inputs : List (Input J)) → Grows null derived s (applied s inputs)
  unfolding applied
  applied-Grows s [] = Grows-same null derived s s refl refl
  applied-Grows s (input ∷ inputs) =
      let t = (apply null derived s input).0 in
      Grows-then null derived s t _ (apply-Grows s input) (applied-Grows t inputs)

  -- Whatever inputs follow, in whatever order: the mark of what was seen in a session never falls,
  -- and a session that is known stays known and is never set back to an earlier last event.
  pub applied_moves_forward :
      (s : State J) (inputs : List (Input J)) (id : String) (rec : SessionRecord)
      → find id s.sessions ≡ some rec
      → (seen null derived s id ≤ seen null derived (applied s inputs) id)
        × ((rec' : SessionRecord) × (find id (applied s inputs).sessions ≡ some rec')
            × (rec.last_seq ≤ rec'.last_seq))
  applied_moves_forward s inputs id rec e =
      let g = applied-Grows s inputs in (g.marks id, g.reaches id rec e)
