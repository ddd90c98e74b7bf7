-- ===== src/Client/State/Same.antt =====
-- What leaves every transcript as it is.
use darkpyonix_ember.Base.{
  ◌≡◌, refl, ◌∙◌, true, false, Option, List, [], ◌∷◌, Bool, string_Eq, contains, put, if◌then◌else◌,
  arith, remove,
}
use Prim.Native.String.{String}
use darkpyonix_ember.Client.Wire.{SessionStatus, SessionRecord, Project, StoredEvent, TeamView}
use darkpyonix_ember.Client.State.{
  State, Changes, Derived, or_insert, mark_seen, take_record, upsert, upsert_all, event_record,
  put_team, unlink_session, derive_computer_projects, put_sorted, on_project, on_projects,
  on_updated, on_closed, by_name,
}

module _ {J : Type 0} (null : J) (derived : Derived) where
  -- The second state has the transcripts of the first.
  abbrev pub Same : State J → State J → Type 0
  Same s t = t.transcripts ≡ s.transcripts

  pub if-Same :
      {X : Type 0} (s : State J) (b : Bool) (c d : State J × X)
      → Same s c.0
      → Same s d.0
      → Same s (if b then c else d).0
  if-Same s true c d g h = g
  if-Same s false c d g h = h

  pub mark_seen-Same :
      (id : String) (s : State J) (ch : Changes) → Same s (mark_seen null derived id (s, ch)).0
  unfolding mark_seen
  mark_seen-Same id s ch = ground arith

  take_record-Same :
      (rec : SessionRecord) (s : State J) (ch : Changes)
      → Same s (take_record null derived rec (s, ch)).0
  unfolding take_record
  take_record-Same rec s ch =
      let s' : State J = record s { sessions = put rec.id rec s.sessions } in
      if-Same s (contains rec.id s.open_views) (mark_seen null derived rec.id (s', ch)) (s', ch)
        (mark_seen-Same rec.id s' ch) refl

  pub upsert-Same :
      (rec : SessionRecord) (s : State J) (ch : Changes)
      → Same s (upsert null derived rec (s, ch)).0
  unfolding upsert
  upsert-Same rec s ch =
      let s' : State J = record s {
        last_seen =
            or_insert null derived rec.id (if s.baselined then 0 else rec.last_seq) s.last_seen;
      } in
      ground
        (arith, take_record-Same rec s' (record ch { projects = true }), take_record-Same rec s' ch)

  pub upsert_all-Same :
      (recs : List SessionRecord) (s : State J) (ch : Changes)
      → Same s (upsert_all null derived recs (s, ch)).0
  unfolding upsert_all
  upsert_all-Same [] s ch = refl
  upsert_all-Same (rec ∷ recs) s ch =
      let c = upsert null derived rec (s, ch) in upsert_all-Same recs c.0 c.1 ∙ upsert-Same rec s ch

  pub event_record-Same :
      (status : Option SessionStatus) (ev : StoredEvent J) (s : State J) (ch : Changes)
      → Same s (event_record null derived status ev (s, ch)).0
  unfolding event_record
  event_record-Same status ev s ch = ground arith

  pub put_team-Same :
      (team : TeamView) (s : State J) (ch : Changes) → Same s (put_team null derived team (s, ch)).0
  unfolding put_team
  put_team-Same team s ch = ground arith

  pub unlink_session-Same :
      (id : String) (s : State J) (ch : Changes) → Same s (unlink_session null derived id (s, ch)).0
  unfolding unlink_session
  unlink_session-Same id s ch = ground arith

  pub derive-Same : (s : State J) → Same s (derive_computer_projects null derived s).0
  unfolding derive_computer_projects
  derive-Same s = ground arith

  pub on_project-Same :
      (project : Project) (s : State J) (ch : Changes)
      → Same s (on_project null derived project (s, ch)).0
  unfolding on_project
  on_project-Same project s ch = ground (
    arith,
    derive-Same (record s {
      projects_known = true;
      project_records = put_sorted project.name project s.project_records;
    }),
  )

  pub on_projects-Same :
      (list : List Project) (s : State J) (ch : Changes)
      → Same s (on_projects null derived list (s, ch)).0
  unfolding on_projects
  on_projects-Same list s ch =
      derive-Same (record s { projects_known = true; project_records = by_name list [] })

  pub on_updated-Same :
      (session : SessionRecord) (s : State J) (ch : Changes)
      → Same s (on_updated null derived session (s, ch)).0
  unfolding on_updated
  on_updated-Same session s ch = ground arith

  pub on_closed-Same :
      (id : String) (s : State J) (ch : Changes) → Same s (on_closed null derived id (s, ch)).0
  unfolding on_closed
  on_closed-Same id s ch =
      ground (arith, mark_seen-Same id (record s { open_views = remove id s.open_views }) ch)
