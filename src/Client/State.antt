-- ===== src/Client/State.antt =====
-- ember/client/src/state.rs: the client's view of the server, reduced from what the network says
-- and the user does. Every operation takes the state with the changes noted so far. A time or a
-- sequence number is a natural number. The equality that the source derives for a type is an
-- instance of `Eq`. A `BTreeMap` whose order matters is kept sorted by its keys.
mod Data
pub mod Grows
pub mod Seen
pub mod Same
pub mod Feeds
pub mod CatchUp
mod Tests
pub use Data.*
use darkpyonix_ember.Base.{
  ℕ, suc, ◌+◌, ◌%◌, ◌^◌, Bool, true, false, not, ◌&&◌, ◌||◌, Option, none, some, List, [], ◌∷◌,
  ◌++◌, Eq, string_Eq, contains, insert, remove, find, put, erase, ltb, ◌==◌, if◌then◌else◌,
}
use Prim.Native.String.{String}
use Prim.Native.String.{compare as string_compare}
use Prim.Native.Nat.{Ordering}
use darkpyonix_ember.Client.Wire.{
  SessionStatus, SessionRecord, take_meta, Project, StoredEvent, TeamView, TeamMember, lists_member,
  Push, AgentEvent, native_session, idle, running, waiting_for_approval, finished, failed_turn,
  unknown_status, session_created, pushed_event, lagged, session_updated, project_updated,
  team_updated,
}
use darkpyonix_ember.Client.Transcript.{Transcript, Applied, changed, duplicate, gap, apply_seq}
use darkpyonix_ember.Client.Transcript.{new as empty_transcript}

module _ {J : Type 0} (null : J) (derived : Derived) where
  abbrev pub Ctx : Type 0
  Ctx = State J × Changes

  unfoldable pub seen : State J → String → ℕ
  seen s id = or_zero (find id s.last_seen)

  unfoldable pub launcher_status : State J → SessionRecord → LauncherStatus
  launcher_status s rec = elim rec.status [
    | idle ↦ shows_idle
    | running ↦ shows_running
    | waiting_for_approval ↦ shows_waiting
    | finished ↦
        if ltb (seen s rec.id) rec.last_seq && not (contains rec.id s.open_views)
        then finished_unread
        else shows_finished
    | failed_turn ↦ shows_failed
    | unknown_status ↦ shows_unknown
  ]

  -- `last_seen.entry(id).or_insert(0)`.
  unfoldable pub or_insert : String → ℕ → List (String × ℕ) → List (String × ℕ)
  or_insert id n m = elim (find id m) [ some k ↦ m | none ↦ put id n m ]

  unfoldable pub mark_seen : String → Ctx → Ctx
  mark_seen id (s, ch) = elim (find id s.sessions) [
    | none ↦ (s, ch)
    | some rec ↦
        let m = or_insert id 0 s.last_seen in
        if ltb (or_zero (find id m)) rec.last_seq
        then (
          record s { last_seen = put id rec.last_seq m },
          record ch { sessions = insert id ch.sessions; persist = true },
        )
        else (record s { last_seen = m }, ch)
  ]

  -- Whether the transcript of an open session is behind the record.
  unfoldable pub is_behind : State J → String → ℕ → Bool
  is_behind s id seq = elim (find id s.transcripts) [ none ↦ false | some t ↦ ltb t.last_seq seq ]

  -- The record is taken: the end of `upsert`.
  unfoldable pub take_record : SessionRecord → Ctx → Ctx
  take_record rec (s, ch) =
      let s' : State J = record s { sessions = put rec.id rec s.sessions } in
      let (t, ch') =
        if contains rec.id s'.open_views then mark_seen rec.id (s', ch) else (s', ch) in
      let ch'' : Changes =
        if contains rec.id s'.open_views && is_behind t rec.id rec.last_seq
        then record ch' { resync = insert rec.id ch'.resync }
        else ch' in
      (t, record ch'' { sessions = insert rec.id ch''.sessions; persist = true })

  unfoldable pub upsert : SessionRecord → Ctx → Ctx
  upsert rec (s, ch) =
      let s' : State J = record s {
        last_seen = or_insert rec.id (if s.baselined then 0 else rec.last_seq) s.last_seen;
      } in
      elim (find rec.id s.sessions) [
        | none ↦ take_record rec (s', record ch { projects = true })
        | some cur ↦
            if ltb rec.last_seq cur.last_seq || derived.session_eq.beq cur rec
            then (s', ch)
            else if not (string_Eq.beq cur.project rec.project)
                || not (cur.updated_at == rec.updated_at)
            then take_record rec (s', record ch { projects = true })
            else take_record rec (s', ch)
      ]

  pub upsert_all : List SessionRecord → Ctx → Ctx
  upsert_all [] c = c
  upsert_all (rec ∷ recs) c = upsert_all recs (upsert rec c)

  -- A newer event's effect on the record of its session.
  unfoldable pub with_event : Option SessionStatus → StoredEvent J → SessionRecord → SessionRecord
  with_event status ev rec =
      let native : Option String = elim ev.event [
        | native_session id ↦ some id
        | _ ↦ rec.native_id
      ] in
      let st : SessionStatus = elim status [ none ↦ rec.status | some st ↦ st ] in
      record rec { last_seq = ev.seq; updated_at = ev.at; status = st; native_id = native }

  -- The record's part of `on_event`.
  unfoldable pub event_record : Option SessionStatus → StoredEvent J → Ctx → Ctx
  event_record status ev (s, ch) = elim (find ev.session_id s.sessions) [
    | none ↦ (s, record ch { resync_all = true })
    | some rec ↦
        if ltb rec.last_seq ev.seq
        then (
          record s { sessions = put ev.session_id (with_event status ev rec) s.sessions },
          record ch {
            projects = ch.projects || not (rec.updated_at == ev.at);
            sessions = insert ev.session_id ch.sessions;
            persist = true;
          },
        )
        else (s, ch)
  ]

  unfoldable pub note_applied : Bool → String → Applied → Changes → Changes
  note_applied is_open id changed ch = record ch { transcripts = insert id ch.transcripts }
  note_applied is_open id duplicate ch = ch
  note_applied is_open id (gap expected) ch =
      if is_open then record ch { resync = insert id ch.resync } else ch

  -- The transcript's part of `on_event`.
  unfoldable pub event_transcript : StoredEvent J → Ctx → Ctx
  event_transcript ev (s, ch) = elim (find ev.session_id s.transcripts) [
    | none ↦ (s, ch)
    | some t ↦
        let (t', applied) = apply_seq null t ev.seq ev.event in
        (
          record s { transcripts = put ev.session_id t' s.transcripts },
          note_applied (contains ev.session_id s.open_views) ev.session_id applied ch,
        )
  ]

  unfoldable pub on_event : Option SessionStatus → StoredEvent J → Ctx → Ctx
  on_event status ev c =
      let c' = event_transcript ev (event_record status ev c) in
      if contains ev.session_id c'.0.open_views then mark_seen ev.session_id c' else c'

  pub on_events : String → List (StoredEvent J) → Ctx → Ctx
  on_events id [] c = c
  on_events id (ev ∷ evs) c =
      on_events id evs (if string_Eq.beq ev.session_id id then on_event none ev c else c)

  unfoldable pub put_team : TeamView → Ctx → Ctx
  put_team team (s, ch) =
      let fresh : State J × Changes =
        (let (team_of, changed_teams) =
            point_members team.id team.members (keep_members team s.team_of, ch.teams) in
          (
            record s { team_of = team_of; teams = put team.id team s.teams },
            record ch { teams = insert team.id changed_teams },
          )) in
      elim (find team.id s.teams) [
        | none ↦ fresh
        | some old ↦ if derived.team_eq.beq old team then (s, ch) else fresh
      ]

  unfoldable pub unlink_session : String → Ctx → Ctx
  unlink_session id (s, ch) = elim (find id s.team_of) [
    | none ↦ (s, ch)
    | some old ↦
        (record s { team_of = erase id s.team_of }, record ch { teams = insert old ch.teams })
  ]

  -- The computers with their projects, and whether one changed.
  pub derive_all : List (String × Project) → List Computer → List Computer × Bool
  derive_all records [] = ([], false)
  derive_all records (c ∷ cs) =
      let (rest, changed_rest) = derive_all records cs in
      let names = assigned c.id records in
      if derived.names_eq.beq c.projects names
      then (c ∷ rest, changed_rest)
      else (record c { projects = names } ∷ rest, true)

  unfoldable pub derive_computer_projects : State J → State J × Bool
  derive_computer_projects s =
      let (cs, any) = derive_all s.project_records s.computers in
      if s.projects_known then (record s { computers = cs }, any) else (s, false)

  unfoldable pub on_project : Project → Ctx → Ctx
  on_project project (s, ch) =
      let known : State J = record s { projects_known = true } in
      let (t, any) =
        derive_computer_projects
          (record known { project_records = put_sorted project.name project s.project_records }) in
      let fresh : State J × Changes =
        (t, record ch { projects = true; persist = true; computers = ch.computers || any }) in
      elim (find project.name s.project_records) [
        | none ↦ fresh
        | some old ↦ if derived.project_eq.beq old project then (known, ch) else fresh
      ]

  unfoldable pub on_projects : List Project → Ctx → Ctx
  on_projects list (s, ch) =
      let fresh = by_name list [] in
      let same = derived.projects_eq.beq fresh s.project_records in
      let (t, any) =
        derive_computer_projects (record s { projects_known = true; project_records = fresh }) in
      let computers = ch.computers || any in
      (
        t,
        record ch {
          projects = ch.projects || not same;
          computers = computers;
          persist = ch.persist || not same || computers;
        },
      )

  unfoldable pub on_updated : SessionRecord → Ctx → Ctx
  on_updated session (s, ch) = elim (find session.id s.sessions) [
    | none ↦ (s, record ch { resync_all = true })
    | some cur ↦
        let (rec, any) = take_meta cur session in
        let s' : State J = record s { sessions = put session.id rec s.sessions } in
        if any
        then (
          s',
          record ch { projects = true; sessions = insert session.id ch.sessions; persist = true },
        )
        else (s', ch)
  ]

  unfoldable pub on_push : Push J → Ctx → Ctx
  on_push (session_created session) (s, ch) =
      let watched : State J = elim (find session.id s.sessions) [
        | none ↦ record s { last_seen = or_insert session.id 0 s.last_seen }
        | some rec ↦ s
      ] in
      upsert session (watched, ch)
  on_push (pushed_event status event) c = on_event (some status) event c
  on_push (lagged missed) (s, ch) = (s, record ch { resync_all = true })
  on_push (session_updated session) c = on_updated session c
  on_push (project_updated project) c = on_project project c
  on_push (team_updated team) c = put_team team c

  unfoldable pub on_opened : String → Ctx → Ctx
  on_opened id (s, ch) =
      let ts : List (String × Transcript J) = elim (find id s.transcripts) [
        | none ↦ put id empty_transcript s.transcripts
        | some t ↦ s.transcripts
      ] in
      let (t, ch') =
        mark_seen id (record s { open_views = insert id s.open_views; transcripts = ts }, ch) in
      (
        t,
        record ch' {
          sessions = insert id ch'.sessions;
          transcripts = insert id ch'.transcripts;
          resync = insert id ch'.resync;
        },
      )

  unfoldable pub on_closed : String → Ctx → Ctx
  on_closed id (s, ch) =
      let (t, ch') = mark_seen id (record s { open_views = remove id s.open_views }, ch) in
      if contains id s.open_views
      then (t, record ch' { sessions = insert id ch'.sessions })
      else (s, ch)

  -- The match of `apply`.
  unfoldable pub dispatch : Input J → Ctx → Ctx
  dispatch (sessions_loaded list) c =
      let (s, ch) = upsert_all list c in
      if s.baselined then (s, ch) else (record s { baselined = true }, record ch { persist = true })
  dispatch (session_loaded rec) c = upsert rec c
  dispatch (push p) c = on_push p c
  dispatch (events_fetched id events) c = on_events id events c
  dispatch (opened id) c = on_opened id c
  dispatch (closed_view id) c = on_closed id c
  dispatch (connection_changed conn) (s, ch) =
      if derived.connection_eq.beq conn s.connection
      then (s, ch)
      else (record s { connection = conn }, record ch { connection = true })
  dispatch (computers_loaded list) (s, ch) =
      if derived.computers_eq.beq list s.computers then (s, ch) else (
        (derive_computer_projects (record s { computers = list })).0,
        record ch { computers = true; persist = true },
      )
  dispatch (projects_loaded list) c = on_projects list c
  dispatch (team_loaded id none) c = unlink_session id c
  dispatch (team_loaded id (some team)) c =
      if lists_member team.members id then put_team team c else put_team team (unlink_session id c)

  unfoldable pub apply : State J → Input J → Ctx
  apply s input =
      let (t, ch) = dispatch input (s, no_changes) in
      if no_change ch then (t, ch) else (record t { revision = (t.revision + 1) % 2 ^ 64 }, ch)

  unfoldable pub from_cache : CacheSnapshot → State J
  from_cache c = record {
    sessions = by_id c.cached_sessions [];
    transcripts = [];
    open_views = [];
    last_seen = c.cached_seen;
    baselined = c.was_baselined;
    computers = c.cached_computers;
    project_records = by_name c.cached_projects [];
    projects_known = not (is_nil c.cached_projects);
    teams = [];
    team_of = [];
    connection = offline;
    revision = 0;
  }

  -- `session(id)`.
  unfoldable pub session_view : State J → String → Option SessionView
  session_view s id = elim (find id s.sessions) [
    | none ↦ none
    | some rec ↦ some (record {
      record_of = rec;
      shown_status = launcher_status s rec;
      is_shown = contains id s.open_views;
    })
  ]

  unfoldable pub project_computers : State J → String → List String
  project_computers s project = elim (find project s.project_records) [
    | none ↦ []
    | some p ↦ p.computers
  ]

  unfoldable pub team_for_session : State J → String → Option TeamView
  team_for_session s session_id = elim (find session_id s.team_of) [
    | none ↦ none
    | some team_id ↦ find team_id s.teams
  ]
