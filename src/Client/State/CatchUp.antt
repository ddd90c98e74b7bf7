-- ===== src/Client/State/CatchUp.antt =====
-- Once the events of a session have all arrived, pushed or fetched, its transcript is their replay.
use darkpyonix_ember.Base.{
  ◌≤◌, ◌+◌, ◌%◌, ◌^◌, ◌≡◌, refl, sym, ◌∙◌, ap, subst, inl, inr, true, none, some, List, [], ◌∷◌,
  ◌++◌, string_Eq, contains, find, Bool-cases, arith, beq-eq,
}
use Prim.Native.String.{String}
use darkpyonix_ember.Client.Wire.{StoredEvent, lists_member}
use darkpyonix_ember.Client.Transcript.{Transcript, new, apply_seq}
use darkpyonix_ember.Client.State.{
  State, Changes, Derived, Input, sessions_loaded, session_loaded, push, events_fetched, opened,
  closed_view, connection_changed, computers_loaded, projects_loaded, team_loaded, no_changes,
  upsert, upsert_all, on_events, put_team, unlink_session, on_projects, on_closed, dispatch, apply,
  no_change,
}
use darkpyonix_ember.Client.State.Same.{
  if-Same, upsert-Same, upsert_all-Same, put_team-Same, unlink_session-Same, derive-Same,
  on_projects-Same, on_closed-Same,
}
use darkpyonix_ember.Client.State.Seen.{applied}
use darkpyonix_ember.Client.Transcript.Replay.{offers, replayed, offers_complete}
use darkpyonix_ember.Client.Wire.{AgentEvent}
use darkpyonix_ember.Base.{ℕ, All, nat_Eq}
use darkpyonix_ember.Client.State.Feeds.{
  feed, Feeds, Same-Feeds, Feeds-then, of_session, on_events-mine, on_events-other, on_opened-Feeds,
  arriving, on_push-Feeds,
}

module _ {J : Type 0} (null : J) (derived : Derived) where
  dispatch-Feeds :
      (id : String) (input : Input J) (s : State J) (ch : Changes)
      → Feeds null derived id s
          (arriving null derived id input)
          (dispatch null derived input (s, ch)).0
  unfolding dispatch arriving
  dispatch-Feeds id (sessions_loaded list) s ch =
      let c = upsert_all null derived list (s, ch) in
      Same-Feeds null derived id s (dispatch null derived (sessions_loaded list) (s, ch)).0 (
        if-Same null derived s c.0.baselined c
          (record c.0 { baselined = true }, record c.1 { persist = true })
          (upsert_all-Same null derived list s ch) (upsert_all-Same null derived list s ch))
  dispatch-Feeds id (session_loaded rec) s ch =
      Same-Feeds null derived id s (upsert null derived rec (s, ch)).0
        (upsert-Same null derived rec s ch)
  dispatch-Feeds id (push p) s ch = on_push-Feeds null derived id p s ch
  dispatch-Feeds id (events_fetched k events) s ch = elim (Bool-cases (string_Eq.beq k id)) [
    | inl mine ↦
        rw (mine, arriving)
          (subst
            (λ j.
              Feeds null derived id s (of_session null derived id events)
                (on_events null derived j events (s, ch)).0)
            (sym (beq-eq k id mine)) (on_events-mine null derived id events s ch))
    | inr other ↦ rw (other, arriving) (on_events-other null derived id k events s ch other)
  ]
  dispatch-Feeds id (opened k) s ch = on_opened-Feeds null derived id k s ch
  dispatch-Feeds id (closed_view k) s ch =
      Same-Feeds null derived id s (on_closed null derived k (s, ch)).0
        (on_closed-Same null derived k s ch)
  dispatch-Feeds id (connection_changed conn) s ch =
      Same-Feeds null derived id s (dispatch null derived (connection_changed conn) (s, ch)).0
        (ground arith)
  dispatch-Feeds id (computers_loaded list) s ch =
      Same-Feeds null derived id s (dispatch null derived (computers_loaded list) (s, ch)).0
        (ground (arith, derive-Same null derived (record s { computers = list })))
  dispatch-Feeds id (projects_loaded list) s ch =
      Same-Feeds null derived id s (on_projects null derived list (s, ch)).0
        (on_projects-Same null derived list s ch)
  dispatch-Feeds id (team_loaded k none) s ch =
      Same-Feeds null derived id s (unlink_session null derived k (s, ch)).0
        (unlink_session-Same null derived k s ch)
  dispatch-Feeds id (team_loaded k (some team)) s ch =
      let c = unlink_session null derived k (s, ch) in
      Same-Feeds null derived id s (dispatch null derived (team_loaded k (some team)) (s, ch)).0 (
        if-Same null derived s (lists_member team.members k) (put_team null derived team (s, ch))
          (put_team null derived team c) (put_team-Same null derived team s ch)
          (put_team-Same null derived team c.0 c.1 ∙ unlink_session-Same null derived k s ch))

  apply-Feeds :
      (id : String) (s : State J) (input : Input J)
      → Feeds null derived id s (arriving null derived id input) (apply null derived s input).0
  unfolding apply
  apply-Feeds id s input t e =
      let c = dispatch null derived input (s, no_changes) in
      ap (find id) (
        if-Same null derived c.0 (no_change c.1) c
          (record c.0 { revision = (c.0.revision + 1) % 2 ^ 64 }, c.1) refl refl)
      ∙ dispatch-Feeds id input s no_changes t e

  -- The events that all the inputs bring for the session.
  unfoldable pub arrived : String → List (Input J) → List (StoredEvent J)
  arrived id [] = []
  arrived id (input ∷ inputs) = arriving null derived id input ++ arrived id inputs

  applied-Feeds :
      (id : String) (s : State J) (inputs : List (Input J))
      → Feeds null derived id s (arrived id inputs) (applied null derived s inputs)
  unfolding applied arrived
  applied-Feeds id s [] = Same-Feeds null derived id s s refl
  applied-Feeds id s (input ∷ inputs) =
      let u = (apply null derived s input).0 in
      Feeds-then null derived id s u (applied null derived u inputs)
        (arriving null derived id input) (arrived id inputs) (apply-Feeds id s input)
        (applied-Feeds id u inputs)

  abbrev pub numbers : List (StoredEvent J) → List ℕ
  numbers [] = []
  numbers (ev ∷ evs) = ev.seq ∷ numbers evs

  module _ (log : ℕ → AgentEvent J) (top : ℕ) where
    -- The event is the log's of its number.
    abbrev pub IsLogged : StoredEvent J → Type 0
    IsLogged ev = (ev.event ≡ log ev.seq) × (ev.seq ≤ top)

    feed-offers :
        (t : Transcript J) (evs : List (StoredEvent J))
        → All IsLogged evs
        → feed null derived t evs ≡ offers null log top t (numbers evs)
    unfolding feed offers
    feed-offers t [] h = refl
    feed-offers t (ev ∷ evs) h =
        ap (λ e. feed null derived (apply_seq null t ev.seq e).0 evs) h.0.0
        ∙ feed-offers (apply_seq null t ev.seq (log ev.seq)).0 evs h.1

    numbers-le : (evs : List (StoredEvent J)) → All IsLogged evs → All (λ n. n ≤ top) (numbers evs)
    numbers-le [] h = tt
    numbers-le (ev ∷ evs) h = (h.0.1, numbers-le evs h.1)

    -- Let a session have an empty transcript, and let any inputs follow, in any order. If the events
    -- that they bring for the session are those of its log, each with its number, and each from 1
    -- to `top` is among them, pushed or fetched, once or more often, then the session's transcript
    -- is the log applied in order.
    pub applied_replays :
        (s : State J) (inputs : List (Input J)) (id : String)
        → find id s.transcripts ≡ some new
        → All IsLogged (arrived id inputs)
        → ((n : ℕ) → 1 ≤ n → n ≤ top → contains n (numbers (arrived id inputs)) ≡ true)
        → find id (applied null derived s inputs).transcripts ≡ some (replayed null log top top)
    applied_replays s inputs id start logged all =
        applied-Feeds id s inputs new start
        ∙ ap some (
            feed-offers new (arrived id inputs) logged
            ∙ offers_complete null log top (numbers (arrived id inputs))
                (numbers-le (arrived id inputs) logged) all)
