-- ===== src/EditorConn/Protocol/Link/CatchUp.antt =====
-- After a reconnect nothing is missing: the replay brings the other end up to date.
use darkpyonix_ember.Base.{
  ℕ, zero, suc, ◌≤◌, ◌<◌, ◌≡◌, refl, ap, ◌∙◌, subst, All, none, List, [], ◌∷◌, ◌++◌, length, arith,
  Prefix, Prefix-whole, false,
}
use native.Mathlib.Nat.{le_refl}
use darkpyonix_ember.EditorConn.Frame.{Frame, empty, u32_mod, ack}
use darkpyonix_ember.EditorConn.Protocol.{
  PersistentProtocol, Unacked, receive, emit, emit_all, replay, end_reconnect, frames, rewritten,
  new, begin_reconnect,
}
use darkpyonix_ember.EditorConn.Protocol.Queue.{Numbered, Honest}
use darkpyonix_ember.EditorConn.Protocol.Acks.{
  Steady, receive_counters, receive_next, send-Steady, send_control-Steady, send_disconnect-Steady,
  tick-Steady, send_keep_alive-Steady, end_reconnect-Steady,
}
use darkpyonix_ember.EditorConn.Protocol.Link.{
  Link, Act, sends, sends_control, disconnects, ticks, keeps_alive, hears, loses, reconnects,
  resumes, Event, near_does, far_does, flip, start, reacts, hear, act, step, run,
}
use darkpyonix_ember.EditorConn.Protocol.Link.Delivery.{
  IsSound, IsSound-flip, HasRoom, step-IsSound, run-IsSound, start-IsSound,
}

-- Taking frames off a wire, one after the other.
absorb : PersistentProtocol → List Frame → ℕ → PersistentProtocol
absorb p [] now = p
absorb p (f ∷ fs) now = absorb (receive p f now).state fs now

absorb-append :
    (p : PersistentProtocol) (fs gs : List Frame) (now : ℕ)
    → absorb p (fs ++ gs) now ≡ absorb (absorb p fs now) gs now
unfolding absorb
absorb-append p [] gs now = refl
absorb-append p (f ∷ fs) gs now = absorb-append (receive p f now).state fs gs now

absorb_mono :
    (p : PersistentProtocol) (fs : List Frame) (now : ℕ)
    → p.incoming_msg_id ≤ (absorb p fs now).incoming_msg_id
unfolding absorb
absorb_mono p [] now = le_refl p.incoming_msg_id
absorb_mono p (f ∷ fs) now =
    omega (arith, receive_counters p f now, absorb_mono (receive p f now).state fs now)

-- A queue that starts at or below what was received brings its receiver up to its last id.
absorb-queue :
    (p : PersistentProtocol) (lo : ℕ) (us : List Unacked) (hi now : ℕ)
    → Numbered lo us hi
    → lo ≤ p.incoming_msg_id
    → hi < u32_mod
    → hi ≤ (absorb p (frames us) now).incoming_msg_id
unfolding absorb
absorb-queue p lo [] hi now q h small = omega arith
absorb-queue p lo (u ∷ us) hi now (t, e, q) h small =
    absorb-queue (receive p u.frame now).state (suc lo) us hi now q
      (omega (
        arith,
        receive_next p u.frame now t (omega arith) (omega (arith, Numbered-le (suc lo) us hi q)),
      ))
      small
  where
    Numbered-le : (lo : ℕ) (us : List Unacked) (hi : ℕ) → Numbered lo us hi → lo ≤ hi
    Numbered-le lo [] hi q = omega arith
    Numbered-le lo (u ∷ us) hi q = omega (arith, Numbered-le (suc lo) us hi q.2)

-- The far end takes `n` frames off its wire.
pub hearings : ℕ → ℕ → List Event
hearings zero now = []
hearings (suc n) now = far_does hears now ∷ hearings n now

hearings_lem :
    (l : Link) (w : List Frame) (now : ℕ)
    → l.far.wire ≡ w
    → ((run l (hearings (length w) now)).far.proto ≡ absorb l.far.proto w now)
      × ((run l (hearings (length w) now)).near.sent ≡ l.near.sent)
unfolding absorb hearings run step act hear
hearings_lem l [] now e = (refl, refl)
hearings_lem l (f ∷ w) now e =
    rw (e, hear)
      (hearings_lem
        (flip (
          reacts (record { near = record l.far { wire = w }; far = l.near })
            (receive l.far.proto f now)))
        w now refl)

-- Neither end believes more acknowledged than the other has received.
pub record IsAcked (l : Link) : Type 0 where
  pub near_ack : l.near.proto.outgoing_ack_id ≤ l.far.proto.incoming_msg_id
  pub far_ack : l.far.proto.outgoing_ack_id ≤ l.near.proto.incoming_msg_id

Steady-IsAcked :
    (l l' : Link)
    → Steady l.near.proto l'.near.proto
    → l'.far.proto ≡ l.far.proto
    → IsAcked l
    → IsAcked l'
Steady-IsAcked l l' s e v =
    let a = ap (λ p. p.outgoing_ack_id) e in
    let i = ap (λ p. p.incoming_msg_id) e in
    record { near_ack = omega (arith, v.near_ack); far_ack = omega (arith, v.far_ack) }

hear-IsAcked :
    (l : Link) (w : List Frame) (now : ℕ)
    → l.near.wire ≡ w
    → IsSound l
    → IsAcked l
    → IsAcked (hear l w now)
unfolding hear
hear-IsAcked l [] now e s v = v
hear-IsAcked l (f ∷ rest) now e s v =
    let honest = (subst (All (Honest l.far.sent (length l.far.heard))) e s.near_wire).0.1 in
    record {
      near_ack =
          omega
            (arith, honest, v.near_ack, s.far_end.got_count, receive_counters l.near.proto f now);
      far_ack = omega (arith, v.far_ack, receive_counters l.near.proto f now);
    }

act-IsAcked : (l : Link) (a : Act) (now : ℕ) → IsSound l → IsAcked l → IsAcked (act l a now)
unfolding act begin_reconnect
act-IsAcked l (sends payload) now s v =
    Steady-IsAcked l _ (send-Steady l.near.proto payload now) refl v
act-IsAcked l (sends_control payload) now s v =
    Steady-IsAcked l _ (send_control-Steady l.near.proto payload) refl v
act-IsAcked l disconnects now s v = Steady-IsAcked l _ (send_disconnect-Steady l.near.proto) refl v
act-IsAcked l ticks now s v = Steady-IsAcked l _ (tick-Steady l.near.proto now) refl v
act-IsAcked l keeps_alive now s v = Steady-IsAcked l _ (send_keep_alive-Steady l.near.proto) refl v
act-IsAcked l hears now s v = hear-IsAcked l l.near.wire now refl s v
act-IsAcked l loses now s v = Steady-IsAcked l _ (refl, refl) refl v
act-IsAcked l reconnects now s v = Steady-IsAcked l _ (refl, refl) refl v
act-IsAcked l resumes now s v = Steady-IsAcked l _ (end_reconnect-Steady l.near.proto now) refl v

step-IsAcked : (l : Link) (e : Event) → IsSound l → IsAcked l → IsAcked (step l e)
unfolding step
step-IsAcked l (near_does a now) s v = act-IsAcked l a now s v
step-IsAcked l (far_does a now) s v =
    let v' =
      act-IsAcked (flip l) a now (IsSound-flip l s)
        (record { near_ack = v.far_ack; far_ack = v.near_ack }) in
    record { near_ack = v'.far_ack; far_ack = v'.near_ack }

run-IsAcked :
    (l : Link) (es : List Event)
    → HasRoom (length es) l
    → IsSound l
    → IsAcked l
    → IsAcked (run l es)
unfolding run
run-IsAcked l [] room s v = v
run-IsAcked l (e ∷ es) room s v =
    let (s', room') = step-IsSound l e (length es) room s in
    run-IsAcked (step l e) es room' s' (step-IsAcked l e s v)

-- While the writer is not paused, what ends a reconnect writes an ack and then the whole queue.
emit-live :
    (p : PersistentProtocol) (f : Frame)
    → p.paused ≡ false
    → emit p f ≡ record { state = p; inbound = none; out = f ∷ [] }
unfolding emit
emit-live p f e = ground arith

emit_all-live :
    (p : PersistentProtocol) (fs : List Frame) → p.paused ≡ false → (emit_all p fs).out ≡ fs
unfolding emit_all
emit_all-live p [] e = refl
emit_all-live p (f ∷ fs) e =
    ap (λ r. r.out ++ (emit_all r.state fs).out) (emit-live p f e)
    ∙ ap (◌∷◌ f) (emit_all-live p fs e)

end_reconnect-out :
    (p : PersistentProtocol) (now : ℕ)
    → p.paused ≡ false
    → (end_reconnect p now).out ≡ empty ack p.incoming_msg_id ∷ frames p.unacked
unfolding end_reconnect
end_reconnect-out p now e =
    ap (λ r. r.out ++ (replay r.state now).out) (emit-live live (empty ack p.incoming_msg_id) e)
    ∙ ap (◌∷◌ (empty ack p.incoming_msg_id))
        (emit_all-live (record live { unacked = rewritten now p.unacked }) (frames p.unacked) e)
  where
    live : PersistentProtocol
    live = record p { reconnecting = false; incoming_ack_id = p.incoming_msg_id }

-- The run that follows a reconnect: the near end resumes, and the far end hears what is on its
-- wire.
pub resumed : Link → ℕ → Link
resumed l now = let l' = act l resumes now in run l' (hearings (length l'.far.wire) now)

hearings-length : (n now : ℕ) → length (hearings n now) ≡ n
unfolding hearings
hearings-length zero now = refl
hearings-length (suc n) now = ap suc (hearings-length n now)

-- The far end's counter after it took what the resuming near end wrote.
absorb-resumed :
    (l : Link) (now : ℕ)
    → IsSound l
    → IsAcked l
    → l.near.proto.paused ≡ false
    → length l.near.sent < u32_mod
    → length l.near.sent
      ≤ (absorb l.far.proto
          (l.far.wire ++ (end_reconnect l.near.proto now).out)
          now).incoming_msg_id
absorb-resumed l now s v e small =
    rw (end_reconnect-out l.near.proto now e, absorb-append l.far.proto l.far.wire)
      (unfold absorb in
        (omega (
          arith,
          s.near_end.sent_count,
          absorb-queue acked l.near.proto.outgoing_ack_id l.near.proto.unacked
              l.near.proto.outgoing_msg_id now s.near_end.queue
              (omega (
                arith,
                v.near_ack,
                absorb_mono l.far.proto l.far.wire now,
                receive_counters caught first now,
              ))
              (omega (arith, s.near_end.sent_count)),
        )))
  where
    caught : PersistentProtocol
    caught = absorb l.far.proto l.far.wire now

    first : Frame
    first = empty ack l.near.proto.incoming_msg_id

    acked : PersistentProtocol
    acked = (receive caught first now).state

resumed-heard :
    (l : Link) (now : ℕ)
    → IsSound l
    → IsAcked l
    → l.near.proto.paused ≡ false
    → HasRoom (suc (length (act l resumes now).far.wire)) l
    → (resumed l now).far.heard ≡ l.near.sent
unfolding resumed act step
resumed-heard l now s v e room =
    let l' = act l resumes now in
    let n = length l'.far.wire in
    let (s', room') = step-IsSound l (near_does resumes now) n room s in
    let final = run l' (hearings n now) in
    let sound = run-IsSound l' (hearings n now) (omega (arith, room', hearings-length n now)) s' in
    let (proto, sent) = hearings_lem l' l'.far.wire now refl in
    Prefix-whole final.far.heard l.near.sent (subst (Prefix final.far.heard) sent sound.far_heard) (
      omega (
        arith,
        sound.far_end.got_count,
        ap (λ p. p.incoming_msg_id) proto,
        absorb-resumed l now s v e (omega (arith, room)),
      ))

-- After any run of two new ends, however many sockets were lost in it: if an end ends its
-- reconnect while its writer is not paused, then once the other end has taken the frames on its
-- wire, that end has heard exactly the messages that were sent, in order. The run is short enough
-- for the 32-bit counters.
pub run_catches_up :
    (begun now : ℕ) (es : List Event)
    → length es < u32_mod
    → (run (start begun) es).near.proto.paused ≡ false
    → HasRoom
        (suc (length (act (run (start begun) es) resumes now).far.wire))
        (run (start begun) es)
    → (resumed (run (start begun) es) now).far.heard ≡ (run (start begun) es).near.sent
run_catches_up begun now es small e room =
    resumed-heard (run (start begun) es) now
      (run-IsSound (start begun) es first_room (start-IsSound begun))
      (run-IsAcked (start begun) es first_room (start-IsSound begun)
        (unfold start new in omega arith))
      e room
  where
    first_room : HasRoom (length es) (start begun)
    first_room = unfold start in (omega arith, omega arith)
