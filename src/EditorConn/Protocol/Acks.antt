-- ===== src/EditorConn/Protocol/Acks.antt =====
-- What the operations do to the two counters by which ends agree: the highest id acknowledged by
-- the peer, and the highest id received.
use darkpyonix_ember.Base.{ℕ, suc, ◌≤◌, ◌<◌, ◌≡◌, refl, ◌∙◌, false, List, [], ◌∷◌, arith, max}
use darkpyonix_ember.EditorConn.Frame.{
  Frame, MessageType, absent, regular, control, ack, disconnect, replay_request, pause, resume,
  keep_alive, empty, u32_mod,
}
use darkpyonix_ember.EditorConn.Protocol.{
  PersistentProtocol, emit, emit_all, send, send_control, send_disconnect, take_ack, rewritten,
  frames, replay, receive_regular, handle, receive, tick_ack, tick, send_keep_alive, end_reconnect,
}

-- Neither counter changes.
abbrev pub Steady : PersistentProtocol → PersistentProtocol → Type 0
Steady p q = (q.outgoing_ack_id ≡ p.outgoing_ack_id) × (q.incoming_msg_id ≡ p.incoming_msg_id)

emit-Steady : (p : PersistentProtocol) (f : Frame) → Steady p (emit p f).state
unfolding emit
emit-Steady p f = ground arith

emit_all-Steady : (p : PersistentProtocol) (fs : List Frame) → Steady p (emit_all p fs).state
unfolding emit_all
emit_all-Steady p [] = (refl, refl)
emit_all-Steady p (f ∷ fs) =
    let (a, i) = emit-Steady p f in
    let (a', i') = emit_all-Steady (emit p f).state fs in (a' ∙ a, i' ∙ i)

replay-Steady : (p : PersistentProtocol) (now : ℕ) → Steady p (replay p now).state
unfolding replay
replay-Steady p now =
    emit_all-Steady (record p { unacked = rewritten now p.unacked }) (frames p.unacked)

pub send-Steady :
    (p : PersistentProtocol) (payload : List ℕ) (now : ℕ) → Steady p (send p payload now).state
unfolding send
send-Steady p payload now = ground arith

pub send_control-Steady :
    (p : PersistentProtocol) (payload : List ℕ) → Steady p (send_control p payload).state
unfolding send_control
send_control-Steady p payload = ground arith

pub send_disconnect-Steady : (p : PersistentProtocol) → Steady p (send_disconnect p).state
unfolding send_disconnect
send_disconnect-Steady p = ground arith

pub tick-Steady : (p : PersistentProtocol) (now : ℕ) → Steady p (tick p now).0.state
unfolding tick tick_ack
tick-Steady p now = ground arith

pub send_keep_alive-Steady : (p : PersistentProtocol) → Steady p (send_keep_alive p).state
unfolding send_keep_alive
send_keep_alive-Steady p = ground arith

pub end_reconnect-Steady : (p : PersistentProtocol) (now : ℕ) → Steady p (end_reconnect p now).state
unfolding end_reconnect
end_reconnect-Steady p now =
    let live : PersistentProtocol = record p {
      reconnecting = false;
      incoming_ack_id = p.incoming_msg_id;
    } in
    let (a, i) = emit-Steady live (empty ack p.incoming_msg_id) in
    let (a', i') = replay-Steady (emit live (empty ack p.incoming_msg_id)).state now in
    (a' ∙ a, i' ∙ i)

-- `handle` sees the state in which the ack was taken; it may raise the received id.
abbrev Rises : PersistentProtocol → PersistentProtocol → Type 0
Rises p q = (q.outgoing_ack_id ≡ p.outgoing_ack_id) × (p.incoming_msg_id ≤ q.incoming_msg_id)

receive_regular-Rises :
    (p : PersistentProtocol) (f : Frame) (now : ℕ) → Rises p (receive_regular p f now).state
unfolding receive_regular
receive_regular-Rises p f now = ground arith

handle-Rises :
    (ty : MessageType) (p : PersistentProtocol) (f : Frame) (now : ℕ)
    → Rises p (handle ty p f now).state
unfolding handle
handle-Rises absent p f now = omega arith
handle-Rises ack p f now = omega arith
handle-Rises keep_alive p f now = omega arith
handle-Rises regular p f now = receive_regular-Rises p f now
handle-Rises control p f now = omega arith
handle-Rises disconnect p f now = omega arith
handle-Rises replay_request p f now = omega (arith, replay-Steady p now)
handle-Rises pause p f now = omega arith
handle-Rises resume p f now = omega arith

take_ack-max :
    (p : PersistentProtocol) (a : ℕ)
    → ((take_ack p a).outgoing_ack_id ≡ max p.outgoing_ack_id a)
      × ((take_ack p a).incoming_msg_id ≡ p.incoming_msg_id)
unfolding take_ack
take_ack-max p a = ground arith

-- A received frame raises the acknowledged id to its ack, and never lowers the received id.
pub receive_counters :
    (p : PersistentProtocol) (f : Frame) (now : ℕ)
    → ((receive p f now).state.outgoing_ack_id ≡ max p.outgoing_ack_id f.ack)
      × (p.incoming_msg_id ≤ (receive p f now).state.incoming_msg_id)
unfolding receive
receive_counters p f now = omega (
  arith,
  handle-Rises f.ty (take_ack (record p { last_read = now }) f.ack) f now,
  take_ack-max (record p { last_read = now }) f.ack,
)

regular_next :
    (p : PersistentProtocol) (f : Frame) (now : ℕ)
    → f.id ≤ suc p.incoming_msg_id
    → f.id < u32_mod
    → f.id ≤ (receive_regular p f now).state.incoming_msg_id
unfolding receive_regular
regular_next p f now h small = ground arith

-- The next regular frame, or an older one, leaves its id among those received.
pub receive_next :
    (p : PersistentProtocol) (f : Frame) (now : ℕ)
    → f.ty ≡ regular
    → f.id ≤ suc p.incoming_msg_id
    → f.id < u32_mod
    → f.id ≤ (receive p f now).state.incoming_msg_id
unfolding receive
receive_next p f now t h small =
    go f.ty t (take_ack (record p { last_read = now }) f.ack)
      (omega (arith, take_ack-max (record p { last_read = now }) f.ack))
  where
    go :
        (ty : MessageType)
        → ty ≡ regular
        → (q : PersistentProtocol) → f.id ≤ suc q.incoming_msg_id
        → f.id ≤ (handle ty q f now).state.incoming_msg_id
    go regular t q k = regular_next q f now k small
    go absent t q k = cc
    go ack t q k = cc
    go keep_alive t q k = cc
    go control t q k = cc
    go disconnect t q k = cc
    go replay_request t q k = cc
    go pause t q k = cc
    go resume t q k = cc
