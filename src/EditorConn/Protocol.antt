-- ===== src/EditorConn/Protocol.antt =====
-- ember/editor-conn/src/protocol.rs: one end of the persistent protocol as a state machine. An
-- operation takes the state and the time and returns the new state with the frames to write.
-- Times are milliseconds; `now.duration_since(t)` is `now - t`, which stops at 0 as the source's
-- does. Message ids are `u32` and wrap as in a release build.
pub mod Queue
pub mod Ends
pub mod Sends
pub mod Hears
pub mod Acks
pub mod Link
mod Tests
use darkpyonix_ember.Base.{
  ℕ, ◌+◌, ◌-◌, ◌%◌, Bool, true, false, not, ◌&&◌, Option, none, some, List, [], ◌∷◌, ◌++◌, map, ltb,
  leb, ◌==◌, if◌then◌else◌,
}
use darkpyonix_ember.EditorConn.Frame.{
  Frame, MessageType, absent, regular, control, ack, disconnect, replay_request, pause, resume,
  keep_alive, empty, u32_mod,
}

abbrev pub acknowledge_time : ℕ
acknowledge_time = 2000

abbrev pub timeout_time : ℕ
timeout_time = 20_000

abbrev pub replay_request_interval : ℕ
replay_request_interval = 10_000

-- What an incoming frame means to the layer above.
pub data Inbound : Type 0 where
  message : List ℕ → Inbound
  handshake : List ℕ → Inbound
  closed : Inbound

pub record Unacked : Type 0 where
  pub frame : Frame
  pub written_at : Option ℕ

pub record PersistentProtocol : Type 0 where
  pub outgoing_msg_id : ℕ
  pub outgoing_ack_id : ℕ
  pub unacked : List Unacked
  pub incoming_msg_id : ℕ
  pub incoming_ack_id : ℕ
  pub last_incoming_regular : Option ℕ
  pub last_read : ℕ
  pub last_replay_request : Option ℕ
  pub last_timeout : ℕ
  pub reconnecting : Bool
  pub paused : Bool
  pub held : List Frame
  pub did_send_disconnect : Bool

unfoldable pub new : ℕ → PersistentProtocol
new now = record {
  outgoing_msg_id = 0;
  outgoing_ack_id = 0;
  unacked = [];
  incoming_msg_id = 0;
  incoming_ack_id = 0;
  last_incoming_regular = none;
  last_read = now;
  last_replay_request = none;
  last_timeout = now;
  reconnecting = false;
  paused = false;
  held = [];
  did_send_disconnect = false;
}

-- `outgoing_msg_id - outgoing_ack_id` as a `u32`.
unfoldable pub unacknowledged_count : PersistentProtocol → ℕ
unacknowledged_count p = (p.outgoing_msg_id + u32_mod - p.outgoing_ack_id) % u32_mod

-- The new state, what the layer above is told, and the frames to write.
pub record Reaction : Type 0 where
  pub state : PersistentProtocol
  pub inbound : Option Inbound
  pub out : List Frame

abbrev pub silent : PersistentProtocol → Reaction
silent p = record { state = p; inbound = none; out = [] }

-- `emit`, onto an output that is still empty.
unfoldable pub emit : PersistentProtocol → Frame → Reaction
emit p f =
    if p.paused
    then silent (record p { held = p.held ++ f ∷ [] })
    else record { state = p; inbound = none; out = f ∷ [] }

-- The loops that emit a list of frames.
unfoldable pub emit_all : PersistentProtocol → List Frame → Reaction
unfolding emit
emit_all p [] = silent p
emit_all p (f ∷ fs) =
    let r = emit p f in
    let r' = emit_all r.state fs in
    record { state = r'.state; inbound = none; out = r.out ++ r'.out }

unfoldable pub send : PersistentProtocol → List ℕ → ℕ → Reaction
unfolding emit
send p payload now =
    let id = (p.outgoing_msg_id + 1) % u32_mod in
    let frame : Frame = record {
      ty = regular;
      id = id;
      ack = p.incoming_msg_id;
      payload = payload;
    } in
    let p' = record p { outgoing_msg_id = id; incoming_ack_id = p.incoming_msg_id } in
    if p.reconnecting
    then silent
        (record p' { unacked = p.unacked ++ record { frame = frame; written_at = none } ∷ [] })
    else emit
        (record p' { unacked = p.unacked ++ record { frame = frame; written_at = some now } ∷ [] })
        frame

unfoldable pub send_control : PersistentProtocol → List ℕ → Reaction
unfolding emit
send_control p payload = emit p (record { ty = control; id = 0; ack = 0; payload = payload })

unfoldable pub send_disconnect : PersistentProtocol → Reaction
send_disconnect p = if p.did_send_disconnect then silent p else record {
  state = record p { did_send_disconnect = true };
  inbound = none;
  out = empty disconnect 0 ∷ [];
}

-- The queue is trimmed from its front.
unfoldable pub trim : ℕ → List Unacked → List Unacked
trim a [] = []
trim a (u ∷ us) = if leb u.frame.id a then trim a us else u ∷ us

unfoldable pub take_ack : PersistentProtocol → ℕ → PersistentProtocol
take_ack p a =
    if ltb p.outgoing_ack_id a
    then record p { outgoing_ack_id = a; unacked = trim a p.unacked }
    else p

unfoldable pub replay_due : Option ℕ → ℕ → Bool
replay_due none now = true
replay_due (some t) now = ltb replay_request_interval (now - t)

unfoldable pub rewritten : ℕ → List Unacked → List Unacked
rewritten now [] = []
rewritten now (u ∷ us) = record u { written_at = some now } ∷ rewritten now us

abbrev pub frames : List Unacked → List Frame
frames = map λ u. u.frame

-- Every unacknowledged frame again, as `ReplayRequest` and `end_reconnect` write them.
unfoldable pub replay : PersistentProtocol → ℕ → Reaction
unfolding emit_all
replay p now = emit_all (record p { unacked = rewritten now p.unacked }) (frames p.unacked)

unfoldable pub receive_regular : PersistentProtocol → Frame → ℕ → Reaction
unfolding emit replay_due
receive_regular p f now =
    if ltb p.incoming_msg_id f.id
    then (if f.id == (p.incoming_msg_id + 1) % u32_mod
        then record {
          state = record p { incoming_msg_id = f.id; last_incoming_regular = some now };
          inbound = some (message f.payload);
          out = [];
        }
        else if replay_due p.last_replay_request now
        then emit (record p { last_replay_request = some now }) (empty replay_request 0)
        else silent p)
    else silent p

-- The match on the frame's type.
unfoldable pub handle : MessageType → PersistentProtocol → Frame → ℕ → Reaction
unfolding receive_regular replay
handle absent p f now = silent p
handle ack p f now = silent p
handle keep_alive p f now = silent p
handle regular p f now = receive_regular p f now
handle control p f now = record { state = p; inbound = some (handshake f.payload); out = [] }
handle disconnect p f now = record { state = p; inbound = some closed; out = [] }
handle replay_request p f now = replay p now
handle pause p f now = silent (record p { paused = true })
handle resume p f now = record {
  state = record p { paused = false; held = [] };
  inbound = none;
  out = p.held;
}

unfoldable pub receive : PersistentProtocol → Frame → ℕ → Reaction
unfolding take_ack handle
receive p f now = handle f.ty (take_ack (record p { last_read = now }) f.ack) f now

ack_due : Option ℕ → ℕ → Bool
ack_due none now = false
ack_due (some t) now = leb acknowledge_time (now - t)

-- The part of `tick` that acknowledges.
unfoldable pub tick_ack : PersistentProtocol → ℕ → Reaction
unfolding emit ack_due
tick_ack p now =
    if ltb p.incoming_ack_id p.incoming_msg_id && ack_due p.last_incoming_regular now
    then emit (record p { incoming_ack_id = p.incoming_msg_id }) (empty ack p.incoming_msg_id)
    else silent p

unfoldable pub timed_out : PersistentProtocol → ℕ → Bool
timed_out p now =
    not p.reconnecting
    && (leb timeout_time (now - p.last_read) && leb timeout_time (now - p.last_timeout))

-- The reaction, and whether the socket is taken for dead.
unfoldable pub tick : PersistentProtocol → ℕ → Reaction × Bool
unfolding tick_ack timed_out
tick p now =
    let r = tick_ack p now in
    let dead = timed_out r.state now in
    (record r { state = if dead then record (r.state) { last_timeout = now } else r.state }, dead)

unfoldable pub send_keep_alive : PersistentProtocol → Reaction
unfolding emit
send_keep_alive p =
    emit (record p { incoming_ack_id = p.incoming_msg_id }) (empty keep_alive p.incoming_msg_id)

unfoldable pub begin_reconnect : PersistentProtocol → ℕ → PersistentProtocol
begin_reconnect p now = record p {
  reconnecting = true;
  paused = false;
  held = [];
  last_replay_request = none;
  last_read = now;
  last_timeout = now;
}

unfoldable pub end_reconnect : PersistentProtocol → ℕ → Reaction
unfolding emit replay
end_reconnect p now =
    let r =
      emit (record p { reconnecting = false; incoming_ack_id = p.incoming_msg_id })
        (empty ack p.incoming_msg_id) in
    let r' = replay r.state now in
    record { state = r'.state; inbound = none; out = r.out ++ r'.out }
