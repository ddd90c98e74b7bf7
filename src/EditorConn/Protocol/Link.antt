-- ===== src/EditorConn/Protocol/Link.antt =====
-- Two ends of the persistent protocol over sockets that may break at any time. A run is a list of
-- what each end does, with the time, in the order in which it happens.
pub mod Delivery
pub mod CatchUp
mod Tests
use darkpyonix_ember.Base.{ℕ, List, [], ◌∷◌, ◌++◌, none, some, Option}
use darkpyonix_ember.EditorConn.Frame.{Frame}
use darkpyonix_ember.EditorConn.Protocol.{
  PersistentProtocol, Reaction, Inbound, new, silent, send, send_control, send_disconnect, receive,
  tick, send_keep_alive, begin_reconnect, end_reconnect,
}
use darkpyonix_ember.EditorConn.Protocol.Hears.{messages}

-- One end: its protocol, the frames on their way to it, the messages that its layer above has
-- sent, and those that were delivered to it.
pub record Side : Type 0 where
  pub proto : PersistentProtocol
  pub wire : List Frame
  pub sent : List (List ℕ)
  pub heard : List (List ℕ)

pub record Link : Type 0 where
  pub near : Side
  pub far : Side

abbrev pub flip : Link → Link
flip l = record { near = l.far; far = l.near }

abbrev fresh : ℕ → Side
fresh now = record { proto = new now; wire = []; sent = []; heard = [] }

-- Two new ends.
pub start : ℕ → Link
start now = record { near = fresh now; far = fresh now }

-- What an end can do: call an operation, take the next frame off its wire, or lose its wire with
-- the socket.
pub data Act : Type 0 where
  sends sends_control : List ℕ → Act
  disconnects ticks keeps_alive hears loses reconnects resumes : Act

-- The near end's reaction: its frames go onto the far end's wire.
abbrev pub reacts : Link → Reaction → Link
reacts l r = record {
  near = record {
    proto = r.state;
    wire = l.near.wire;
    sent = l.near.sent;
    heard = l.near.heard ++ messages r.inbound;
  };
  far = record {
    proto = l.far.proto;
    wire = l.far.wire ++ r.out;
    sent = l.far.sent;
    heard = l.far.heard;
  };
}

abbrev pub with_wire : Link → List Frame → Link
with_wire l w = record {
  near = record { proto = l.near.proto; wire = w; sent = l.near.sent; heard = l.near.heard };
  far = l.far;
}

abbrev pub with_sent : Link → List ℕ → Link
with_sent l payload = record {
  near = record {
    proto = l.near.proto;
    wire = l.near.wire;
    sent = l.near.sent ++ payload ∷ [];
    heard = l.near.heard;
  };
  far = l.far;
}

pub hear : Link → List Frame → ℕ → Link
hear l [] now = l
hear l (f ∷ rest) now = reacts (with_wire l rest) (receive l.near.proto f now)

pub act : Link → Act → ℕ → Link
unfolding hear
act l (sends payload) now = reacts (with_sent l payload) (send l.near.proto payload now)
act l (sends_control payload) now = reacts l (send_control l.near.proto payload)
act l disconnects now = reacts l (send_disconnect l.near.proto)
act l ticks now = reacts l (tick l.near.proto now).0
act l keeps_alive now = reacts l (send_keep_alive l.near.proto)
act l hears now = hear l l.near.wire now
act l loses now = with_wire l []
act l reconnects now = reacts l (silent (begin_reconnect l.near.proto now))
act l resumes now = reacts l (end_reconnect l.near.proto now)

pub data Event : Type 0 where
  near_does far_does : Act → ℕ → Event

pub step : Link → Event → Link
step l (near_does a now) = act l a now
step l (far_does a now) = flip (act (flip l) a now)

pub run : Link → List Event → Link
run l [] = l
run l (e ∷ es) = run (step l e) es
