-- ===== src/EditorConn/Protocol/Hears.antt =====
-- What one end hands to the layer above when it hears a frame of an honest peer.
use darkpyonix_ember.Base.{
  ℕ, suc, ◌+◌, ◌%◌, ◌≤◌, ◌<◌, ◌≡◌, refl, ap, subst, inl, inr, Bool, true, false, Option, none, some,
  List, [], ◌∷◌, length, get_elem?, All-map, arith, Bool-cases, if◌then◌else◌, ◌&&◌, ltb, ◌==◌,
}
use darkpyonix_ember.EditorConn.Frame.{
  Frame, MessageType, absent, regular, control, ack, disconnect, replay_request, pause, resume,
  keep_alive, empty, u32_mod,
}
use darkpyonix_ember.EditorConn.Protocol.{
  PersistentProtocol, Reaction, Inbound, message, handshake, closed, emit, emit_all, send,
  send_control, send_disconnect, frames, replay, receive_regular, handle, receive, tick_ack,
  ack_due, replay_due, tick, send_keep_alive,
}
use darkpyonix_ember.EditorConn.Protocol.Queue.{Carries, Honest, End}
use darkpyonix_ember.EditorConn.Protocol.Ends.{
  Honest-empty, Honest-hears, Kept, emit-Kept, if-Kept, replay-Kept,
}
use darkpyonix_ember.EditorConn.Protocol.Sends.{take_ack-End}

-- The message that an inbound value hands to the layer above, if it is one.
abbrev pub messages : Option Inbound → List (List ℕ)
messages none = []
messages (some (message payload)) = payload ∷ []
messages (some (handshake payload)) = []
messages (some closed) = []

-- What an end does that has had `got` messages of `peer`: it delivers no message, or the next one.
pub data Heard (sent : List (List ℕ)) (got : ℕ) (peer : List (List ℕ)) (r : Reaction) : Type 0 where
  nothing : Kept sent got r → messages r.inbound ≡ [] → Heard sent got peer r
  delivers :
      (payload : List ℕ)
      → Kept sent (suc got) r
      → messages r.inbound ≡ payload ∷ []
      → get_elem? peer got ≡ some payload
      → Heard sent got peer r

if-none :
    (b : Bool) (r s : Reaction)
    → r.inbound ≡ none
    → s.inbound ≡ none
    → (if b then r else s).inbound ≡ none
if-none true r s h k = h
if-none false r s h k = k

emit-none : (p : PersistentProtocol) (f : Frame) → (emit p f).inbound ≡ none
unfolding emit
emit-none p f = if-none p.paused _ _ refl refl

replay-none : (p : PersistentProtocol) (now : ℕ) → (replay p now).inbound ≡ none
unfolding replay
replay-none p now = go _ (frames p.unacked)
  where
    go : (q : PersistentProtocol) (fs : List Frame) → (emit_all q fs).inbound ≡ none
    go q [] = refl
    go q (f ∷ fs) = refl

pub send-none :
    (p : PersistentProtocol) (payload : List ℕ) (now : ℕ) → (send p payload now).inbound ≡ none
unfolding send
send-none p payload now = if-none p.reconnecting _ _ refl (emit-none _ _)

pub send_control-none :
    (p : PersistentProtocol) (payload : List ℕ) → (send_control p payload).inbound ≡ none
unfolding send_control
send_control-none p payload = emit-none _ _

pub send_disconnect-none : (p : PersistentProtocol) → (send_disconnect p).inbound ≡ none
unfolding send_disconnect
send_disconnect-none p = if-none p.did_send_disconnect _ _ refl refl

tick_ack-none : (p : PersistentProtocol) (now : ℕ) → (tick_ack p now).inbound ≡ none
unfolding tick_ack
tick_ack-none p now =
    if-none (ltb p.incoming_ack_id p.incoming_msg_id && ack_due p.last_incoming_regular now) _ _
      (emit-none (record p { incoming_ack_id = p.incoming_msg_id }) (empty ack p.incoming_msg_id))
      refl

pub tick-none : (p : PersistentProtocol) (now : ℕ) → (tick p now).0.inbound ≡ none
unfolding tick
tick-none p now = tick_ack-none p now

pub send_keep_alive-none : (p : PersistentProtocol) → (send_keep_alive p).inbound ≡ none
unfolding send_keep_alive
send_keep_alive-none p = emit-none _ _

module _ (sent : List (List ℕ)) (got : ℕ) (peer : List (List ℕ)) where
  receive_regular-Heard :
      (p : PersistentProtocol) (f : Frame) (now : ℕ)
      → suc got < u32_mod
      → f.ty ≡ regular
      → Carries peer f
      → End sent got p
      → Heard sent got peer (receive_regular p f now)
  unfolding receive_regular
  receive_regular-Heard p f now small t c v = elim (Bool-cases (ltb p.incoming_msg_id f.id)) [
    | inr old ↦ rw (old, receive_regular) (nothing (v, tt) refl)
    | inl fresh ↦
        rw (fresh, receive_regular)
          (elim (Bool-cases (f.id == (p.incoming_msg_id + 1) % u32_mod)) [
            | inl next ↦
                rw (next, receive_regular)
                  (let (i, e, g) = c t in
                    delivers f.payload
                      (
                        record {
                          sent_count = v.sent_count;
                          queue = v.queue;
                          queued =
                              All-map (Honest-hears sent got (suc got) (omega arith)) _ v.queued;
                          holding =
                              All-map (Honest-hears sent got (suc got) (omega arith)) _ v.holding;
                          got_count = ground (arith, v.got_count);
                          acked = omega (arith, v.acked);
                        },
                        tt,
                      )
                      refl
                      (subst (λ k. get_elem? peer k ≡ some f.payload) (ground (arith, v.got_count))
                        g))
            | inr gap ↦
                rw (gap, receive_regular)
                  (nothing
                    (if-Kept sent got (replay_due p.last_replay_request now) _ _
                      (emit-Kept sent got _ _
                        (record {
                          sent_count = v.sent_count;
                          queue = v.queue;
                          queued = v.queued;
                          holding = v.holding;
                          got_count = v.got_count;
                          acked = v.acked;
                        })
                        (Honest-empty sent got replay_request [] 0 (λ e. cc) (omega arith)))
                      (v, tt))
                    (ap messages
                      (if-none (replay_due p.last_replay_request now) _ _ (emit-none _ _) refl)))
          ])
  ]

  handle-Heard :
      (ty : MessageType) (p : PersistentProtocol) (f : Frame) (now : ℕ)
      → suc got < u32_mod
      → f.ty ≡ ty
      → Carries peer f
      → End sent got p
      → Heard sent got peer (handle ty p f now)
  unfolding handle
  handle-Heard absent p f now small t c v = nothing (v, tt) refl
  handle-Heard ack p f now small t c v = nothing (v, tt) refl
  handle-Heard keep_alive p f now small t c v = nothing (v, tt) refl
  handle-Heard regular p f now small t c v = receive_regular-Heard p f now small t c v
  handle-Heard control p f now small t c v = nothing (v, tt) refl
  handle-Heard disconnect p f now small t c v = nothing (v, tt) refl
  handle-Heard replay_request p f now small t c v =
      nothing (replay-Kept sent got p now v) (ap messages (replay-none p now))
  handle-Heard pause p f now small t c v =
      nothing
        (
          record {
            sent_count = v.sent_count;
            queue = v.queue;
            queued = v.queued;
            holding = v.holding;
            got_count = v.got_count;
            acked = v.acked;
          },
          tt,
        )
        refl
  handle-Heard resume p f now small t c v =
      nothing
        (
          record {
            sent_count = v.sent_count;
            queue = v.queue;
            queued = v.queued;
            holding = tt;
            got_count = v.got_count;
            acked = v.acked;
          },
          v.holding,
        )
        refl

  -- A frame of an honest peer, of which `got` messages were heard, delivers its next message or
  -- none, and the end that hears it stays in good order.
  pub receive-Heard :
      (p : PersistentProtocol) (f : Frame) (now gotᵖ : ℕ)
      → suc got < u32_mod
      → Honest peer gotᵖ f
      → gotᵖ ≤ length sent
      → End sent got p
      → Heard sent got peer (receive p f now)
  unfolding receive
  receive-Heard p f now gotᵖ small h le v = handle-Heard f.ty _ f now small refl h.0 (
      take_ack-End sent got _ f.ack (omega (arith, h.1)) (record {
        sent_count = v.sent_count;
        queue = v.queue;
        queued = v.queued;
        holding = v.holding;
        got_count = v.got_count;
        acked = v.acked;
      }))
