-- ===== src/EditorConn/Protocol/Ends.antt =====
-- Each operation of one end keeps the end in good order, and writes honest frames only.
use darkpyonix_ember.Base.{
  ℕ, ◌≤◌, ◌≡◌, refl, Bool, true, false, List, [], ◌∷◌, ◌++◌, get_elem?-append, All, All-append,
  All-map, arith, if◌then◌else◌,
}
use darkpyonix_ember.EditorConn.Frame.{
  Frame, MessageType, regular, control, ack, disconnect, keep_alive, empty,
}
use darkpyonix_ember.EditorConn.Protocol.{
  PersistentProtocol, Reaction, emit, emit_all, send_control, send_disconnect, frames, replay,
  tick_ack, tick, timed_out, send_keep_alive, begin_reconnect, end_reconnect,
}
use darkpyonix_ember.EditorConn.Protocol.Queue.{Honest, End, Numbered-rewritten, frames-rewritten}

pub Honest-grow :
    (sent more : List (List ℕ)) (got got' : ℕ)
    → got ≤ got'
    → (f : Frame) → Honest sent got f
    → Honest (sent ++ more) got' f
Honest-grow sent more got got' h f (c, a) =
    ((λ t. let (i, e, g) = c t in (i, e, get_elem?-append sent more i f.payload g)), omega arith)

pub Honest-hears :
    (sent : List (List ℕ)) (got got' : ℕ)
    → got ≤ got'
    → (f : Frame) → Honest sent got f
    → Honest sent got' f
Honest-hears sent got got' h f (c, a) = (c, omega arith)

-- A frame that is not regular carries no message.
pub Honest-empty :
    (sent : List (List ℕ)) (got : ℕ) (ty : MessageType) (payload : List ℕ) (a : ℕ)
    → (ty ≡ regular → ⊥)
    → a ≤ got
    → Honest sent got (record { ty = ty; id = 0; ack = a; payload = payload })
Honest-empty sent got ty payload a no_msg h = (λ t. absurd (no_msg t), h)

abbrev pub Kept : List (List ℕ) → ℕ → Reaction → Type 0
Kept sent got r = End sent got r.state × All (Honest sent got) r.out

pub End-grow :
    (sent : List (List ℕ)) (got got' : ℕ) (p : PersistentProtocol)
    → got ≤ got'
    → End sent got p
    → End sent got' (record p { incoming_msg_id = got' })
End-grow sent got got' p h v = record {
  sent_count = v.sent_count;
  queue = v.queue;
  queued = All-map (Honest-hears sent got got' h) (frames p.unacked) v.queued;
  holding = All-map (Honest-hears sent got got' h) p.held v.holding;
  got_count = refl;
  acked = omega (arith, v.acked);
}

module _ (sent : List (List ℕ)) (got : ℕ) where
  pub if-Kept :
      (b : Bool) (r s : Reaction)
      → Kept sent got r
      → Kept sent got s
      → Kept sent got (if b then r else s)
  if-Kept true r s h k = h
  if-Kept false r s h k = k

  if-End :
      (b : Bool) (p q : PersistentProtocol)
      → End sent got p
      → End sent got q
      → End sent got (if b then p else q)
  if-End true p q h k = h
  if-End false p q h k = k

  pub emit-Kept :
      (p : PersistentProtocol) (f : Frame)
      → End sent got p
      → Honest sent got f
      → Kept sent got (emit p f)
  unfolding emit
  emit-Kept p f v h =
      if-Kept p.paused _ _
        (
          record {
            sent_count = v.sent_count;
            queue = v.queue;
            queued = v.queued;
            holding = All-append (Honest sent got) p.held (f ∷ []) v.holding (h, tt);
            got_count = v.got_count;
            acked = v.acked;
          },
          tt,
        )
        (v, (h, tt))

  emit_all-Kept :
      (p : PersistentProtocol) (fs : List Frame)
      → End sent got p
      → All (Honest sent got) fs
      → Kept sent got (emit_all p fs)
  unfolding emit_all
  emit_all-Kept p [] v h = (v, tt)
  emit_all-Kept p (f ∷ fs) v h =
      let (v', one) = emit-Kept p f v h.0 in
      let (v'', others) = emit_all-Kept (emit p f).state fs v' h.1 in
      (v'', All-append (Honest sent got) (emit p f).out _ one others)

  pub replay-Kept :
      (p : PersistentProtocol) (now : ℕ) → End sent got p → Kept sent got (replay p now)
  unfolding replay
  replay-Kept p now v =
      emit_all-Kept _ (frames p.unacked)
        (record {
          sent_count = v.sent_count;
          queue = Numbered-rewritten now p.outgoing_ack_id p.unacked p.outgoing_msg_id v.queue;
          queued = rw (frames-rewritten now p.unacked) v.queued;
          holding = v.holding;
          got_count = v.got_count;
          acked = v.acked;
        })
        v.queued

  pub send_control-Kept :
      (p : PersistentProtocol) (payload : List ℕ)
      → End sent got p
      → Kept sent got (send_control p payload)
  unfolding send_control
  send_control-Kept p payload v =
      emit-Kept p _ v (Honest-empty sent got control payload 0 (λ e. cc) (omega arith))

  pub send_disconnect-Kept :
      (p : PersistentProtocol) → End sent got p → Kept sent got (send_disconnect p)
  unfolding send_disconnect
  send_disconnect-Kept p v =
      if-Kept p.did_send_disconnect _ _ (v, tt)
        (
          record {
            sent_count = v.sent_count;
            queue = v.queue;
            queued = v.queued;
            holding = v.holding;
            got_count = v.got_count;
            acked = v.acked;
          },
          (Honest-empty sent got disconnect [] 0 (λ e. cc) (omega arith), tt),
        )

  -- What was received is acknowledged now.
  End-acks :
      (p : PersistentProtocol)
      → End sent got p
      → End sent got (record p { incoming_ack_id = p.incoming_msg_id })
  End-acks p v = record {
    sent_count = v.sent_count;
    queue = v.queue;
    queued = v.queued;
    holding = v.holding;
    got_count = v.got_count;
    acked = omega (arith, v.got_count);
  }

  pub send_keep_alive-Kept :
      (p : PersistentProtocol) → End sent got p → Kept sent got (send_keep_alive p)
  unfolding send_keep_alive
  send_keep_alive-Kept p v =
      emit-Kept _ _ (End-acks p v) (
        Honest-empty sent got keep_alive [] p.incoming_msg_id (λ e. cc)
          (omega (arith, v.got_count)))

  tick_ack-Kept :
      (p : PersistentProtocol) (now : ℕ) → End sent got p → Kept sent got (tick_ack p now)
  unfolding tick_ack
  tick_ack-Kept p now v =
      if-Kept _ _ _
        (emit-Kept _ _ (End-acks p v)
          (Honest-empty sent got ack [] p.incoming_msg_id (λ e. cc) (omega (arith, v.got_count))))
        (v, tt)

  pub tick-Kept : (p : PersistentProtocol) (now : ℕ) → End sent got p → Kept sent got (tick p now).0
  unfolding tick
  tick-Kept p now v =
      let (v', acks) = tick_ack-Kept p now v in
      (
        if-End (timed_out (tick_ack p now).state now) _ _
            (record {
              sent_count = v'.sent_count;
              queue = v'.queue;
              queued = v'.queued;
              holding = v'.holding;
              got_count = v'.got_count;
              acked = v'.acked;
            })
            v',
        acks,
      )

  pub begin_reconnect-End :
      (p : PersistentProtocol) (now : ℕ) → End sent got p → End sent got (begin_reconnect p now)
  unfolding begin_reconnect
  begin_reconnect-End p now v = record {
    sent_count = v.sent_count;
    queue = v.queue;
    queued = v.queued;
    holding = tt;
    got_count = v.got_count;
    acked = v.acked;
  }

  pub end_reconnect-Kept :
      (p : PersistentProtocol) (now : ℕ) → End sent got p → Kept sent got (end_reconnect p now)
  unfolding end_reconnect
  end_reconnect-Kept p now v =
      let live : PersistentProtocol = record p {
        reconnecting = false;
        incoming_ack_id = p.incoming_msg_id;
      } in
      let first : Frame = empty ack p.incoming_msg_id in
      let (v', one) =
        emit-Kept live first
          (record {
            sent_count = v.sent_count;
            queue = v.queue;
            queued = v.queued;
            holding = v.holding;
            got_count = v.got_count;
            acked = omega (arith, v.got_count);
          })
          (Honest-empty sent got ack [] p.incoming_msg_id (λ e. cc) (omega (arith, v.got_count))) in
      let (v'', others) = replay-Kept (emit live first).state now v' in
      (v'', All-append (Honest sent got) (emit live first).out _ one others)
