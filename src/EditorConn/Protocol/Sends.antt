-- ===== src/EditorConn/Protocol/Sends.antt =====
-- Sending a message, and taking an acknowledgement of one.
use darkpyonix_ember.Base.{
  ℕ, suc, ◌+◌, ◌%◌, ◌≤◌, ◌<◌, ◌≡◌, refl, ◌∙◌, subst, inl, inr, Option, none, some, List, [], ◌∷◌,
  ◌++◌, length, get_elem?-append_self, All, All-append, All-map, arith, Bool-cases, length-append,
  ltb,
}
use native.Mathlib.Nat.{le_refl}
use darkpyonix_ember.EditorConn.Frame.{Frame, regular, u32_mod}
use darkpyonix_ember.EditorConn.Protocol.{PersistentProtocol, send, take_ack, frames}
use darkpyonix_ember.EditorConn.Protocol.Queue.{
  Numbered, Honest, End, Numbered-send, Numbered-trim, frames-append, All-trim,
}
use darkpyonix_ember.EditorConn.Protocol.Ends.{Honest-grow, Kept, emit-Kept, if-Kept}

module _ (sent : List (List ℕ)) (got : ℕ) where
  -- Sending gives the message the next number, and every frame of it carries that message.
  pub send-Kept :
      (p : PersistentProtocol) (payload : List ℕ) (now : ℕ)
      → suc (length sent) < u32_mod
      → End sent got p
      → Kept (sent ++ payload ∷ []) got (send p payload now)
  unfolding send
  send-Kept p payload now small v =
      if-Kept sent' got p.reconnecting _ _ (queued none, tt)
        (emit-Kept sent' got _ frame (queued (some now)) honest)
    where
      sent' : List (List ℕ)
      sent' = sent ++ payload ∷ []

      id : ℕ
      id = (p.outgoing_msg_id + 1) % u32_mod

      id_lem : id ≡ suc (length sent)
      id_lem = omega (arith, v.sent_count)

      frame : Frame
      frame = record { ty = regular; id = id; ack = p.incoming_msg_id; payload = payload }

      grow : (fs : List Frame) → All (Honest sent got) fs → All (Honest sent' got) fs
      grow = All-map (Honest-grow sent (payload ∷ []) got got (le_refl got))

      honest : Honest sent' got frame
      honest = (
        (λ t. (length sent, id_lem, get_elem?-append_self sent payload)),
        omega (arith, v.got_count),
      )

      queued :
          (at : Option ℕ)
          → End sent' got (record p {
            outgoing_msg_id = id;
            incoming_ack_id = p.incoming_msg_id;
            unacked = p.unacked ++ record { frame = frame; written_at = at } ∷ [];
          })
      queued at = record {
        sent_count = id_lem ∙ omega (arith, length-append sent (payload ∷ []));
        queue =
            subst
              (Numbered p.outgoing_ack_id
                (p.unacked ++ record { frame = frame; written_at = at } ∷ []))
              (omega (arith, v.sent_count))
              (Numbered-send p.outgoing_ack_id p.unacked p.outgoing_msg_id _ v.queue refl
                (omega (arith, v.sent_count)));
        queued = rw (frames-append p.unacked (record { frame = frame; written_at = at })) (
            All-append (Honest sent' got) (frames p.unacked) (frame ∷ [])
              (grow (frames p.unacked) v.queued) (honest, tt));
        holding = grow p.held v.holding;
        got_count = v.got_count;
        acked = omega (arith, v.got_count);
      }

  -- An ack that the peer may send trims the queue and nothing else.
  pub take_ack-End :
      (p : PersistentProtocol) (a : ℕ)
      → a ≤ length sent
      → End sent got p
      → End sent got (take_ack p a)
  unfolding take_ack
  take_ack-End p a h v = elim (Bool-cases (ltb p.outgoing_ack_id a)) [
    | inl e ↦
        rw (e, take_ack)
          (record {
            sent_count = v.sent_count;
            queue =
                Numbered-trim p.outgoing_ack_id a p.unacked p.outgoing_msg_id (ground arith)
                  (omega (arith, v.sent_count)) v.queue;
            queued = All-trim (Honest sent got) a p.unacked v.queued;
            holding = v.holding;
            got_count = v.got_count;
            acked = v.acked;
          })
    | inr e ↦ rw (e, take_ack) v
  ]
