-- ===== src/EditorConn/Protocol/Link/Delivery.antt =====
-- Every run delivers, to each end, a beginning of what the other end sent.
use darkpyonix_ember.Base.{
  ℕ, suc, ◌+◌, ◌≤◌, ◌<◌, ◌≡◌, refl, ap, sym, ◌∙◌, subst, List, [], ◌∷◌, ◌++◌, append-nil, length,
  All, All-map, All-append, arith, length-append, Prefix, Prefix-append, Prefix-next, Prefix-length,
}
use darkpyonix_ember.EditorConn.Frame.{Frame, u32_mod}
use native.Mathlib.Nat.{le_refl}
use darkpyonix_ember.EditorConn.Protocol.{
  Reaction, receive, new, send, begin_reconnect, end_reconnect, silent,
}
use darkpyonix_ember.EditorConn.Protocol.Queue.{Honest, End}
use darkpyonix_ember.EditorConn.Protocol.Ends.{
  Kept, send_control-Kept, send_disconnect-Kept, tick-Kept, send_keep_alive-Kept,
  begin_reconnect-End, end_reconnect-Kept, Honest-grow, Honest-hears,
}
use darkpyonix_ember.EditorConn.Protocol.Sends.{send-Kept}
use darkpyonix_ember.EditorConn.Protocol.Hears.{
  nothing, delivers, messages, receive-Heard, send-none, send_control-none, send_disconnect-none,
  tick-none, send_keep_alive-none,
}
use darkpyonix_ember.EditorConn.Protocol.Link.{
  Link, Act, sends, sends_control, disconnects, ticks, keeps_alive, hears, loses, reconnects,
  resumes, Event, near_does, far_does, flip, start, reacts, with_wire, with_sent, hear, act, step,
  run,
}

-- The frames on the wires are honest, the far end is in good order, and each end has heard a
-- beginning of what the other has sent.
pub record Around (l : Link) : Type 0 where
  pub far_end : End l.far.sent (length l.far.heard) l.far.proto
  pub near_wire : All (Honest l.far.sent (length l.far.heard)) l.near.wire
  pub far_wire : All (Honest l.near.sent (length l.near.heard)) l.far.wire
  pub near_heard : Prefix l.near.heard l.far.sent
  pub far_heard : Prefix l.far.heard l.near.sent

-- Both ends are in good order, too.
pub record IsSound (l : Link) : Type 0 where
  pub around : Around l
  pub open around use *
  pub near_end : End l.near.sent (length l.near.heard) l.near.proto

pub IsSound-flip : (l : Link) → IsSound l → IsSound (flip l)
IsSound-flip l v = record {
  around = record {
    far_end = v.near_end;
    near_wire = v.far_wire;
    far_wire = v.near_wire;
    near_heard = v.far_heard;
    far_heard = v.near_heard;
  };
  near_end = v.far_end;
}

abbrev now_heard : Link → Reaction → List (List ℕ)
now_heard l r = l.near.heard ++ messages r.inbound

reacts-IsSound :
    (l : Link) (r : Reaction)
    → Around l
    → Kept l.near.sent (length (now_heard l r)) r
    → Prefix (now_heard l r) l.far.sent
    → IsSound (reacts l r)
reacts-IsSound l r v (e, o) h = record {
  around = record {
    far_end = v.far_end;
    near_wire = v.near_wire;
    far_wire =
        All-append (Honest l.near.sent (length (now_heard l r))) l.far.wire r.out
          (All-map
            (Honest-hears l.near.sent _ _
              (omega (arith, length-append l.near.heard (messages r.inbound))))
            l.far.wire v.far_wire)
          o;
    near_heard = h;
    far_heard = v.far_heard;
  };
  near_end = e;
}

-- A reaction that delivers nothing.
quiet-IsSound :
    (l : Link) (r : Reaction)
    → Around l
    → messages r.inbound ≡ []
    → Kept l.near.sent (length l.near.heard) r
    → IsSound (reacts l r)
quiet-IsSound l r v q k =
    let same : l.near.heard ≡ now_heard l r =
      sym (ap (◌++◌ l.near.heard) q ∙ append-nil l.near.heard) in
    reacts-IsSound l r v (subst (λ h. Kept l.near.sent (length h) r) same k)
      (subst (λ h. Prefix h l.far.sent) same v.near_heard)

sends-IsSound :
    (l : Link) (payload : List ℕ) (now : ℕ)
    → suc (length l.near.sent) < u32_mod
    → IsSound l
    → IsSound (act l (sends payload) now)
unfolding act
sends-IsSound l payload now small v =
    quiet-IsSound (with_sent l payload) (send l.near.proto payload now)
      (record {
        far_end = v.far_end;
        near_wire = v.near_wire;
        far_wire =
            All-map (Honest-grow l.near.sent (payload ∷ []) _ _ (le_refl (length l.near.heard)))
              l.far.wire v.far_wire;
        near_heard = v.near_heard;
        far_heard = Prefix-append l.far.heard l.near.sent (payload ∷ []) v.far_heard;
      })
      (ap messages (send-none l.near.proto payload now))
      (send-Kept l.near.sent (length l.near.heard) l.near.proto payload now small v.near_end)

hear-IsSound :
    (l : Link) (w : List Frame) (now : ℕ)
    → suc (length l.far.sent) < u32_mod
    → All (Honest l.far.sent (length l.far.heard)) w
    → IsSound l
    → IsSound (hear l w now)
unfolding hear
hear-IsSound l [] now small h v = v
hear-IsSound l (f ∷ rest) now small h v =
    elim (receive-Heard l.near.sent (length l.near.heard) l.far.sent l.near.proto f now
      (length l.far.heard) (omega (arith, Prefix-length l.near.heard l.far.sent v.near_heard)) h.0
      (Prefix-length l.far.heard l.near.sent v.far_heard) v.near_end) [
        | nothing k q ↦ quiet-IsSound (with_wire l rest) (receive l.near.proto f now) around q k
        | delivers payload k q g ↦
            reacts-IsSound (with_wire l rest) (receive l.near.proto f now) around
              (subst (λ n. Kept l.near.sent n (receive l.near.proto f now))
                (omega (
                  arith,
                  ap length q,
                  length-append l.near.heard (messages (receive l.near.proto f now).inbound),
                ))
                k)
              (subst (λ m. Prefix (l.near.heard ++ m) l.far.sent) (sym q)
                (Prefix-next l.near.heard l.far.sent payload v.near_heard g))
      ]
  where
    around : Around (with_wire l rest)
    around = record {
      far_end = v.far_end;
      near_wire = h.1;
      far_wire = v.far_wire;
      near_heard = v.near_heard;
      far_heard = v.far_heard;
    }

-- Whatever the near end does, if its 32-bit counters have room.
act-IsSound :
    (l : Link) (a : Act) (now : ℕ)
    → suc (length l.near.sent) < u32_mod
    → suc (length l.far.sent) < u32_mod
    → IsSound l
    → IsSound (act l a now)
unfolding act
act-IsSound l (sends payload) now near far v = sends-IsSound l payload now near v
act-IsSound l (sends_control payload) now near far v =
    quiet-IsSound l _ v.around (ap messages (send_control-none l.near.proto payload))
      (send_control-Kept _ _ l.near.proto payload v.near_end)
act-IsSound l disconnects now near far v =
    quiet-IsSound l _ v.around (ap messages (send_disconnect-none l.near.proto))
      (send_disconnect-Kept _ _ l.near.proto v.near_end)
act-IsSound l ticks now near far v =
    quiet-IsSound l _ v.around (ap messages (tick-none l.near.proto now))
      (tick-Kept _ _ l.near.proto now v.near_end)
act-IsSound l keeps_alive now near far v =
    quiet-IsSound l _ v.around (ap messages (send_keep_alive-none l.near.proto))
      (send_keep_alive-Kept _ _ l.near.proto v.near_end)
act-IsSound l hears now near far v = hear-IsSound l l.near.wire now far v.near_wire v
act-IsSound l loses now near far v = record {
  around = record {
    far_end = v.far_end;
    near_wire = tt;
    far_wire = v.far_wire;
    near_heard = v.near_heard;
    far_heard = v.far_heard;
  };
  near_end = v.near_end;
}
act-IsSound l reconnects now near far v =
    quiet-IsSound l (silent (begin_reconnect l.near.proto now)) v.around refl
      (begin_reconnect-End _ _ l.near.proto now v.near_end, tt)
act-IsSound l resumes now near far v =
    quiet-IsSound l _ v.around (unfold end_reconnect in refl)
      (end_reconnect-Kept _ _ l.near.proto now v.near_end)

-- An act sends at most one message.
act_sends :
    (l : Link) (a : Act) (now : ℕ)
    → (length (act l a now).near.sent ≤ suc (length l.near.sent))
      × (length (act l a now).far.sent ≡ length l.far.sent)
unfolding act
act_sends l (sends payload) now = (omega (arith, length-append l.near.sent (payload ∷ [])), refl)
act_sends l (sends_control payload) now = (omega arith, refl)
act_sends l disconnects now = (omega arith, refl)
act_sends l ticks now = (omega arith, refl)
act_sends l keeps_alive now = (omega arith, refl)
act_sends l hears now = go l.near.wire
  where
    go :
        (w : List Frame)
        → (length (hear l w now).near.sent ≤ suc (length l.near.sent))
          × (length (hear l w now).far.sent ≡ length l.far.sent)
    go [] = (omega arith, refl)
    go (f ∷ rest) = (omega arith, refl)
act_sends l loses now = (omega arith, refl)
act_sends l reconnects now = (omega arith, refl)
act_sends l resumes now = (omega arith, refl)

-- The counters of both ends have room for `n` more messages.
abbrev pub HasRoom : ℕ → Link → Type 0
HasRoom n l = (length l.near.sent + n < u32_mod) × (length l.far.sent + n < u32_mod)

pub step-IsSound :
    (l : Link) (e : Event) (n : ℕ)
    → HasRoom (suc n) l
    → IsSound l
    → IsSound (step l e) × HasRoom n (step l e)
unfolding step
step-IsSound l (near_does a now) n room v = (
  act-IsSound l a now (omega arith) (omega arith) v,
  (omega (arith, act_sends l a now), omega (arith, act_sends l a now)),
)
step-IsSound l (far_does a now) n room v = (
  IsSound-flip _ (act-IsSound (flip l) a now (omega arith) (omega arith) (IsSound-flip l v)),
  (omega (arith, act_sends (flip l) a now), omega (arith, act_sends (flip l) a now)),
)

pub run-IsSound :
    (l : Link) (es : List Event) → HasRoom (length es) l → IsSound l → IsSound (run l es)
unfolding run
run-IsSound l [] room v = v
run-IsSound l (e ∷ es) room v =
    let (v', room') = step-IsSound l e (length es) room v in run-IsSound (step l e) es room' v'

pub start-IsSound : (now : ℕ) → IsSound (start now)
unfolding start new
start-IsSound now = record {
  around = record {
    far_end = record {
      sent_count = refl;
      queue = refl;
      queued = tt;
      holding = tt;
      got_count = refl;
      acked = omega arith;
    };
    near_wire = tt;
    far_wire = tt;
    near_heard = ([], refl);
    far_heard = ([], refl);
  };
  near_end = record {
    sent_count = refl;
    queue = refl;
    queued = tt;
    holding = tt;
    got_count = refl;
    acked = omega arith;
  };
}

-- Over any run of fewer than 2^32 events, with sockets lost and ends reconnected at any point,
-- what was delivered to each end is a beginning of what the other end sent: no message is lost
-- from the middle, repeated, reordered or altered.
pub run_delivers :
    (now : ℕ) (es : List Event)
    → length es < u32_mod
    → Prefix (run (start now) es).near.heard (run (start now) es).far.sent
      × Prefix (run (start now) es).far.heard (run (start now) es).near.sent
run_delivers now es small =
    let v =
      run-IsSound (start now) es (unfold start in (omega arith, omega arith)) (start-IsSound now) in
    (v.near_heard, v.far_heard)
