-- ===== src/EditorConn/Protocol/Queue.antt =====
-- One end by itself: the queue of unacknowledged frames, and what the end knows to be true of
-- every frame that it keeps or writes.
use darkpyonix_ember.Base.{
  ℕ, suc, ◌+◌, ◌≤◌, ◌<◌, ◌≡◌, refl, sym, ap, ◌∙◌, subst, inl, inr, some, List, [], ◌∷◌, ◌++◌,
  length, get_elem?, All, arith, leb, Bool-cases,
}
use darkpyonix_ember.EditorConn.Frame.{Frame, regular, u32_mod}
use darkpyonix_ember.EditorConn.Protocol.{
  PersistentProtocol, Unacked, trim, rewritten, frames, unacknowledged_count,
}

-- The queue holds one regular frame for each id above `lo` up to `hi`, in order.
abbrev pub Numbered : ℕ → List Unacked → ℕ → Type 0
Numbered lo [] hi = lo ≡ hi
Numbered lo (u ∷ us) hi = (u.frame.ty ≡ regular) × (u.frame.id ≡ suc lo) × Numbered (suc lo) us hi

-- Message number `id` of `sent` (from 1), if the frame is a regular one.
abbrev pub Carries : List (List ℕ) → Frame → Type 0
Carries sent f = f.ty ≡ regular → (i : ℕ) × (f.id ≡ suc i) × (get_elem? sent i ≡ some f.payload)

-- A frame that an end may write which sent `sent` and received `got` messages.
abbrev pub Honest : List (List ℕ) → ℕ → Frame → Type 0
Honest sent got f = Carries sent f × (f.ack ≤ got)

pub record End (sent : List (List ℕ)) (got : ℕ) (p : PersistentProtocol) : Type 0 where
  pub sent_count : p.outgoing_msg_id ≡ length sent
  pub queue : Numbered p.outgoing_ack_id p.unacked p.outgoing_msg_id
  pub queued : All (Honest sent got) (frames p.unacked)
  pub holding : All (Honest sent got) p.held
  pub got_count : p.incoming_msg_id ≡ got
  pub acked : p.incoming_ack_id ≤ got

pub Numbered-length :
    (lo : ℕ) (us : List Unacked) (hi : ℕ) → Numbered lo us hi → lo + length us ≡ hi
Numbered-length lo [] hi h = omega arith
Numbered-length lo (u ∷ us) hi h = omega (arith, Numbered-length (suc lo) us hi h.2)

pub Numbered-send :
    (lo : ℕ) (us : List Unacked) (hi : ℕ) (u : Unacked)
    → Numbered lo us hi
    → u.frame.ty ≡ regular
    → u.frame.id ≡ suc hi
    → Numbered lo (us ++ u ∷ []) (suc hi)
Numbered-send lo [] hi u h t i = (t, i ∙ ap suc (sym h), ap suc h)
Numbered-send lo (v ∷ us) hi u h t i = (h.0, h.1, Numbered-send (suc lo) us hi u h.2 t i)

pub Numbered-trim :
    (lo a : ℕ) (us : List Unacked) (hi : ℕ)
    → lo ≤ a
    → a ≤ hi
    → Numbered lo us hi
    → Numbered a (trim a us) hi
unfolding trim
Numbered-trim lo a [] hi h k q = omega arith
Numbered-trim lo a (u ∷ us) hi h k (t, e, q) = elim (Bool-cases (leb u.frame.id a)) [
  | inl old ↦ rw (old, trim) (Numbered-trim (suc lo) a us hi (ground arith) k q)
  | inr kept ↦ rw (kept, trim) (t, ground arith, subst (λ n. Numbered n us hi) (ground arith) q)
]

pub Numbered-rewritten :
    (now lo : ℕ) (us : List Unacked) (hi : ℕ)
    → Numbered lo us hi
    → Numbered lo (rewritten now us) hi
unfolding rewritten
Numbered-rewritten now lo [] hi h = h
Numbered-rewritten now lo (u ∷ us) hi (t, e, q) = (t, e, Numbered-rewritten now (suc lo) us hi q)

pub frames-rewritten : (now : ℕ) (us : List Unacked) → frames (rewritten now us) ≡ frames us
unfolding rewritten
frames-rewritten now [] = refl
frames-rewritten now (u ∷ us) = ap (◌∷◌ u.frame) (frames-rewritten now us)

pub frames-append :
    (us : List Unacked) (u : Unacked) → frames (us ++ u ∷ []) ≡ frames us ++ u.frame ∷ []
frames-append [] u = refl
frames-append (v ∷ us) u = ap (◌∷◌ v.frame) (frames-append us u)

pub All-trim :
    (P : Frame → Type 0) (a : ℕ) (us : List Unacked)
    → All P (frames us)
    → All P (frames (trim a us))
unfolding trim
All-trim P a [] h = h
All-trim P a (u ∷ us) h = elim (Bool-cases (leb u.frame.id a)) [
  | inl old ↦ rw (old, trim) (All-trim P a us h.1)
  | inr kept ↦ rw (kept, trim) h
]

-- In an end in good order the count that the program reports is the length of the queue.
pub unacknowledged_count-length :
    (sent : List (List ℕ)) (got : ℕ) (p : PersistentProtocol)
    → End sent got p
    → length sent < u32_mod
    → unacknowledged_count p ≡ length p.unacked
unfolding unacknowledged_count
unacknowledged_count-length sent got p v h =
    omega (arith, Numbered-length p.outgoing_ack_id p.unacked p.outgoing_msg_id v.queue)
