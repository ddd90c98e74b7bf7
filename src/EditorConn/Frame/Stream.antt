-- ===== src/EditorConn/Frame/Stream.antt =====
-- The decoder and the reader's loop over a socket that cuts the byte stream anywhere.
use darkpyonix_ember.Base.{
  ℕ, zero, suc, ◌+◌, ◌≤◌, ◌<◌, ◌≡◌, refl, sym, ap, ◌∙◌, ◌⊎◌, inl, inr, Option, none, some, List, [],
  ◌∷◌, ◌++◌, append_assoc, append-nil, length, take, drop, arith, true, false, length-append,
  length-drop, take-append_le, drop-append_le, All,
}
use native.Mathlib.Nat.{le_refl}
use darkpyonix_ember.EditorConn.{Result, ok, err, Error}
use darkpyonix_ember.EditorConn.Frame.{
  Frame, FrameDecoder, Drained, next_frame, drain_loop, drain_step, drain, feed, push, encode,
  header_len, from_be_bytes, first_byte, slice, new,
}
use darkpyonix_ember.EditorConn.Frame.RoundTrip.{Fits, next_frame-encode}

abbrev at : List ℕ → FrameDecoder
at b = record { buf = b }

first_byte-append : (b more : List ℕ) → 1 ≤ length b → first_byte (b ++ more) ≡ first_byte b
unfolding first_byte
first_byte-append [] more h = elim h [ ]
first_byte-append (x ∷ b) more h = refl

slice-append :
    (b more : List ℕ) (from n : ℕ) → from + n ≤ length b → slice (b ++ more) from n ≡ slice b from n
slice-append b more from n h =
    ap (take n) (drop-append_le from b more (omega arith))
    ∙ take-append_le n (drop from b) more (omega (arith, length-drop from b))

-- A frame that is whole in the buffer is not changed by bytes that arrive behind it.
next_frame-append :
    (b more : List ℕ) (f : Frame) (d : FrameDecoder)
    → next_frame (at b) ≡ (ok (some f), d)
    → next_frame (at (b ++ more)) ≡ (ok (some f), at (d.buf ++ more))
unfolding next_frame
next_frame-append b more f d e =
    let len = from_be_bytes (slice b 9 4) in
    ground (
      arith,
      length-append b more,
      slice-append b more 9 4,
      slice-append b more 1 4,
      slice-append b more 5 4,
      slice-append b more 13 len,
      drop-append_le (13 + len) b more,
      first_byte-append b more,
    )

-- A malformed frame stays malformed.
next_frame-append_err :
    (b more : List ℕ) (x : Error) (d : FrameDecoder)
    → next_frame (at b) ≡ (err x, d)
    → (next_frame (at (b ++ more))).0 ≡ err x
unfolding next_frame
next_frame-append_err b more x d e = ground (arith, length-append b more, slice-append b more 9 4)

-- While bytes are missing, the buffer is kept whole.
next_frame_waits : (b : List ℕ) (d : FrameDecoder) → next_frame (at b) ≡ (ok none, d) → d ≡ at b
unfolding next_frame
next_frame_waits b d e = ground arith

-- A frame takes its header at least.
next_frame_takes :
    (b : List ℕ) (f : Frame) (d : FrameDecoder)
    → next_frame (at b) ≡ (ok (some f), d)
    → length d.buf + header_len ≤ length b
unfolding next_frame
next_frame_takes b f d e =
    let len = from_be_bytes (slice b 9 4) in ground (arith, length-drop (13 + len) b)

data Outcome (b : List ℕ) : Type 0 where
  whole : (f : Frame) (c : List ℕ) → next_frame (at b) ≡ (ok (some f), at c) → Outcome b
  waits : next_frame (at b) ≡ (ok none, at b) → Outcome b
  fails : (x : Error) (d : FrameDecoder) → next_frame (at b) ≡ (err x, d) → Outcome b

outcome : (b : List ℕ) → Outcome b
outcome b = go _ _ refl
  where
    go : (r : Result (Option Frame)) (d : FrameDecoder) → next_frame (at b) ≡ (r, d) → Outcome b
    go (ok (some f)) d e = whole f d.buf e
    go (ok none) d e = waits (e ∙ ap (λ k. (ok none, k)) (next_frame_waits b d e))
    go (err x) d e = fails x d e

abbrev before : Frame → Drained → Drained
before f r = record { frames = f ∷ r.frames; decoder = r.decoder; lost = r.lost }

drain_loop_fuel :
    (m n : ℕ) (b : List ℕ) → length b < m → length b < n → drain_loop m (at b) ≡ drain_loop n (at b)
unfolding drain_loop
drain_loop_fuel zero n b h k = elim h [ ]
drain_loop_fuel (suc m) zero b h k = elim k [ ]
drain_loop_fuel (suc m) (suc n) b h k = elim (outcome b) [
  | whole f c e ↦ rw e (
      ap (before f) (
        drain_loop_fuel m n c (omega (arith, next_frame_takes b f (at c) e))
          (omega (arith, next_frame_takes b f (at c) e))))
  | waits e ↦ rw (e, drain_loop)
  | fails x d e ↦ rw (e, drain_loop)
]

drain_whole :
    (b c : List ℕ) (f : Frame)
    → next_frame (at b) ≡ (ok (some f), at c)
    → drain (at b) ≡ before f (drain (at c))
unfolding drain drain_loop
drain_whole b c f e =
    rw (e, drain_loop)
      (ap (before f) (
        drain_loop_fuel (length b) (suc (length c)) c (omega (arith, next_frame_takes b f (at c) e))
          (omega arith)))

drain_waits :
    (b : List ℕ)
    → next_frame (at b) ≡ (ok none, at b)
    → drain (at b) ≡ record { frames = []; decoder = at b; lost = false }
unfolding drain drain_loop
drain_waits b e = rw (e, drain_loop)

drain_fails :
    (b : List ℕ) (x : Error)
    → (next_frame (at b)).0 ≡ err x
    → ((drain (at b)).frames ≡ []) × ((drain (at b)).lost ≡ true)
unfolding drain drain_loop
drain_fails b x h = go (next_frame (at b)) h
  where
    go :
        (r : Result (Option Frame) × FrameDecoder)
        → r.0 ≡ err x
        → let k = drain_loop (length b) in
          ((drain_step k r).frames ≡ []) × ((drain_step k r).lost ≡ true)
    go (ok (some f), d) k = cc
    go (ok none, d) k = cc
    go (err y, d) k = (refl, refl)

-- What is drained from a buffer that grew is what was drained before, and then what the bytes
-- left over give together with the new ones.
abbrev Continues : Drained → Drained → List ℕ → Type 0
Continues got all more =
    let rest = drain (push got.decoder more) in
    ((got.lost ≡ false)
      × (all.frames ≡ got.frames ++ rest.frames)
      × (all.lost ≡ rest.lost)
      × (all.decoder ≡ rest.decoder))
    ⊎ ((got.lost ≡ true) × (all.frames ≡ got.frames) × (all.lost ≡ true))

Continues-before :
    (f : Frame) (got all : Drained) (more : List ℕ)
    → Continues got all more
    → Continues (before f got) (before f all) more
Continues-before f got all more (inl (a, b, c, d)) = inl (a, ap (◌∷◌ f) b, c, d)
Continues-before f got all more (inr (a, b, c)) = inr (a, ap (◌∷◌ f) b, c)

drain-append_fuel :
    (n : ℕ) (b more : List ℕ)
    → length b < n
    → Continues (drain (at b)) (drain (at (b ++ more))) more
unfolding push
drain-append_fuel zero b more h = elim h [ ]
drain-append_fuel (suc n) b more h = elim (outcome b) [
  | whole f c e ↦
      rw
        (
          drain_whole b c f e,
          drain_whole (b ++ more) (c ++ more) f (next_frame-append b more f (at c) e),
        )
        (Continues-before f (drain (at c)) (drain (at (c ++ more))) more
          (drain-append_fuel n c more (omega (arith, next_frame_takes b f (at c) e))))
  | waits e ↦ rw (drain_waits b e) (inl (refl, refl, refl, refl))
  | fails x d e ↦
      let (none_yet, dead) = drain_fails b x (ap (λ p. p.0) e) in
      let (none_now, dead') = drain_fails (b ++ more) x (next_frame-append_err b more x d e) in
      inr (dead, none_now ∙ sym none_yet, dead')
]

drain-append : (b more : List ℕ) → Continues (drain (at b)) (drain (at (b ++ more))) more
drain-append b more = drain-append_fuel _ b more (le_refl (suc (length b)))

-- The reader goes back to the socket only when no whole frame is left in the decoder.
drained_waits_fuel :
    (n : ℕ) (b : List ℕ)
    → length b < n
    → (drain (at b)).lost ≡ false
    → let d = (drain (at b)).decoder in next_frame d ≡ (ok none, d)
drained_waits_fuel zero b h k = elim h [ ]
drained_waits_fuel (suc n) b h k = elim (outcome b) [
  | whole f c e ↦
      let one = drain_whole b c f e in
      rw one (drained_waits_fuel n c (omega (arith, next_frame_takes b f (at c) e)) (rw one at k))
  | waits e ↦ rw (drain_waits b e) e
  | fails x d e ↦ cc (k, (drain_fails b x (ap (λ p. p.0) e)).1)
]

abbrev pub concat : List (List ℕ) → List ℕ
concat [] = []
concat (c ∷ cs) = c ++ concat cs

-- However the socket cuts a stream into chunks, the reader delivers the frames of the whole
-- stream, in order, and drops the socket exactly when the whole stream holds a malformed frame;
-- if it does not, the bytes left in the decoder are the same too. The stream follows what the
-- decoder has, from which nothing more can be drained.
pub feed-concat :
    (chunks : List (List ℕ)) (b : List ℕ)
    → next_frame (record { buf = b }) ≡ (ok none, record { buf = b })
    → let all = drain (record { buf = b ++ concat chunks }) in
      let got = feed (record { buf = b }) chunks in
      (got.frames ≡ all.frames)
      × (got.lost ≡ all.lost)
      × (all.lost ≡ false → got.decoder ≡ all.decoder)
unfolding feed push
feed-concat [] b e = rw (append-nil b, drain_waits b e) (refl, refl, λ _. refl)
feed-concat (c ∷ cs) b e = elim (drain-append (b ++ c) (concat cs)) [
  | inl (alive, fs, l, d) ↦
      let rest = (drain (at (b ++ c))).decoder in
      let (same_frames, same_end, same_rest) =
        feed-concat cs rest.buf
          (drained_waits_fuel _ (b ++ c) (le_refl (suc (length (b ++ c)))) alive) in
      rw (← append_assoc b c (concat cs), alive, fs, l, d)
        (ap (◌++◌ (drain (at (b ++ c))).frames) same_frames, same_end, same_rest)
  | inr (dead, fs, l) ↦ rw (← append_assoc b c (concat cs), dead, fs, l) (refl, refl, λ h. cc)
]

abbrev pub encodings : List Frame → List ℕ
encodings [] = []
encodings (f ∷ fs) = encode f ++ encodings fs

pub nothing_waits : next_frame (at []) ≡ (ok none, at [])
unfolding next_frame
nothing_waits = refl

drain-encodings :
    (fs : List Frame)
    → All Fits fs
    → drain (at (encodings fs)) ≡ record { frames = fs; decoder = at []; lost = false }
drain-encodings [] h = drain_waits [] nothing_waits
drain-encodings (f ∷ fs) h =
    drain_whole (encodings (f ∷ fs)) (encodings fs) f (next_frame-encode f (encodings fs) h.0)
    ∙ ap (before f) (drain-encodings fs h.1)

-- The reader delivers exactly the frames that the peer's writer encoded, in order, however the
-- socket cuts their bytes into chunks, and at the end it holds no byte.
pub feed-encodings :
    (fs : List Frame) (chunks : List (List ℕ))
    → All Fits fs
    → concat chunks ≡ encodings fs
    → feed new chunks ≡ record { frames = fs; decoder = new; lost = false }
feed-encodings fs chunks h e =
    let (got, alive, left) = feed-concat chunks [] nothing_waits in
    let sent = ap (λ b. drain (at b)) e ∙ drain-encodings fs h in
    λ i. record {
      frames = (got ∙ ap (λ r. r.frames) sent) i;
      decoder = (left (ap (λ r. r.lost) sent) ∙ ap (λ r. r.decoder) sent) i;
      lost = (alive ∙ ap (λ r. r.lost) sent) i;
    }
