-- ===== src/EditorConn/Frame/Tests.antt =====
-- The frame theorems at concrete frames, and runs of the codec.
use darkpyonix_ember.Base.{ℕ, ◌≡◌, refl, List, [], ◌∷◌, ◌++◌, none, some, arith, false}
use darkpyonix_ember.EditorConn.{ok}
use darkpyonix_ember.EditorConn.Frame.{Frame, regular, encode, next_frame, feed, drain, new}
use darkpyonix_ember.EditorConn.Frame.RoundTrip.{next_frame-encode}
use darkpyonix_ember.EditorConn.Frame.Stream.{feed-encodings, feed-concat, concat, nothing_waits}

abbrev hi : Frame
hi = record { ty = regular; id = 1; ack = 2; payload = 104 ∷ 105 ∷ [] }

abbrev hi_bytes : List ℕ
hi_bytes = 1 ∷ 0 ∷ 0 ∷ 0 ∷ 1 ∷ 0 ∷ 0 ∷ 0 ∷ 2 ∷ 0 ∷ 0 ∷ 0 ∷ 2 ∷ 104 ∷ 105 ∷ []

encode-hi : encode hi ≡ hi_bytes
unfolding encode
encode-hi = refl

next_frame_short :
    next_frame (record { buf = 1 ∷ 0 ∷ 0 ∷ [] }) ≡ (ok none, record { buf = 1 ∷ 0 ∷ 0 ∷ [] })
unfolding next_frame
next_frame_short = refl

next_frame-encode_example :
    next_frame (record { buf = encode hi ++ (9 ∷ 9 ∷ []) })
    ≡ (ok (some hi), record { buf = 9 ∷ 9 ∷ [] })
next_frame-encode_example = next_frame-encode hi (9 ∷ 9 ∷ []) (omega arith)

abbrev cut_up : List (List ℕ)
cut_up =
    (1 ∷ 0 ∷ []) ∷ [] ∷ (0 ∷ 0 ∷ 1 ∷ 0 ∷ 0 ∷ 0 ∷ 2 ∷ 0 ∷ 0 ∷ 0 ∷ 2 ∷ 104 ∷ []) ∷ (105 ∷ []) ∷ []

feed-encodings_example : feed new cut_up ≡ record { frames = hi ∷ []; decoder = new; lost = false }
unfolding encode
feed-encodings_example = feed-encodings (hi ∷ []) cut_up (omega arith) refl

feed-concat_example : (feed new cut_up).frames ≡ (drain (record { buf = concat cut_up })).frames
feed-concat_example = (feed-concat cut_up [] nothing_waits).0
