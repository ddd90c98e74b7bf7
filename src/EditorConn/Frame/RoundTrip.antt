-- ===== src/EditorConn/Frame/RoundTrip.antt =====
-- Decoding what `encode` wrote.
use darkpyonix_ember.Base.{
  ℕ, ◌%◌, ◌≤◌, ◌<◌, ◌≡◌, refl, ◌∙◌, some, List, [], ◌∷◌, ◌++◌, length, arith, length-append,
  take-append, drop-append, drop-add,
}
use darkpyonix_ember.EditorConn.{ok}
use darkpyonix_ember.EditorConn.Frame.{
  Frame, MessageType, u32_mod, max_frame_len, to_u8, from_u8, type_of, to_be_bytes, from_be_bytes,
  encode, next_frame, absent, regular, control, ack, disconnect, replay_request, pause, resume,
  keep_alive,
}

-- The frames that the wire can carry: `u32` counters, and a payload within the limit.
pub record Fits (f : Frame) : Type 0 where
  pub id_fits : f.id < u32_mod
  pub ack_fits : f.ack < u32_mod
  pub payload_fits : length f.payload ≤ max_frame_len

pub from_be_bytes-to_be_bytes : (x : ℕ) → x < u32_mod → from_be_bytes (to_be_bytes x) ≡ x
unfolding from_be_bytes to_be_bytes
from_be_bytes-to_be_bytes x h = omega arith

pub from_u8-to_u8 : (ty : MessageType) → from_u8 (to_u8 ty) ≡ some ty
unfolding from_u8 to_u8
from_u8-to_u8 absent = refl
from_u8-to_u8 regular = refl
from_u8-to_u8 control = refl
from_u8-to_u8 ack = refl
from_u8-to_u8 disconnect = refl
from_u8-to_u8 replay_request = refl
from_u8-to_u8 pause = refl
from_u8-to_u8 resume = refl
from_u8-to_u8 keep_alive = refl

type_of-to_u8 : (ty : MessageType) → type_of (to_u8 ty) ≡ ty
unfolding type_of
type_of-to_u8 ty = rw (from_u8-to_u8 ty, type_of)

-- A header of thirteen bytes before `rest`.
abbrev pub headed : (t i₀ i₁ i₂ i₃ a₀ a₁ a₂ a₃ l₀ l₁ l₂ l₃ : ℕ) → List ℕ → List ℕ
headed t i₀ i₁ i₂ i₃ a₀ a₁ a₂ a₃ l₀ l₁ l₂ l₃ rest =
    t ∷ i₀ ∷ i₁ ∷ i₂ ∷ i₃ ∷ a₀ ∷ a₁ ∷ a₂ ∷ a₃ ∷ l₀ ∷ l₁ ∷ l₂ ∷ l₃ ∷ rest

-- A header whose length field holds the length of `body` gives the frame that it describes.
next_frame-headed :
    (t i₀ i₁ i₂ i₃ a₀ a₁ a₂ a₃ l₀ l₁ l₂ l₃ : ℕ) (body rest : List ℕ)
    → from_be_bytes (l₀ ∷ l₁ ∷ l₂ ∷ l₃ ∷ []) ≡ length body
    → length body ≤ max_frame_len
    → next_frame (record { buf = headed t i₀ i₁ i₂ i₃ a₀ a₁ a₂ a₃ l₀ l₁ l₂ l₃ (body ++ rest) }) ≡ (
      ok (
          some (record {
            ty = type_of t;
            id = from_be_bytes (i₀ ∷ i₁ ∷ i₂ ∷ i₃ ∷ []);
            ack = from_be_bytes (a₀ ∷ a₁ ∷ a₂ ∷ a₃ ∷ []);
            payload = body;
          })),
      record { buf = rest },
    )
unfolding next_frame
next_frame-headed t i₀ i₁ i₂ i₃ a₀ a₁ a₂ a₃ l₀ l₁ l₂ l₃ body rest e h = ground (
  arith,
  length-append body rest,
  take-append body rest,
  drop-append body rest,
  drop-add 13 (length body) (headed t i₀ i₁ i₂ i₃ a₀ a₁ a₂ a₃ l₀ l₁ l₂ l₃ (body ++ rest)),
)

-- The decoder gives back the frame that `encode` wrote, and keeps the bytes behind it, whatever
-- they are, if the counters are `u32` and the payload is within the limit.
pub next_frame-encode :
    (f : Frame) (rest : List ℕ)
    → Fits f
    → next_frame (record { buf = encode f ++ rest }) ≡ (ok (some f), record { buf = rest })
unfolding encode to_be_bytes
next_frame-encode f rest v =
    rw (next_frame-headed _ _ _ _ _ _ _ _ _ _ _ _ _ f.payload rest len v.payload_fits) (
      cc (
        type_of-to_u8 f.ty,
        from_be_bytes-to_be_bytes f.id v.id_fits,
        from_be_bytes-to_be_bytes f.ack v.ack_fits,
      ))
  where
    len : from_be_bytes (to_be_bytes (length f.payload % u32_mod)) ≡ length f.payload
    len = from_be_bytes-to_be_bytes _ (omega arith) ∙ omega (arith, v.payload_fits)
