-- ===== src/EditorConn/Frame.antt =====
-- ember/editor-conn/src/frame.rs: the frames of the persistent protocol, their encoding and the
-- incremental decoder, and the loop of ember/editor-conn/src/connection.rs that empties it.
-- A byte is a number below 256; a `u32` is a number below `u32_mod`.
pub mod RoundTrip
pub mod Stream
mod Tests
use darkpyonix_ember.Base.{
  ℕ, zero, suc, ◌+◌, ◌*◌, ◌/◌, ◌%◌, ◌≤◌, ◌<◌, Bool, true, false, Option, none, some, List, [], ◌∷◌,
  ◌++◌, length, take, drop, ltb, if◌then◌else◌,
}
use darkpyonix_ember.EditorConn.{Result, ok, err, malformed, frame_length}

abbrev pub u32_mod : ℕ
u32_mod = 4_294_967_296

abbrev pub header_len : ℕ
header_len = 13

abbrev pub max_frame_len : ℕ
max_frame_len = 268_435_456

pub data MessageType : Type 0 where
  absent regular control ack disconnect replay_request pause resume keep_alive : MessageType

-- `self.ty as u8`.
unfoldable pub to_u8 : MessageType → ℕ
to_u8 absent = 0
to_u8 regular = 1
to_u8 control = 2
to_u8 ack = 3
to_u8 disconnect = 5
to_u8 replay_request = 6
to_u8 pause = 7
to_u8 resume = 8
to_u8 keep_alive = 9

-- Value 4 and every value above 9 is no type.
unfoldable pub from_u8 : ℕ → Option MessageType
from_u8 zero = some absent
from_u8 (suc zero) = some regular
from_u8 (suc (suc zero)) = some control
from_u8 (suc (suc (suc zero))) = some ack
from_u8 (suc (suc (suc (suc zero)))) = none
from_u8 (suc (suc (suc (suc (suc zero))))) = some disconnect
from_u8 (suc (suc (suc (suc (suc (suc zero)))))) = some replay_request
from_u8 (suc (suc (suc (suc (suc (suc (suc zero))))))) = some pause
from_u8 (suc (suc (suc (suc (suc (suc (suc (suc zero)))))))) = some resume
from_u8 (suc (suc (suc (suc (suc (suc (suc (suc (suc zero))))))))) = some keep_alive
from_u8 (suc (suc (suc (suc (suc (suc (suc (suc (suc (suc n)))))))))) = none

pub record Frame : Type 0 where
  pub ty : MessageType
  pub id : ℕ
  pub ack : ℕ
  pub payload : List ℕ

abbrev pub empty : MessageType → ℕ → Frame
empty ty a = record { ty = ty; id = 0; ack = a; payload = [] }

-- `u32::to_be_bytes`, and back.
unfoldable pub to_be_bytes : ℕ → List ℕ
to_be_bytes x = (x / 16_777_216 % 256) ∷ (x / 65_536 % 256) ∷ (x / 256 % 256) ∷ (x % 256) ∷ []

from_be_from : ℕ → List ℕ → ℕ
from_be_from acc [] = acc
from_be_from acc (b ∷ bs) = from_be_from (acc * 256 + b) bs

unfoldable pub from_be_bytes : List ℕ → ℕ
unfolding from_be_from
from_be_bytes = from_be_from 0

-- `out` and what is appended to it. The length is cast `as u32`.
unfoldable pub encode_into : Frame → List ℕ → List ℕ
unfolding to_u8 to_be_bytes
encode_into f out =
    out
    ++ (to_u8 f.ty ∷ [])
    ++ to_be_bytes f.id
    ++ to_be_bytes f.ack
    ++ to_be_bytes (length f.payload % u32_mod)
    ++ f.payload

unfoldable pub encode : Frame → List ℕ
unfolding encode_into
encode f = encode_into f []

pub record FrameDecoder : Type 0 where
  pub buf : List ℕ

abbrev pub new : FrameDecoder
new = record { buf = [] }

unfoldable pub push : FrameDecoder → List ℕ → FrameDecoder
push d chunk = record { buf = d.buf ++ chunk }

-- `buf[from..to]`.
abbrev pub slice : List ℕ → ℕ → ℕ → List ℕ
slice buf from n = take n (drop from buf)

-- An unknown type becomes `None`, here `absent`.
unfoldable pub type_of : ℕ → MessageType
unfolding from_u8
type_of raw = elim (from_u8 raw) [ none ↦ absent | some ty ↦ ty ]

first_byte : List ℕ → ℕ
first_byte [] = 0
first_byte (b ∷ bs) = b

unfoldable pub next_frame : FrameDecoder → Result (Option Frame) × FrameDecoder
unfolding first_byte
next_frame d =
    if ltb (length d.buf) header_len
    then (ok none, d)
    else (let len = from_be_bytes (slice d.buf 9 4) in
        if ltb max_frame_len len
        then (err (malformed (frame_length len)), d)
        else if ltb (length d.buf) (header_len + len)
        then (ok none, d)
        else (
          ok (
              some (record {
                ty = type_of (first_byte d.buf);
                id = from_be_bytes (slice d.buf 1 4);
                ack = from_be_bytes (slice d.buf 5 4);
                payload = slice d.buf header_len len;
              })),
          record { buf = drop (header_len + len) d.buf },
        ))

-- The reader's inner loop: whole frames in order, the decoder left, and whether the socket is
-- dropped because a frame was malformed.
pub record Drained : Type 0 where
  pub frames : List Frame
  pub decoder : FrameDecoder
  pub lost : Bool

-- One round: what the decoder returned, and `rest` for the rounds that follow a whole frame.
drain_step : (FrameDecoder → Drained) → Result (Option Frame) × FrameDecoder → Drained
drain_step rest (ok (some f), d) =
    let r = rest d in record { frames = f ∷ r.frames; decoder = r.decoder; lost = r.lost }
drain_step rest (ok none, d) = record { frames = []; decoder = d; lost = false }
drain_step rest (err e, d) = record { frames = []; decoder = d; lost = true }

pub drain_loop : ℕ → FrameDecoder → Drained
unfolding drain_step
drain_loop zero d = record { frames = []; decoder = d; lost = false }
drain_loop (suc fuel) d = drain_step (drain_loop fuel) (next_frame d)

-- A frame takes a byte at least, so one round more than there are bytes is enough.
pub drain : FrameDecoder → Drained
drain d = drain_loop (suc (length d.buf)) d

-- The reader's outer loop over the chunks that the socket hands it. A malformed frame ends it.
pub feed : FrameDecoder → List (List ℕ) → Drained
feed d [] = record { frames = []; decoder = d; lost = false }
feed d (chunk ∷ chunks) =
    let got = drain (push d chunk) in
    let rest = feed got.decoder chunks in
    if got.lost
    then got
    else record { frames = got.frames ++ rest.frames; decoder = rest.decoder; lost = rest.lost }
