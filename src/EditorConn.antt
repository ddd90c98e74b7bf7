-- ===== src/EditorConn.antt =====
-- ember/editor-conn: the connection to a Code-OSS server. This file holds the error type that the
-- crate shares (ember/editor-conn/src/lib.rs); each child models one file of the crate.
pub mod Documents
pub mod Frame
pub mod Ipc
pub mod Protocol
use darkpyonix_ember.Base.{ℕ}

-- What the text of an `Error::Malformed` says.
pub data Malformation : Type 0 where
  frame_length : ℕ → Malformation
  truncated_vql vql_too_long truncated_value : Malformation
  unknown_data_type : ℕ → Malformation
  line_zero column_zero end_before_start overlapping_edits unknown_document : Malformation
  line_out_of_range splits_surrogate column_out_of_range : ℕ → Malformation
  stale_version : (version current : ℕ) → Malformation

-- The errors that the codecs return; `json` holds what a JSON parser reports, which is left out.
-- The other variants of the source's `Error` (io, handshake, remote calls) belong to code that is
-- not modelled.
pub data Error : Type 0 where
  malformed : Malformation → Error
  json : Error

-- `Result<A, Error>`.
pub data Result {ℓ} (A : Type ℓ) : Type ℓ where
  ok : A → Result A
  err : Error → Result A

infixl 5 ◌>>=◌
abbrev pub ◌>>=◌ {ℓ κ} : {A : Type ℓ} {B : Type κ} → Result A → (A → Result B) → Result B
ok a >>= f = f a
err e >>= f = err e
