-- ===== src/EditorConn/Ipc.antt =====
-- ember/editor-conn/src/ipc.rs: the value encoding of Code-OSS IPC and the messages made of it.
-- A byte is a number below 256, and a position in the buffer is passed on by each read. Strings
-- and JSON values are types `S` and `J`; their UTF-8 and JSON text is code that the file only
-- calls, the parameters of `Texts`.
pub mod Cursor
pub mod Vql
pub mod RoundTrip
mod Tests
use darkpyonix_ember.Base.{
  ℕ, zero, suc, ◌+◌, ◌-◌, ◌*◌, ◌/◌, ◌%◌, ◌^◌, Bool, true, false, Option, none, some, List, [], ◌∷◌,
  ◌++◌, length, get_elem?, drop, ltb, leb, ◌==◌, if◌then◌else◌,
}
use darkpyonix_ember.Base.{take as sublist}
use darkpyonix_ember.EditorConn.{
  Result, ok, err, malformed, ◌>>=◌, truncated_vql, vql_too_long, truncated_value,
  unknown_data_type, json,
}

abbrev pub u32_mod : ℕ
u32_mod = 4_294_967_296

-- An `i32`: `pos n` is n, and `negsuc n` is -(n + 1).
pub data ℤ : Type 0 where
  pos negsuc : ℕ → ℤ

-- `i as u32` and `x as i32`.
unfoldable pub as_u32 : ℤ → ℕ
as_u32 (pos n) = n % u32_mod
as_u32 (negsuc n) = u32_mod - 1 - n % u32_mod

unfoldable pub as_i32 : ℕ → ℤ
as_i32 x = if ltb x 2_147_483_648 then pos x else negsuc (u32_mod - 1 - x)

-- The text of strings and of JSON values, as bytes.
pub record Texts (S J : Type 0) : Type 0 where
  pub as_bytes : S → List ℕ
  pub from_utf8_lossy : List ℕ → S
  pub to_string : J → List ℕ
  pub from_slice : List ℕ → Option J

mutual
  pub data IpcValue (S J : Type 0) : Type 0 where
    undefined : IpcValue S J
    string : S → IpcValue S J
    buffer : List ℕ → IpcValue S J
    vs_buffer : List ℕ → IpcValue S J
    array : IpcValues S J → IpcValue S J
    object : J → IpcValue S J
    int : ℤ → IpcValue S J

  -- `Vec<IpcValue>`.
  pub data IpcValues (S J : Type 0) : Type 0 where
    nil : IpcValues S J
    cons : IpcValue S J → IpcValues S J → IpcValues S J

pub count : {S J : Type 0} → IpcValues S J → ℕ
count nil = 0
count (cons v vs) = suc (count vs)

-- The loop of `write_vql`, of which a `u32` takes at most five rounds.
pub write_groups : ℕ → ℕ → List ℕ
write_groups zero v = []
write_groups (suc rounds) v =
    let byte = v % 128 in
    let rest = v / 128 in
    let others = write_groups rounds rest in
    if v == 0 then [] else ((if rest == 0 then byte else byte + 128) ∷ others)

-- What is appended to `out`.
unfoldable pub write_vql : ℕ → List ℕ
unfolding write_groups
write_vql value = if value == 0 then 0 ∷ [] else write_groups 5 value

-- The loop of `read_vql`. The groups do not overlap, so that `|=` is a sum. A sixth group ends it,
-- whether it is the last one or not.
pub read_groups : ℕ → List ℕ → ℕ → ℕ → ℕ → Result (ℕ × ℕ)
read_groups zero buf at value shift = err (malformed vql_too_long)
read_groups (suc rounds) buf at value shift = elim (get_elem? buf at) [
  | none ↦ err (malformed truncated_vql)
  | some b ↦
      let value' = if ltb shift 64 then value + b % 128 * 2 ^ shift else value in
      let rest = read_groups rounds buf (suc at) value' (shift + 7) in
      if ltb b 128
      then ok (value' % u32_mod, suc at)
      else if ltb 35 (shift + 7)
      then err (malformed vql_too_long)
      else rest
]

unfoldable pub read_vql : List ℕ → ℕ → Result (ℕ × ℕ)
unfolding read_groups
read_vql buf at = read_groups 6 buf at 0 0

-- `n` bytes, and the position behind them.
unfoldable pub take : List ℕ → ℕ → ℕ → Result (List ℕ × ℕ)
take buf at n =
    if leb (at + n) (length buf)
    then ok (sublist n (drop at buf), at + n)
    else err (malformed truncated_value)

-- A length, and as many bytes.
unfoldable pub read_bytes : List ℕ → ℕ → Result (List ℕ × ℕ)
read_bytes buf at = read_vql buf at >>= (λ n. take buf n.1 n.0)

unfoldable pub write_bytes : List ℕ → List ℕ
write_bytes bytes = write_vql (length bytes % u32_mod) ++ bytes

module _ {S J : Type 0} (texts : Texts S J) where
  -- What is appended to `out`.
  mutual
    pub serialize : IpcValue S J → List ℕ
    serialize undefined = 0 ∷ []
    serialize (string s) = 1 ∷ write_bytes (texts.as_bytes s)
    serialize (buffer b) = 2 ∷ write_bytes b
    serialize (vs_buffer b) = 3 ∷ write_bytes b
    serialize (array a) = 4 ∷ write_vql (count a % u32_mod) ++ serialize_all a
    serialize (object o) = 5 ∷ write_bytes (texts.to_string o)
    serialize (int i) = 6 ∷ write_vql (as_u32 i)

    pub serialize_all : IpcValues S J → List ℕ
    serialize_all nil = []
    serialize_all (cons v vs) = serialize v ++ serialize_all vs

  -- `n` values, each read by `read`.
  pub read_items : (ℕ → Result (IpcValue S J × ℕ)) → ℕ → ℕ → Result (IpcValues S J × ℕ)
  read_items read zero at = ok (nil, at)
  read_items read (suc n) at =
      read at >>= (λ v. read_items read n v.1 >>= (λ vs. ok (cons v.0 vs.0, vs.1)))

  unfoldable pub parse_object : List ℕ × ℕ → Result (IpcValue S J × ℕ)
  parse_object (bytes, at) = elim (texts.from_slice bytes) [
    | none ↦ err json
    | some o ↦ ok (object o, at)
  ]

  -- What follows the type byte. `read` reads the items of an array.
  unfoldable pub read_body :
      (ℕ → Result (IpcValue S J × ℕ)) → List ℕ → ℕ → ℕ → Result (IpcValue S J × ℕ)
  read_body read buf ty at =
      if ty == 0
      then ok (undefined, at)
      else if ty == 1
      then read_bytes buf at >>= (λ b. ok (string (texts.from_utf8_lossy b.0), b.1))
      else if ty == 2
      then read_bytes buf at >>= (λ b. ok (buffer b.0, b.1))
      else if ty == 3
      then read_bytes buf at >>= (λ b. ok (vs_buffer b.0, b.1))
      else if ty == 4
      then read_vql buf at >>= (λ n. read_items read n.0 n.1 >>= (λ a. ok (array a.0, a.1)))
      else if ty == 5
      then read_bytes buf at >>= parse_object
      else if ty == 6
      then read_vql buf at >>= (λ i. ok (int (as_i32 i.0), i.1))
      else err (malformed (unknown_data_type ty))

  -- The type byte. `take` gives a list of one.
  unfoldable pub dispatch :
      (ℕ → Result (IpcValue S J × ℕ)) → List ℕ → List ℕ × ℕ → Result (IpcValue S J × ℕ)
  dispatch read buf ([], at) = err (malformed truncated_value)
  dispatch read buf (ty ∷ tys, at) = read_body read buf ty at

  -- On fuel, of which a value takes one for each array that it stands in, and one.
  pub deserialize : ℕ → List ℕ → ℕ → Result (IpcValue S J × ℕ)
  deserialize zero buf at = err (malformed truncated_value)
  deserialize (suc fuel) buf at =
      let read = deserialize fuel buf in take buf at 1 >>= dispatch read buf

  unfoldable pub encode_message : IpcValue S J → IpcValue S J → List ℕ
  encode_message header body = serialize header ++ serialize body

  -- The rest of a message behind its header.
  unfoldable pub decode_body : List ℕ → IpcValue S J × ℕ → Result (IpcValue S J × IpcValue S J)
  decode_body buf (header, at) =
      if ltb at (length buf)
      then deserialize (suc (length buf)) buf at >>= (λ body. ok (header, body.0))
      else ok (header, undefined)

  unfoldable pub decode_message : List ℕ → Result (IpcValue S J × IpcValue S J)
  decode_message buf = deserialize (suc (length buf)) buf 0 >>= decode_body buf
