-- ===== src/EditorConn/Ipc/RoundTrip.antt =====
-- What `serialize` writes, `deserialize` reads back, wherever it stands in a buffer.
use darkpyonix_ember.Base.{
  ℕ, suc, ◌+◌, ◌-◌, ◌%◌, ◌≤◌, ◌<◌, max, ◌≡◌, false, refl, sym, ◌∙◌, ap, subst, some, List, [], ◌∷◌,
  ◌++◌, length, append_assoc, append-nil, length-append, ltb, arith, lt→ltb,
}
use darkpyonix_ember.EditorConn.{ok, ◌>>=◌}
use darkpyonix_ember.EditorConn.Ipc.{
  u32_mod, ℤ, pos, negsuc, as_u32, as_i32, Texts, IpcValue, IpcValues, undefined, string, buffer,
  vs_buffer, array, object, int, nil, cons, count, write_vql, read_vql, take, read_bytes,
  write_bytes, serialize, serialize_all, read_items, parse_object, read_body, dispatch, deserialize,
  encode_message, decode_body, decode_message,
}
use darkpyonix_ember.EditorConn.Ipc.Cursor.{At, At-skip, At-start, At-length, take-At}
use darkpyonix_ember.EditorConn.Ipc.Vql.{next_At, read_vql-write_vql}

unfoldable pub FitsI32 : ℤ → Type 0
FitsI32 (pos n) = n < 2_147_483_648
FitsI32 (negsuc n) = n < 2_147_483_648

as_i32-as_u32 : (i : ℤ) → FitsI32 i → as_i32 (as_u32 i) ≡ i
unfolding FitsI32 as_i32 as_u32
as_i32-as_u32 (pos n) h = ground arith
as_i32-as_u32 (negsuc n) h = ground arith

as_u32-lt : (i : ℤ) → as_u32 i < u32_mod
unfolding as_u32
as_u32-lt (pos n) = omega arith
as_u32-lt (negsuc n) = omega arith

pub read_bytes-write_bytes :
    (bytes buf : List ℕ) (at : ℕ) (rest : List ℕ)
    → length bytes < u32_mod
    → At buf at (write_bytes bytes ++ rest)
    → read_bytes buf at ≡ ok (bytes, at + length (write_bytes bytes))
unfolding read_bytes write_bytes
read_bytes-write_bytes bytes buf at rest small h =
    let n = length bytes % u32_mod in
    let h' : At buf at (write_vql n ++ (bytes ++ rest)) =
      subst (At buf at) (append_assoc (write_vql n) bytes rest) h in
    let len : n ≡ length bytes = omega arith in
    ap (λ r. r >>= (λ m. take buf m.1 m.0))
      (read_vql-write_vql n buf at (bytes ++ rest) (omega arith) h')
    ∙ ap (take buf (at + length (write_vql n))) len
    ∙ take-At buf (at + length (write_vql n)) bytes rest
        (At-skip buf at (write_vql n) (bytes ++ rest) h')
    ∙ ap (λ k. ok (bytes, k)) (omega (arith, length-append (write_vql n) bytes))

module _ {S J : Type 0} (texts : Texts S J) where
  -- The values that the wire can carry: lengths and integers of 32 bits, and texts that read back.
  unfoldable mutual
    pub Fits : IpcValue S J → Type 0
    Fits undefined = Unit
    Fits (string s) =
        (length (texts.as_bytes s) < u32_mod) × (texts.from_utf8_lossy (texts.as_bytes s) ≡ s)
    Fits (buffer b) = length b < u32_mod
    Fits (vs_buffer b) = length b < u32_mod
    Fits (array a) = (count a < u32_mod) × FitsAll a
    Fits (object o) =
        (length (texts.to_string o) < u32_mod) × (texts.from_slice (texts.to_string o) ≡ some o)
    Fits (int i) = FitsI32 i

    pub FitsAll : IpcValues S J → Type 0
    FitsAll nil = Unit
    FitsAll (cons v vs) = Fits v × FitsAll vs

  unfoldable mutual
    pub depth : IpcValue S J → ℕ
    depth undefined = 1
    depth (string s) = 1
    depth (buffer b) = 1
    depth (vs_buffer b) = 1
    depth (array a) = suc (depth_all a)
    depth (object o) = 1
    depth (int i) = 1

    pub depth_all : IpcValues S J → ℕ
    depth_all nil = 0
    depth_all (cons v vs) = max (depth v) (depth_all vs)

  -- Each value is at least as long as it is deep, so that the length of the buffer is enough fuel.
  mutual
    unfolding serialize serialize_all depth depth_all

    pub depth-le : (v : IpcValue S J) → depth v ≤ length (serialize texts v)
    depth-le undefined = omega arith
    depth-le (string s) = omega arith
    depth-le (buffer b) = omega arith
    depth-le (vs_buffer b) = omega arith
    depth-le (array a) = omega (
      arith,
      depth_all-le a,
      length-append (write_vql (count a % u32_mod)) (serialize_all texts a),
    )
    depth-le (object o) = omega arith
    depth-le (int i) = omega arith

    depth_all-le : (vs : IpcValues S J) → depth_all vs ≤ length (serialize_all texts vs)
    depth_all-le nil = omega arith
    depth_all-le (cons v vs) = omega (
      arith,
      depth-le v,
      depth_all-le vs,
      length-append (serialize texts v) (serialize_all texts vs),
    )

  depth-pos : (v : IpcValue S J) → 1 ≤ depth v
  unfolding depth
  depth-pos undefined = omega arith
  depth-pos (string s) = omega arith
  depth-pos (buffer b) = omega arith
  depth-pos (vs_buffer b) = omega arith
  depth-pos (array a) = omega arith
  depth-pos (object o) = omega arith
  depth-pos (int i) = omega arith

  -- The type byte is read, then what follows it.
  deserialize-head :
      (fuel less : ℕ) (buf : List ℕ) (at ty : ℕ) (rest : List ℕ)
      → fuel ≡ suc less
      → At buf at (ty ∷ rest)
      → deserialize texts fuel buf at ≡ read_body texts (deserialize texts less buf) buf ty (suc at)
  unfolding deserialize dispatch
  deserialize-head fuel less buf at ty rest e h =
      ap (λ f. deserialize texts f buf at) e
      ∙ ap (λ r. r >>= dispatch texts (deserialize texts less buf) buf)
          (take-At buf at (ty ∷ []) rest h)
      ∙ ap (read_body texts (deserialize texts less buf) buf ty) (omega arith)

  -- A body that is one run of bytes.
  body-bytes :
      (bytes buf : List ℕ) (at ty : ℕ) (rest : List ℕ)
      → length bytes < u32_mod
      → At buf at ((ty ∷ write_bytes bytes) ++ rest)
      → read_bytes buf (suc at) ≡ ok (bytes, at + length (ty ∷ write_bytes bytes))
  body-bytes bytes buf at ty rest small h =
      read_bytes-write_bytes bytes buf (suc at) rest small
        (next_At buf at ty (write_bytes bytes ++ rest) h)
      ∙ ap (λ k. ok (bytes, k)) (omega arith)

  body-vql :
      (v : ℕ) (buf : List ℕ) (at ty : ℕ) (rest : List ℕ)
      → v < u32_mod
      → At buf at (ty ∷ (write_vql v ++ rest))
      → read_vql buf (suc at) ≡ ok (v, at + length (ty ∷ write_vql v))
  body-vql v buf at ty rest small h =
      read_vql-write_vql v buf (suc at) rest small (next_At buf at ty (write_vql v ++ rest) h)
      ∙ ap (λ k. ok (v, k)) (omega arith)

  mutual
    unfolding serialize serialize_all depth depth_all Fits FitsAll read_body count read_items
        parse_object

    pub deserialize_value :
        (v : IpcValue S J) (fuel less : ℕ) (buf : List ℕ) (at : ℕ) (rest : List ℕ)
        → fuel ≡ suc less
        → Fits v
        → depth v ≤ fuel
        → At buf at (serialize texts v ++ rest)
        → deserialize texts fuel buf at ≡ ok (v, at + length (serialize texts v))
    deserialize_value undefined fuel less buf at rest e fits d h =
        deserialize-head fuel less buf at 0 rest e h ∙ ap (λ k. ok (undefined, k)) (omega arith)
    deserialize_value (string s) fuel less buf at rest e fits d h =
        deserialize-head fuel less buf at 1 _ e h
        ∙ ap (λ r. r >>= (λ b. ok (string (texts.from_utf8_lossy b.0), b.1)))
            (body-bytes (texts.as_bytes s) buf at 1 rest fits.0 h)
        ∙ ap (λ k. ok (string k, at + length (serialize texts (string s)))) fits.1
    deserialize_value (buffer b) fuel less buf at rest e fits d h =
        deserialize-head fuel less buf at 2 _ e h
        ∙ ap (λ r. r >>= (λ b. ok (buffer b.0, b.1))) (body-bytes b buf at 2 rest fits h)
    deserialize_value (vs_buffer b) fuel less buf at rest e fits d h =
        deserialize-head fuel less buf at 3 _ e h
        ∙ ap (λ r. r >>= (λ b. ok (vs_buffer b.0, b.1))) (body-bytes b buf at 3 rest fits h)
    deserialize_value (array a) fuel less buf at rest e fits d h =
        let head = 4 ∷ write_vql (count a % u32_mod) in
        let items = serialize_all texts a in
        let h' : At buf at (head ++ (items ++ rest)) =
          subst (At buf at) (append_assoc head items rest) h in
        deserialize-head fuel less buf at 4 _ e h
        ∙ ap
            (λ r. r >>= (λ n.
              read_items texts (deserialize texts less buf) n.0 n.1 >>= (λ a. ok (array a.0, a.1))))
            (body-vql (count a % u32_mod) buf at 4 (serialize_all texts a ++ rest) (omega arith) h')
        ∙ ap
            (λ n.
              read_items texts (deserialize texts less buf) n (at + length head)
              >>= (λ a. ok (array a.0, a.1)))
            (omega (arith, fits.0))
        ∙ ap (λ r. r >>= (λ a. ok (array a.0, a.1)))
            (read_items-serialize_all a less buf (at + length head) rest fits.1
              (omega (arith, d, e)) (At-skip buf at head (items ++ rest) h'))
        ∙ ap (λ k. ok (array a, k)) (omega (arith, length-append head items))
    deserialize_value (object o) fuel less buf at rest e fits d h =
        deserialize-head fuel less buf at 5 _ e h
        ∙ ap (λ r. r >>= parse_object texts) (body-bytes (texts.to_string o) buf at 5 rest fits.0 h)
        ∙ rw (fits.1, parse_object) refl
    deserialize_value (int i) fuel less buf at rest e fits d h =
        deserialize-head fuel less buf at 6 _ e h
        ∙ ap (λ r. r >>= (λ i. ok (int (as_i32 i.0), i.1)))
            (body-vql (as_u32 i) buf at 6 rest (as_u32-lt i) h)
        ∙ ap (λ k. ok (int k, at + length (serialize texts (int i)))) (as_i32-as_u32 i fits)

    read_items-serialize_all :
        (vs : IpcValues S J) (fuel : ℕ) (buf : List ℕ) (at : ℕ) (rest : List ℕ)
        → FitsAll vs
        → depth_all vs ≤ fuel
        → At buf at (serialize_all texts vs ++ rest)
        → read_items texts (deserialize texts fuel buf) (count vs) at
          ≡ ok (vs, at + length (serialize_all texts vs))
    read_items-serialize_all nil fuel buf at rest fits d h = ap (λ k. ok (nil, k)) (omega arith)
    read_items-serialize_all (cons v vs) fuel buf at rest fits d h =
        ap
          (λ r. r >>= (λ v.
            read_items texts (deserialize texts fuel buf) (count vs) v.1
            >>= (λ vs. ok (cons v.0 vs.0, vs.1))))
          (deserialize_value v fuel (fuel - 1) buf at (serialize_all texts vs ++ rest)
            (omega (arith, d, depth-pos v)) fits.0 (omega (arith, d)) (reassoc v vs buf at rest h))
        ∙ ap (λ r. r >>= (λ vs. ok (cons v vs.0, vs.1)))
            (read_items-serialize_all vs fuel buf (at + length (serialize texts v)) rest fits.1
              (omega (arith, d))
              (At-skip buf at (serialize texts v) (serialize_all texts vs ++ rest)
                (reassoc v vs buf at rest h)))
        ∙ ap (λ k. ok (cons v vs, k))
            (omega (arith, length-append (serialize texts v) (serialize_all texts vs)))
      where
        reassoc :
            (v : IpcValue S J) (vs : IpcValues S J) (buf : List ℕ) (at : ℕ) (rest : List ℕ)
            → At buf at ((serialize texts v ++ serialize_all texts vs) ++ rest)
            → At buf at (serialize texts v ++ (serialize_all texts vs ++ rest))
        reassoc v vs buf at rest h =
            subst (At buf at) (append_assoc (serialize texts v) (serialize_all texts vs) rest) h

  -- A value that the wire can carry, at any position of a buffer and with anything behind it, is read
  -- back, and the position moves behind it; the length of the buffer is enough fuel.
  pub deserialize-serialize :
      (v : IpcValue S J) (buf : List ℕ) (at : ℕ) (rest : List ℕ)
      → Fits v
      → At buf at (serialize texts v ++ rest)
      → deserialize texts (suc (length buf)) buf at ≡ ok (v, at + length (serialize texts v))
  deserialize-serialize v buf at rest fits h =
      deserialize_value v (suc (length buf)) (length buf) buf at rest refl fits
        (omega (
          arith,
          depth-le v,
          At-length buf at (serialize texts v ++ rest) h,
          length-append (serialize texts v) rest,
        ))
        h

  -- A message of two values that the wire can carry, header and body, is decoded to these values.
  pub decode_message-encode_message :
      (header body : IpcValue S J)
      → Fits header
      → Fits body
      → decode_message texts (encode_message texts header body) ≡ ok (header, body)
  unfolding decode_message encode_message decode_body
  decode_message-encode_message header body fits fits' =
      let head = serialize texts header in
      let tail = serialize texts body in
      let buf = head ++ tail in
      let len = length-append head tail in
      let start : At buf 0 (head ++ tail) = At-start buf in
      let next : At buf (0 + length head) (tail ++ []) =
        subst (At buf (0 + length head)) (sym (append-nil tail)) (At-skip buf 0 head tail start) in
      ap (λ r. r >>= decode_body texts buf)
        (deserialize_value header (suc (length buf)) (length buf) buf 0 tail refl fits
          (omega (arith, len, depth-le header)) start)
      ∙ rw
          (
            lt→ltb (0 + length head) (length buf)
                (omega (arith, len, depth-le body, depth-pos body)),
            decode_body,
          )
          (ap (λ r. r >>= (λ b. ok (header, b.0)))
            (deserialize_value body (suc (length buf)) (length buf) buf (0 + length head) [] refl
              fits' (omega (arith, len, depth-le body)) next))

  -- A header alone, where the wire can carry it, is a message whose body is undefined.
  pub decode_message-header :
      (header : IpcValue S J)
      → Fits header
      → decode_message texts (serialize texts header) ≡ ok (header, undefined)
  unfolding decode_message decode_body
  decode_message-header header fits =
      let head = serialize texts header in
      let start : At head 0 (head ++ []) =
        subst (At head 0) (sym (append-nil head)) (At-start head) in
      ap (λ r. r >>= decode_body texts head)
        (deserialize_value header (suc (length head)) (length head) head 0 [] refl fits
          (omega (arith, depth-le header)) start)
      ∙ rw (end_lem (length head), decode_body) refl
    where
      end_lem : (n : ℕ) → ltb (0 + n) n ≡ false
      end_lem n = ground arith
