-- ===== src/EditorConn/Ipc/Vql.antt =====
-- The variable-length integers: what is written is read back.
use darkpyonix_ember.Base.{
  ℕ, zero, suc, ◌+◌, ◌*◌, ◌/◌, ◌%◌, ◌^◌, ◌≤◌, ◌<◌, ◌≡◌, refl, sym, ◌∙◌, ap, ap₂, subst, inl, inr,
  true, false, Bool-cases, List, [], ◌∷◌, ◌++◌, length, ltb, arith,
}
use native.Mathlib.Nat.{pow-suc, mul_assoc, add-mul, mul_comm}
use darkpyonix_ember.EditorConn.{ok}
use darkpyonix_ember.EditorConn.Ipc.{u32_mod, write_groups, write_vql, read_groups, read_vql}
use darkpyonix_ember.EditorConn.Ipc.Cursor.{At, At-head, At-skip}

-- One round on a last group, and on one that others follow.
read_last :
    (rounds : ℕ) (buf : List ℕ) (at b : ℕ) (rest : List ℕ) (value shift : ℕ)
    → At buf at (b ∷ rest)
    → b < 128
    → shift < 64
    → read_groups (suc rounds) buf at value shift ≡ ok ((value + b * 2 ^ shift) % u32_mod, suc at)
unfolding read_groups
read_last rounds buf at b rest value shift h small few =
    rw (At-head buf at b rest h, read_groups) (ground arith)

read_more :
    (rounds : ℕ) (buf : List ℕ) (at b : ℕ) (rest : List ℕ) (value shift : ℕ)
    → At buf at ((b + 128) ∷ rest)
    → b < 128
    → shift ≤ 28
    → read_groups (suc rounds) buf at value shift
      ≡ read_groups rounds buf (suc at) (value + b * 2 ^ shift) (shift + 7)
unfolding read_groups
read_more rounds buf at b rest value shift h small few =
    rw (At-head buf at (b + 128) rest h, group, more, few_bits, room, read_groups) refl
  where
    group : (b + 128) % 128 ≡ b
    group = omega arith

    more : ltb (b + 128) 128 ≡ false
    more = ground arith

    few_bits : ltb shift 64 ≡ true
    few_bits = ground arith

    room : ltb 35 (shift + 7) ≡ false
    room = ground arith

pub next_At :
    (buf : List ℕ) (at b : ℕ) (rest : List ℕ) → At buf at (b ∷ rest) → At buf (suc at) rest
next_At buf at b rest h = subst (λ k. At buf k rest) (omega arith) (At-skip buf at (b ∷ []) rest h)

-- The groups of a number below 128 ^ k, for k from one to five.
abbrev groups : ℕ → ℕ → List ℕ
groups zero v = v ∷ []
groups (suc k) v = (v % 128 + 128) ∷ groups k (v / 128)

write_vql-groups :
    (v : ℕ) → v < u32_mod → (k : ℕ) × (write_vql v ≡ groups k v) × (k ≤ 4) × (v < 128 ^ suc k)
unfolding write_vql write_groups
write_vql-groups v h = elim (Bool-cases (ltb v 128)) [
  | inl e ↦ (0, ground arith, omega arith, ground arith)
  | inr e ↦ elim (Bool-cases (ltb v 16_384)) [
    | inl f ↦ (1, ground arith, omega arith, ground arith)
    | inr f ↦ elim (Bool-cases (ltb v 2_097_152)) [
      | inl g ↦ (2, ground arith, omega arith, ground arith)
      | inr g ↦ elim (Bool-cases (ltb v 268_435_456)) [
        | inl i ↦ (3, ground arith, omega arith, ground arith)
        | inr i ↦ (4, ground arith, omega arith, ground arith)
      ]
    ]
  ]
]

seven_bits : (shift : ℕ) → 2 ^ (shift + 7) ≡ 2 ^ shift * 128
seven_bits s =
    ap (λ k. 2 ^ k) more
    ∙ omega (
      arith,
      pow-suc 2 s,
      pow-suc 2 (suc s),
      pow-suc 2 (suc (suc s)),
      pow-suc 2 (suc (suc (suc s))),
      pow-suc 2 (suc (suc (suc (suc s)))),
      pow-suc 2 (suc (suc (suc (suc (suc s))))),
      pow-suc 2 (suc (suc (suc (suc (suc (suc s)))))),
    )
  where
    more : s + 7 ≡ suc (suc (suc (suc (suc (suc (suc s))))))
    more = omega arith

split_group : (v p value : ℕ) → value + v % 128 * p + v / 128 * (p * 128) ≡ value + v * p
split_group v p value = sum (v % 128) (v / 128) ∙ ap (λ k. value + k * p) (omega arith)
  where
    sum : (a q : ℕ) → value + a * p + q * (p * 128) ≡ value + (a + q * 128) * p
    sum a q =
        omega (arith, add-mul a (q * 128) p, mul_assoc q 128 p, ap (λ k. q * k) (mul_comm p 128))

div_small : (k v : ℕ) → v < 128 ^ suc k → v / 128 < 128 ^ k
div_small k v h = omega (arith, pow-suc 128 k)

-- Reading the groups adds the number, shifted, to the value.
read_groups-groups :
    (k rounds : ℕ) (v : ℕ) (buf : List ℕ) (at : ℕ) (rest : List ℕ) (value shift : ℕ)
    → k < rounds
    → shift + 7 * k ≤ 28
    → v < 128 ^ suc k
    → At buf at (groups k v ++ rest)
    → read_groups rounds buf at value shift ≡ ok ((value + v * 2 ^ shift) % u32_mod, at + suc k)
read_groups-groups k zero v buf at rest value shift r s small h = elim r [ ]
read_groups-groups zero (suc rounds) v buf at rest value shift r s small h =
    read_last rounds buf at v rest value shift h (omega (arith, small)) (omega arith)
    ∙ ap (λ k. ok ((value + v * 2 ^ shift) % u32_mod, k)) (omega arith)
read_groups-groups (suc k) (suc rounds) v buf at rest value shift r s small h =
    read_more rounds buf at (v % 128) (groups k (v / 128) ++ rest) value shift h (omega arith)
      (omega arith)
    ∙ read_groups-groups k rounds (v / 128) buf (suc at) rest (value + v % 128 * 2 ^ shift)
        (shift + 7) (omega arith) (omega arith) (div_small (suc k) v small)
        (next_At buf at (v % 128 + 128) (groups k (v / 128) ++ rest) h)
    ∙ ap₂ (λ m n. ok (m % u32_mod, n))
        (ap (λ p. value + v % 128 * 2 ^ shift + v / 128 * p) (seven_bits shift)
          ∙ split_group v (2 ^ shift) value)
        (omega arith)

length-groups : (k v : ℕ) → length (groups k v) ≡ suc k
length-groups zero v = refl
length-groups (suc k) v = ap suc (length-groups k (v / 128))

-- Every `u32` is read back, from wherever in a buffer it was written, and the position moves behind
-- it.
pub read_vql-write_vql :
    (v : ℕ) (buf : List ℕ) (at : ℕ) (rest : List ℕ)
    → v < u32_mod
    → At buf at (write_vql v ++ rest)
    → read_vql buf at ≡ ok (v, at + length (write_vql v))
unfolding read_vql
read_vql-write_vql v buf at rest small h =
    let (k, wrote, few, fits) = write_vql-groups v small in
    read_groups-groups k 6 v buf at rest 0 0 (omega (arith, few)) (omega (arith, few)) fits
      (subst (λ b. At buf at (b ++ rest)) wrote h)
    ∙ ap₂ (λ m n. ok (m, n)) (omega (arith, small))
        (ap (λ n. at + n) (sym (length-groups k v)) ∙ ap (λ b. at + length b) (sym wrote))
