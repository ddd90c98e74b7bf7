-- ===== src/Editor/Coords/Columns.antt =====
-- The column conversions of one line agree with one another, and clamping finds a boundary. The
-- lines are shorter than 2 ^ 32 units, so that no count wraps.
use darkpyonix_ember.Base.{
  ℕ, ◌+◌, ◌%◌, ◌≤◌, ◌<◌, ◌≡◌, inl, inr, some, List, [], ◌∷◌, ltb, Bool-cases, arith,
}
use darkpyonix_ember.Editor.Coords.{
  u32_mod, len_utf16, utf16_count, unit_from, char_to_utf16, char_from, utf16_to_char, clamp_from,
  clamp_col,
}

fits : (u : ℕ) → u < u32_mod → u % u32_mod ≡ u
fits u h = omega arith

unit_from-le :
    (u k : ℕ) (cs : List ℕ) (n v : ℕ)
    → u + utf16_count cs < u32_mod
    → unit_from u k cs n ≡ some v
    → u ≤ v
unfolding unit_from utf16_count
unit_from-le u k [] n v small h = ground arith
unit_from-le u k (c ∷ cs) n v small h =
    let whole = fits (u + len_utf16 c) (omega arith) in
    ground (
      arith,
      unit_from-le (u + len_utf16 c) (k + 1) cs n v (omega arith),
      rw (whole, unit_from) at h,
    )

char_from-unit_from :
    (u k : ℕ) (cs : List ℕ) (n v : ℕ)
    → u + utf16_count cs < u32_mod
    → unit_from u k cs n ≡ some v
    → char_from u k cs v ≡ some n
unfolding unit_from char_from utf16_count
char_from-unit_from u k [] n v small h = ground arith
char_from-unit_from u k (c ∷ cs) n v small h =
    let whole = fits (u + len_utf16 c) (omega arith) in
    let h' = rw (whole, unit_from) at h in
    rw (whole, char_from)
      (ground (
        arith,
        h',
        unit_from-le (u + len_utf16 c) (k + 1) cs n v (omega arith),
        char_from-unit_from (u + len_utf16 c) (k + 1) cs n v (omega arith),
      ))

-- In a line of fewer than 2 ^ 32 units, the column of a character is taken back to the character.
pub utf16_to_char-char_to_utf16 :
    (line : List ℕ) (n col : ℕ)
    → utf16_count line < u32_mod
    → char_to_utf16 line n ≡ some col
    → utf16_to_char line col ≡ some n
unfolding char_to_utf16 utf16_to_char
utf16_to_char-char_to_utf16 line n col small h =
    char_from-unit_from 0 0 line n col (omega (arith, small)) h

char_from-le :
    (u k : ℕ) (cs : List ℕ) (col n : ℕ)
    → u + utf16_count cs < u32_mod
    → char_from u k cs col ≡ some n
    → u ≤ col
unfolding char_from utf16_count
char_from-le u k [] col n small h = ground arith
char_from-le u k (c ∷ cs) col n small h =
    let whole = fits (u + len_utf16 c) (omega arith) in
    ground (
      arith,
      char_from-le (u + len_utf16 c) (k + 1) cs col n (omega arith),
      rw (whole, char_from) at h,
    )

record Clamps (u k : ℕ) (cs : List ℕ) (col to : ℕ) : Type 0 where
  from_start : u ≤ to
  at_most : to ≤ col
  boundary : (n : ℕ) × (char_from u k cs to ≡ some n)
  greatest : (c n : ℕ) → char_from u k cs c ≡ some n → c ≤ col → c ≤ to

clamp_from-Clamps :
    (u k : ℕ) (cs : List ℕ) (col : ℕ)
    → u + utf16_count cs < u32_mod
    → u ≤ col
    → Clamps u k cs col (clamp_from u cs col)
unfolding clamp_from char_from utf16_count
clamp_from-Clamps u k [] col small h = record {
  from_start = omega arith;
  at_most = h;
  boundary = (k, ground arith);
  greatest = λ c n f g. ground arith;
}
clamp_from-Clamps u k (c ∷ cs) col small h =
    let next = u + len_utf16 c in
    let whole = fits next (omega arith) in
    let room : next + utf16_count cs < u32_mod = omega arith in
    elim (Bool-cases (ltb col next)) [
      | inl e ↦
          rw (whole, e, clamp_from)
            (record {
              from_start = omega arith;
              at_most = h;
              boundary = (k, ground arith);
              greatest =
                  λ d n f g. ground (arith, char_from-le next (k + 1) cs d n room, rw whole at f);
            })
      | inr e ↦
          let v = clamp_from-Clamps next (k + 1) cs col room (ground arith) in
          rw (whole, e, clamp_from)
            (record {
              from_start = ground (arith, v.from_start);
              at_most = v.at_most;
              boundary = (v.boundary.0, ground (arith, v.from_start, v.boundary.1));
              greatest = λ d n f g. ground (arith, v.greatest d n, v.from_start);
            })
    ]

-- In a line of fewer than 2 ^ 32 units, the clamped column is at most the given one, it is the
-- column of a character or the end of the line, and it is the greatest such column.
pub clamp_col_greatest :
    (line : List ℕ) (col : ℕ)
    → utf16_count line < u32_mod
    → (clamp_col line col ≤ col)
      × ((n : ℕ) × (utf16_to_char line (clamp_col line col) ≡ some n))
      × ((c n : ℕ) → utf16_to_char line c ≡ some n → c ≤ col → c ≤ clamp_col line col)
unfolding clamp_col utf16_to_char
clamp_col_greatest line col small =
    let v = clamp_from-Clamps 0 0 line col (omega (arith, small)) (omega arith) in
    (v.at_most, v.boundary, v.greatest)
