-- ===== src/Editor/Coords/Tests.antt =====
-- Concrete lines, ranges and edits.
use darkpyonix_ember.Base.{ℕ, ◌≤◌, ◌≡◌, refl, none, some, List, [], ◌∷◌, arith}
use darkpyonix_ember.Editor.Coords.{
  split_from, utf16_len, utf16_count, byte_from, prefix_of, clamp_from, unit_from, WidgetPos,
  WidgetRange, utf16_to_byte, byte_to_utf16, utf16_to_char, char_to_utf16, clamp_col, split_lines,
  end_of_insert, transform_range, shift_after, range_from_exthost, range_to_exthost, overlapped,
  is_empty,
}
use darkpyonix_ember.Editor.Coords.Columns.{utf16_to_char-char_to_utf16, clamp_col_greatest}
use darkpyonix_ember.Editor.Coords.Ranges.{
  IsOrdered, range_from_exthost-range_to_exthost, transform_range-IsOrdered, transform_range_undone,
}

-- An e with an accent, a face outside the basic plane, a Korean syllable and a z.
abbrev line : List ℕ
line = 233 ∷ 128_512 ∷ 54_620 ∷ 122 ∷ []

inside_the_pair : utf16_to_byte line 2 ≡ none
unfolding utf16_to_byte byte_from
inside_the_pair = refl

behind_the_face : utf16_to_byte line 3 ≡ some 6
unfolding utf16_to_byte byte_from
behind_the_face = refl

back_to_units : byte_to_utf16 line 6 ≡ some 3
unfolding byte_to_utf16 prefix_of utf16_len utf16_count
back_to_units = refl

clamped : clamp_col line 2 ≡ 1
unfolding clamp_col clamp_from
clamped = refl

abbrev at : ℕ → ℕ → WidgetPos
at l c = record { line = l; col = c }

abbrev squiggle : WidgetRange
squiggle = record { start = at 2 4; end = at 2 8 }

two_lines : end_of_insert (at 3 4) (120 ∷ 13 ∷ 10 ∷ 121 ∷ 122 ∷ []) ≡ at 4 2
unfolding end_of_insert split_lines split_from utf16_len utf16_count
two_lines = refl

typed_inside :
    transform_range squiggle (record { start = at 2 5; end = at 2 5 }) (120 ∷ 121 ∷ [])
    ≡ some (record { start = at 2 4; end = at 2 10 })
unfolding transform_range end_of_insert split_lines overlapped is_empty shift_after split_from
    utf16_len utf16_count
typed_inside = refl

utf16_to_char-char_to_utf16_example : utf16_to_char line 3 ≡ some 2
unfolding char_to_utf16 unit_from utf16_count
utf16_to_char-char_to_utf16_example = utf16_to_char-char_to_utf16 line 2 3 (omega arith) refl

clamp_col_greatest_example :
    (clamp_col line 2 ≤ 2)
    × ((n : ℕ) × (utf16_to_char line (clamp_col line 2) ≡ some n))
    × ((c n : ℕ) → utf16_to_char line c ≡ some n → c ≤ 2 → c ≤ clamp_col line 2)
unfolding utf16_count
clamp_col_greatest_example = clamp_col_greatest line 2 (omega arith)

range_from_exthost-range_to_exthost_example :
    range_from_exthost (range_to_exthost squiggle) ≡ squiggle
range_from_exthost-range_to_exthost_example =
    range_from_exthost-range_to_exthost squiggle refl
      (record { line_fits = omega arith; col_fits = omega arith })
      (record { line_fits = omega arith; col_fits = omega arith })

abbrev above : WidgetRange
above = record { start = at 0 0; end = at 0 3 }

transform_range-IsOrdered_example : IsOrdered (record { start = at 3 4; end = at 3 8 })
unfolding transform_range end_of_insert split_lines overlapped is_empty shift_after IsOrdered
    split_from utf16_len utf16_count
transform_range-IsOrdered_example =
    transform_range-IsOrdered squiggle above (record { start = at 3 4; end = at 3 8 })
      (110 ∷ 10 ∷ []) refl (omega arith) (omega arith) (omega arith) refl

-- A line break replaces three characters, and the three are put back.
transform_range_undone_example :
    let inserted = end_of_insert (at 0 0) (110 ∷ 10 ∷ []) in
    (out : WidgetRange) × (transform_range squiggle above (110 ∷ 10 ∷ []) ≡ some out)
    × (transform_range out (record { start = at 0 0; end = inserted }) (97 ∷ 98 ∷ 99 ∷ [])
        ≡ some squiggle)
unfolding end_of_insert split_lines IsOrdered split_from utf16_len utf16_count
transform_range_undone_example =
    transform_range_undone squiggle above (110 ∷ 10 ∷ []) (97 ∷ 98 ∷ 99 ∷ []) refl refl refl refl
      refl (omega arith) (omega arith) (omega arith)
