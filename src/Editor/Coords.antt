-- ===== src/Editor/Coords.antt =====
-- ember/editor/src/coords.rs: positions and ranges of the widget and of the extension host, columns
-- in UTF-16 units, and how a range moves through an edit; and `split_lines` of
-- ember/editor-conn/src/document.rs. A text is the list of its Unicode scalar values. A position is
-- two `u32`: sums, and the counts of the units within a line, are taken modulo 2 ^ 32.
pub mod Columns
pub mod Ranges
mod Tests
use darkpyonix_ember.Base.{
  ℕ, zero, suc, ◌+◌, ◌-◌, ◌%◌, Bool, true, false, not, ◌&&◌, ◌||◌, Option, none, some, List, [],
  ◌∷◌, ◌++◌, length, get_elem?, ltb, leb, ◌==◌, if◌then◌else◌, min,
}

abbrev pub u32_mod : ℕ
u32_mod = 4_294_967_296

pub record WidgetPos : Type 0 where
  pub line : ℕ
  pub col : ℕ

pub record Position : Type 0 where
  pub line_number : ℕ
  pub column : ℕ

pub record WidgetRange : Type 0 where
  pub start : WidgetPos
  pub end : WidgetPos

pub record Range : Type 0 where
  pub start_line_number : ℕ
  pub start_column : ℕ
  pub end_line_number : ℕ
  pub end_column : ℕ

-- The derived order, line first.
abbrev pub pos_lt : WidgetPos → WidgetPos → Bool
pos_lt p q = ltb p.line q.line || (p.line == q.line && ltb p.col q.col)

abbrev pub pos_le : WidgetPos → WidgetPos → Bool
pos_le p q = ltb p.line q.line || (p.line == q.line && leb p.col q.col)

abbrev pub pos_eq : WidgetPos → WidgetPos → Bool
pos_eq p q = p.line == q.line && p.col == q.col

unfoldable pub to_exthost : WidgetPos → Position
to_exthost p = record { line_number = (p.line + 1) % u32_mod; column = (p.col + 1) % u32_mod }

-- The subtraction saturates at 0.
unfoldable pub from_exthost : Position → WidgetPos
from_exthost p = record { line = p.line_number - 1; col = p.column - 1 }

-- `WidgetRange::new`.
abbrev pub ordered : WidgetPos → WidgetPos → WidgetRange
ordered s e = if pos_lt e s then record { start = e; end = s } else record { start = s; end = e }

unfoldable pub is_empty : WidgetRange → Bool
is_empty r = pos_eq r.start r.end

unfoldable pub contains : WidgetRange → WidgetPos → Bool
contains r pos = pos_le r.start pos && pos_le pos r.end

unfoldable pub range_to_exthost : WidgetRange → Range
range_to_exthost r = record {
  start_line_number = (r.start.line + 1) % u32_mod;
  start_column = (r.start.col + 1) % u32_mod;
  end_line_number = (r.end.line + 1) % u32_mod;
  end_column = (r.end.col + 1) % u32_mod;
}

unfoldable pub range_from_exthost : Range → WidgetRange
range_from_exthost r =
    ordered (from_exthost (record { line_number = r.start_line_number; column = r.start_column }))
      (from_exthost (record { line_number = r.end_line_number; column = r.end_column }))

-- `char::len_utf16` and `char::len_utf8`.
abbrev pub len_utf16 : ℕ → ℕ
len_utf16 c = if ltb c 65_536 then 1 else 2

abbrev pub len_utf8 : ℕ → ℕ
len_utf8 c = if ltb c 128 then 1 else if ltb c 2_048 then 2 else if ltb c 65_536 then 3 else 4

-- `encode_utf16().count()`, and the same as a `u32`.
unfoldable pub utf16_count : List ℕ → ℕ
utf16_count [] = 0
utf16_count (c ∷ cs) = len_utf16 c + utf16_count cs

unfoldable pub utf16_len : List ℕ → ℕ
utf16_len cs = utf16_count cs % u32_mod

-- The length of a text in bytes.
unfoldable pub utf8_size : List ℕ → ℕ
utf8_size [] = 0
utf8_size (c ∷ cs) = len_utf8 c + utf8_size cs

-- The loop of `utf16_to_byte`, at the byte `byte`, with `units` counted so far.
pub byte_from : (units byte : ℕ) → List ℕ → ℕ → Option ℕ
byte_from units byte [] col = if units == col then some byte else none
byte_from units byte (c ∷ cs) col =
    let rest = byte_from ((units + len_utf16 c) % u32_mod) (byte + len_utf8 c) cs col in
    if units == col
    then some byte
    else if ltb col ((units + len_utf16 c) % u32_mod)
    then none
    else rest

unfoldable pub utf16_to_byte : List ℕ → ℕ → Option ℕ
utf16_to_byte = byte_from 0 0

-- `line.get(..byte)`: none where the byte is inside a character or past the end.
pub prefix_of : List ℕ → ℕ → Option (List ℕ)
prefix_of cs zero = some []
prefix_of [] (suc byte) = none
prefix_of (c ∷ cs) (suc byte) =
    let rest = prefix_of cs (suc byte - len_utf8 c) in
    if ltb (suc byte) (len_utf8 c) then none else elim rest [ none ↦ none | some p ↦ some (c ∷ p) ]

unfoldable pub byte_to_utf16 : List ℕ → ℕ → Option ℕ
byte_to_utf16 line byte = elim (prefix_of line byte) [ none ↦ none | some p ↦ some (utf16_len p) ]

-- The loop of `char_to_utf16`.
pub unit_from : (units n : ℕ) → List ℕ → ℕ → Option ℕ
unit_from units n [] chars = if n == chars then some units else none
unit_from units n (c ∷ cs) chars =
    let rest = unit_from ((units + len_utf16 c) % u32_mod) (n + 1) cs chars in
    if n == chars then some units else rest

unfoldable pub char_to_utf16 : List ℕ → ℕ → Option ℕ
char_to_utf16 = unit_from 0 0

-- The loop of `utf16_to_char`.
pub char_from : (units n : ℕ) → List ℕ → ℕ → Option ℕ
char_from units n [] col = if units == col then some n else none
char_from units n (c ∷ cs) col =
    let rest = char_from ((units + len_utf16 c) % u32_mod) (n + 1) cs col in
    if units == col
    then some n
    else if ltb col ((units + len_utf16 c) % u32_mod)
    then none
    else rest

unfoldable pub utf16_to_char : List ℕ → ℕ → Option ℕ
utf16_to_char = char_from 0 0

-- The loop of `clamp_col`.
pub clamp_from : (units : ℕ) → List ℕ → ℕ → ℕ
clamp_from units [] col = units
clamp_from units (c ∷ cs) col =
    let rest = clamp_from ((units + len_utf16 c) % u32_mod) cs col in
    if ltb col ((units + len_utf16 c) % u32_mod) then units else rest

unfoldable pub clamp_col : List ℕ → ℕ → ℕ
clamp_col = clamp_from 0

-- The closure of `clamp_range`. A missing line, which the bound rules out, reads as empty.
unfoldable pub clamp_pos : List (List ℕ) → WidgetPos → WidgetPos
clamp_pos [] p = record { line = 0; col = 0 }
clamp_pos (l ∷ ls) p =
    let line = min p.line (length ls % u32_mod) in
    record {
      line = line;
      col = clamp_col (elim (get_elem? (l ∷ ls) line) [ none ↦ [] | some text ↦ text ]) p.col;
    }

unfoldable pub clamp_range : List (List ℕ) → WidgetRange → WidgetRange
clamp_range lines r = ordered (clamp_pos lines r.start) (clamp_pos lines r.end)

-- `split_lines` with the current line `cur`: `\r\n`, `\r` and `\n` end a line. The flag says that the
-- last character was a `\r`, whose line a `\n` does not end again.
unfoldable pub split_from : Bool → List ℕ → List ℕ → List (List ℕ)
split_from cr cur [] = cur ∷ []
split_from cr cur (c ∷ cs) =
    let after_cr = split_from true [] cs in
    let after_lf = split_from false [] cs in
    let within = split_from false (cur ++ c ∷ []) cs in
    if c == 13
    then cur ∷ after_cr
    else if c == 10
    then (if cr then after_lf else cur ∷ after_lf)
    else within

unfoldable pub split_lines : List ℕ → List (List ℕ)
split_lines = split_from false []

abbrev pub last_line : List (List ℕ) → List ℕ
last_line [] = []
last_line (l ∷ []) = l
last_line (l ∷ m ∷ ls) = last_line (m ∷ ls)

unfoldable pub end_of_insert : WidgetPos → List ℕ → WidgetPos
end_of_insert start text =
    let lines = split_lines text in
    let last = last_line lines in
    if leb (length lines) 1
    then record { line = start.line; col = (start.col + utf16_len last) % u32_mod }
    else record { line = (start.line + (length lines - 1)) % u32_mod; col = utf16_len last }

-- A position at or after `edit.end`, moved. On the `i64` of the source no subtraction is cut off.
unfoldable pub shift_after : WidgetPos → WidgetRange → WidgetPos → WidgetPos
shift_after pos edit ins_end =
    if pos.line == edit.end.line
    then record { line = ins_end.line; col = (ins_end.col + (pos.col - edit.end.col)) % u32_mod }
    else record { line = (pos.line + ins_end.line - edit.end.line) % u32_mod; col = pos.col }

-- The parts of an overlapping edit.
unfoldable pub overlapped : WidgetRange → WidgetRange → WidgetPos → Option WidgetRange
overlapped r edit ins_end =
    let start = if pos_lt r.start edit.start then r.start else ins_end in
    let end = if pos_lt edit.end r.end then shift_after r.end edit ins_end else ins_end in
    let out = ordered start end in if is_empty out && not (is_empty r) then none else some out

unfoldable pub transform_range : WidgetRange → WidgetRange → List ℕ → Option WidgetRange
transform_range r edit text =
    let ins_end = end_of_insert edit.start text in
    if pos_lt r.end edit.start || (pos_eq r.end edit.start && not (is_empty r && is_empty edit))
    then some r
    else if pos_le edit.end r.start
    then some
        (record { start = shift_after r.start edit ins_end; end = shift_after r.end edit ins_end })
    else if not (is_empty r) && pos_le edit.start r.start && pos_le r.end edit.end
    then none
    else overlapped r edit ins_end
