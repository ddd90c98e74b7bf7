-- ===== src/EditorConn/Documents.antt =====
-- ember/editor-conn/src/document.rs: the copy of a document that is kept in step with the extension
-- host's. `U` is the type of URIs. A text is the list of its scalar values, a line and a column are
-- `u32`, a version is a `u64`, and `split_lines` stands with the coordinates of Editor.Coords. An
-- operation on `&mut self` returns the mirror that it leaves, also where it fails. The offsets and the
-- lengths in UTF-16 units are taken modulo 2 ^ 32. The units that `byte_index` counts do not wrap
-- there, since it stops once they are past the column.
pub mod Places
pub mod Applied
pub mod Order
pub mod Atomic
pub mod Joined
pub mod Text
pub mod Bridge
pub mod Follows
mod Tests
use darkpyonix_ember.Base.{
  ℕ, zero, suc, ◌+◌, ◌-◌, ◌%◌, ◌^◌, Bool, true, false, ◌&&◌, ◌||◌, Option, none, some, List, [],
  ◌∷◌, ◌++◌, length, get_elem?, take, drop, ltb, leb, ◌==◌, if◌then◌else◌,
}
use darkpyonix_ember.EditorConn.{
  Error, malformed, Result, ok, err, ◌>>=◌, line_zero, line_out_of_range, column_zero,
  splits_surrogate, column_out_of_range, end_before_start, overlapping_edits, stale_version,
}
use darkpyonix_ember.Editor.Coords.{
  u32_mod, Range, len_utf16, len_utf8, utf16_len, split_lines, last_line, prefix_of,
}
use Prim.Native.String.{String}

pub record TextEdit : Type 0 where
  pub range : Range
  pub text : List ℕ

pub data EditReason : Type 0 where
  normal undo redo : EditReason

pub record EditorChange : Type 0 where
  pub edits : List TextEdit
  pub reason : EditReason
  pub version : Option ℕ

pub record ModelContentChange : Type 0 where
  pub range : Range
  pub range_offset : ℕ
  pub range_length : ℕ
  pub text : List ℕ

-- `detailed_reason` is `None` throughout, and left out.
pub record ModelContentChangedEvent : Type 0 where
  pub changes : List ModelContentChange
  pub eol : List ℕ
  pub version_id : ℕ
  pub is_undoing : Bool
  pub is_redoing : Bool
  pub is_flush : Bool
  pub is_eol_change : Bool

pub record DocumentMirror (U : Type 0) : Type 0 where
  pub uri : U
  pub language_id : String
  pub encoding : String
  pub lines : List (List ℕ)
  pub eol : List ℕ
  pub version : ℕ
  pub dirty : Bool

-- `\r\n` if the first `\n` follows a `\r`, else `\n`; the flag says that a `\r` was just before.
unfoldable pub detect_from : Bool → List ℕ → List ℕ
detect_from cr [] = 10 ∷ []
detect_from cr (c ∷ cs) =
    let rest = detect_from (c == 13) cs in
    if c == 10 then (if cr then 13 ∷ 10 ∷ [] else 10 ∷ []) else rest

unfoldable pub detect_eol : List ℕ → List ℕ
unfolding detect_from
detect_eol = detect_from false

-- `lines.join(eol)`.
unfoldable pub join : List ℕ → List (List ℕ) → List ℕ
join eol [] = []
join eol (l ∷ []) = l
join eol (l ∷ m ∷ ls) = l ++ (eol ++ join eol (m ∷ ls))

-- The loop of `byte_index` at the byte `byte`, with `units` counted so far.
unfoldable pub index_from : (column units byte : ℕ) → List ℕ → (target : ℕ) → Result ℕ
index_from column units byte [] target =
    if units == target then ok byte else err (malformed (column_out_of_range column))
index_from column units byte (c ∷ cs) target =
    let rest = index_from column (units + len_utf16 c) (byte + len_utf8 c) cs target in
    if units == target
    then ok byte
    else if ltb target (units + len_utf16 c)
    then err (malformed (splits_surrogate column))
    else rest

unfoldable pub line_at : List (List ℕ) → ℕ → Result (List ℕ)
line_at lines zero = err (malformed line_zero)
line_at lines (suc n) = elim (get_elem? lines n) [
  | none ↦ err (malformed (line_out_of_range (suc n)))
  | some l ↦ ok l
]

unfoldable pub index_in : List ℕ → (column : ℕ) → Result ℕ
index_in l zero = err (malformed column_zero)
index_in l (suc target) = index_from (suc target) 0 0 l target

unfoldable pub byte_index : List (List ℕ) → (line column : ℕ) → Result ℕ
byte_index lines line column = line_at lines line >>= λ l. index_in l column

-- The lines before with their ends, in UTF-16 units.
unfoldable pub units_before : ℕ → List (List ℕ) → ℕ
units_before eol [] = 0
units_before eol (l ∷ ls) = (utf16_len l + eol + units_before eol ls) % u32_mod

-- `&line[..byte]` and `&line[byte..]`.
unfoldable pub slice_to : List ℕ → ℕ → List ℕ
slice_to [] byte = []
slice_to (c ∷ cs) zero = []
slice_to (c ∷ cs) (suc byte) = c ∷ slice_to cs (suc byte - len_utf8 c)

unfoldable pub slice_from : List ℕ → ℕ → List ℕ
slice_from [] byte = []
slice_from (c ∷ cs) zero = c ∷ cs
slice_from (c ∷ cs) (suc byte) = slice_from cs (suc byte - len_utf8 c)

abbrev pub or_empty : Option (List ℕ) → List ℕ
or_empty none = []
or_empty (some l) = l

abbrev pub line_or_empty : List (List ℕ) → ℕ → List ℕ
line_or_empty lines i = or_empty (get_elem? lines i)

-- `new_lines[0].insert_str(0, prefix)` and `new_lines.last_mut().push_str(suffix)`.
abbrev pub insert_prefix : List ℕ → List (List ℕ) → List (List ℕ)
insert_prefix prefix [] = []
insert_prefix prefix (l ∷ ls) = (prefix ++ l) ∷ ls

unfoldable pub push_suffix : List ℕ → List (List ℕ) → List (List ℕ)
push_suffix suffix [] = []
push_suffix suffix (l ∷ []) = (l ++ suffix) ∷ []
push_suffix suffix (l ∷ m ∷ ls) = l ∷ push_suffix suffix (m ∷ ls)

-- The lines after `new_lines` take the place of `si..=ei`.
unfoldable pub splice : ℕ → ℕ → List (List ℕ) → List (List ℕ) → List (List ℕ)
splice si ei new_lines lines = take si lines ++ (new_lines ++ drop (ei + 1) lines)

unfoldable pub replaced_lines : Range → (sb eb : ℕ) → List ℕ → List (List ℕ) → List (List ℕ)
replaced_lines r sb eb text lines =
    let si = r.start_line_number - 1 in
    let ei = r.end_line_number - 1 in
    let prefix = slice_to (line_or_empty lines si) sb in
    let suffix = slice_from (line_or_empty lines ei) eb in
    splice si ei (push_suffix suffix (insert_prefix prefix (split_lines text))) lines

-- `before + column - 1`.
abbrev pub before_column : (before column : ℕ) → ℕ
before_column before column = (before + column + (u32_mod - 1)) % u32_mod

unfoldable pub offset_at : (eol : List ℕ) → List (List ℕ) → (line column : ℕ) → Result ℕ
offset_at eol lines line column = do
  byte ← byte_index lines line column
  ok (before_column (units_before (utf16_len eol) (take (line - 1) lines)) column)

module _ {U : Type 0} where
  unfoldable pub new : U → (text : List ℕ) → (language_id : String) → DocumentMirror U
  new uri text language_id = record {
    uri = uri;
    language_id = language_id;
    encoding = "utf8";
    lines = split_lines text;
    eol = detect_eol text;
    version = 1;
    dirty = false;
  }

  unfoldable pub text : DocumentMirror U → List ℕ
  text m = join m.eol m.lines

  unfoldable pub full_range : DocumentMirror U → Range
  full_range m = record {
    start_line_number = 1;
    start_column = 1;
    end_line_number = length m.lines % u32_mod;
    end_column = (utf16_len (last_line m.lines) + 1) % u32_mod;
  }

-- `start > end` on pairs.
abbrev pub pair_lt : (l c k d : ℕ) → Bool
pair_lt l c k d = ltb l k || (l == k && ltb c d)

unfoldable pub range_is_valid : List (List ℕ) → Range → Result (Unit {0})
range_is_valid lines r =
    if pair_lt r.end_line_number r.end_column r.start_line_number r.start_column
    then err (malformed end_before_start)
    else do
      sb ← byte_index lines r.start_line_number r.start_column
      eb ← byte_index lines r.end_line_number r.end_column
      ok tt

unfoldable pub all_valid : List (List ℕ) → List TextEdit → Result (Unit {0})
all_valid lines [] = ok tt
all_valid lines (e ∷ es) = range_is_valid lines e.range >>= λ u. all_valid lines es

-- The descending stable sort by the start.
unfoldable pub insert_edit : TextEdit → List TextEdit → List TextEdit
insert_edit e [] = e ∷ []
insert_edit e (f ∷ fs) =
    if pair_lt e.range.start_line_number e.range.start_column f.range.start_line_number
      f.range.start_column
    then f ∷ insert_edit e fs
    else e ∷ f ∷ fs

unfoldable pub sort_edits : List TextEdit → List TextEdit
sort_edits [] = []
sort_edits (e ∷ es) = insert_edit e (sort_edits es)

abbrev pub overlap : Range → Range → Bool
overlap later earlier =
    pair_lt later.start_line_number later.start_column earlier.end_line_number earlier.end_column

-- The check over `windows(2)`.
unfoldable pub no_overlap : List TextEdit → Result (Unit {0})
no_overlap [] = ok tt
no_overlap (e ∷ []) = ok tt
no_overlap (e ∷ f ∷ fs) =
    if overlap e.range f.range then err (malformed overlapping_edits) else no_overlap (f ∷ fs)

unfoldable pub next_version : Option ℕ → (current : ℕ) → Result ℕ
next_version none current = ok ((current + 1) % (2 ^ 64))
next_version (some v) current =
    if leb v current then err (malformed (stale_version v current)) else ok v

abbrev pub is_undo : EditReason → Bool
is_undo normal = false
is_undo undo = true
is_undo redo = false

abbrev pub is_redo : EditReason → Bool
is_redo normal = false
is_redo undo = false
is_redo redo = true

module _ {U : Type 0} where
  abbrev pub event_of :
      List ModelContentChange
      → (undoing redoing flush eol_change : Bool) → DocumentMirror U
      → ModelContentChangedEvent
  event_of changes undoing redoing flush eol_change m = record {
    changes = changes;
    eol = m.eol;
    version_id = m.version;
    is_undoing = undoing;
    is_redoing = redoing;
    is_flush = flush;
    is_eol_change = eol_change;
  }

  unfoldable pub apply_one :
      Range → List ℕ → DocumentMirror U → DocumentMirror U × Result ModelContentChange
  apply_one r edit m =
      let found : Result (ℕ × ℕ × ℕ × ℕ) = do
        range_offset ← offset_at m.eol m.lines r.start_line_number r.start_column
        end_offset ← offset_at m.eol m.lines r.end_line_number r.end_column
        sb ← byte_index m.lines r.start_line_number r.start_column
        eb ← byte_index m.lines r.end_line_number r.end_column
        ok (range_offset, end_offset, sb, eb)
      in elim found [
        | err e ↦ (m, err e)
        | ok (range_offset, end_offset, sb, eb) ↦ (
          record m { lines = replaced_lines r sb eb edit m.lines },
          ok (record {
            range = r;
            range_offset = range_offset;
            range_length = (end_offset + (u32_mod - range_offset)) % u32_mod;
            text = join m.eol (split_lines edit);
          }),
        )
      ]

  unfoldable pub apply_each :
      List TextEdit → DocumentMirror U → DocumentMirror U × Result (List ModelContentChange)
  apply_each [] m = (m, ok [])
  apply_each (e ∷ es) m =
      let first = apply_one e.range e.text m in
      let rest = apply_each es first.0 in
      elim first.1 [
        | err x ↦ (first.0, err x)
        | ok change ↦ (rest.0, rest.1 >>= λ changes. ok (change ∷ changes))
      ]

  -- The checks of `apply` before it changes anything, with the new version.
  unfoldable pub check : EditorChange → DocumentMirror U → Result ℕ
  check change m = do
    valid ← all_valid m.lines change.edits
    apart ← no_overlap (sort_edits change.edits)
    next_version change.version m.version

  unfoldable pub finish :
      EditReason
      → (version : ℕ) → DocumentMirror U × Result (List ModelContentChange)
      → DocumentMirror U × Result ModelContentChangedEvent
  finish reason version (m, err e) = (m, err e)
  finish reason version (m, ok changes) =
      let done = record m { version = version; dirty = true } in
      (done, ok (event_of changes (is_undo reason) (is_redo reason) false false done))

  unfoldable pub apply :
      EditorChange → DocumentMirror U → DocumentMirror U × Result ModelContentChangedEvent
  apply change m = elim (check change m) [
    | err e ↦ (m, err e)
    | ok version ↦ finish change.reason version (apply_each (sort_edits change.edits) m)
  ]

  unfoldable pub replace_all :
      List ℕ → DocumentMirror U → DocumentMirror U × Result ModelContentChangedEvent
  replace_all new_text m =
      let done = apply_one (full_range m) new_text m in
      elim done.1 [
        | err e ↦ (done.0, err e)
        | ok change ↦
            let later = record done.0 { version = (done.0.version + 1) % (2 ^ 64) } in
            (later, ok (event_of (change ∷ []) false false true false later))
      ]

  unfoldable pub set_eol : List ℕ → DocumentMirror U → DocumentMirror U × ModelContentChangedEvent
  set_eol eol m =
      let later = record m { eol = eol; version = (m.version + 1) % (2 ^ 64) } in
      (later, event_of [] false false false true later)

  unfoldable pub mark_saved : DocumentMirror U → DocumentMirror U
  mark_saved m = record m { dirty = false }

  -- The column of a byte of a line; the subtraction wraps, so line 0 is out of range.
  unfoldable pub position_from_byte : (line byte : ℕ) → DocumentMirror U → Option ℕ
  position_from_byte zero byte m = none
  position_from_byte (suc n) byte m = elim (get_elem? m.lines n) [
    | none ↦ none
    | some l ↦ elim (prefix_of l byte) [ none ↦ none | some p ↦ some ((utf16_len p + 1) % u32_mod) ]
  ]
