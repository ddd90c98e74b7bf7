-- ===== src/EditorConn/Documents/Text.antt =====
-- A single edit on the text of the document: what lies in the range gives way to the new text.
use darkpyonix_ember.Base.{
  ℕ, ◌+◌, ◌-◌, ◌%◌, ◌≤◌, ◌<◌, ◌≡◌, sym, ap, ap₂, ◌∙◌, subst, false, List, [], ◌++◌, append_assoc,
  length, take, drop, take-append, inl, inr, arith,
}
use darkpyonix_ember.EditorConn.{ok}
use darkpyonix_ember.Editor.Coords.{u32_mod, utf16_count, utf16_len, split_lines}
use darkpyonix_ember.EditorConn.Documents.{
  TextEdit, DocumentMirror, ModelContentChange, replaced_lines, splice, push_suffix, insert_prefix,
  slice_to, slice_from, line_or_empty, apply_one, join, units_before, before_column, text,
  range_is_valid,
}
use darkpyonix_ember.EditorConn.Documents.Places.{Place, located}
use darkpyonix_ember.EditorConn.Documents.Applied.{UpTo, split_from-Shape, line_or_empty-here}
use darkpyonix_ember.EditorConn.Documents.Order.{InLines, range_is_valid-InLines}
use darkpyonix_ember.EditorConn.Documents.Atomic.{apply_one_lem}
use darkpyonix_ember.EditorConn.Documents.Joined.{
  utf16_count-append, between, drop-past, ends, more, join-ends, join-between, units_total-ends,
  units_total-take, units_total, units_before_fits,
}

-- The place's text, cut in two, and its offset.
module _ (eol : List ℕ) (lines : List (List ℕ)) (line column byte : ℕ)
    (p : Place lines line column byte) where
  ahead : List ℕ
  ahead = ends eol p.pre ++ p.front

  behind : List ℕ
  behind = p.back ++ more eol p.post

  whole_text : join eol lines ≡ ahead ++ behind
  unfolding ahead behind
  whole_text =
      ap (join eol) p.found ∙ (join-ends eol p.pre (p.front ++ p.back) p.post ∙ simp append_assoc)

  lines_before : take (line - 1) lines ≡ p.pre
  lines_before = ap₂ take (omega (arith, p.line_number)) p.found ∙ take-append p.pre _

  total-ahead :
      units_total (utf16_count eol) (take (line - 1) lines) + column - 1 ≡ utf16_count ahead
  unfolding ahead
  total-ahead = omega (
    arith,
    ap (units_total (utf16_count eol)) lines_before,
    units_total-ends eol p.pre,
    utf16_count-append (ends eol p.pre) p.front,
    p.column_number,
  )

  -- In a text of fewer than 2 ^ 32 units no offset wraps.
  offset-ahead :
      utf16_count (join eol lines) < u32_mod
      → before_column (units_before (utf16_len eol) (take (line - 1) lines)) column
        ≡ utf16_count ahead
  offset-ahead small =
      let room : utf16_count ahead < u32_mod =
        omega (arith, small, ap utf16_count whole_text, utf16_count-append ahead behind) in
      let before =
        units_before_fits eol (take (line - 1) lines)
          (omega (arith, room, total-ahead, p.column_number)) in
      omega (arith, room, before, total-ahead, p.column_number)

module _ (eol : List ℕ) (e : TextEdit) (lines : List (List ℕ)) (v : InLines lines e) where
  at_start : Place lines e.range.start_line_number e.range.start_column v.sb
  at_start = located lines _ _ v.sb v.start

  at_end : Place lines e.range.end_line_number e.range.end_column v.eb
  at_end = located lines _ _ v.eb v.end

  -- The offset of a place in the lines, without and with the wrap.
  abbrev total : ℕ → ℕ → ℕ
  total line column = units_total (utf16_count eol) (take (line - 1) lines) + column - 1

  abbrev offset : ℕ → ℕ → ℕ
  offset line column = before_column (units_before (utf16_len eol) (take (line - 1) lines)) column

  total-le :
      (p : Place lines e.range.start_line_number e.range.start_column v.sb)
      (q : Place lines e.range.end_line_number e.range.end_column v.eb)
      → UpTo e.range.start_line_number e.range.start_column e.range.end_line_number
          e.range.end_column
      → total e.range.start_line_number e.range.start_column
        ≤ total e.range.end_line_number e.range.end_column
  total-le p q (inr (same, within)) =
      omega (arith, ap (λ n. units_total (utf16_count eol) (take (n - 1) lines)) same, within)
  total-le p q (inl earlier) =
      let n = e.range.end_line_number - 1 - length p.pre - 1 in
      let reach =
        units_total-take eol p.pre (p.front ++ p.back) p.post n (e.range.end_line_number - 1)
          (omega (arith, p.line_number)) in
      let same =
        ap (λ ls. units_total (utf16_count eol) (take (e.range.end_line_number - 1) ls)) p.found in
      omega (
        arith,
        reach,
        same,
        ap (units_total (utf16_count eol)) (lines_before eol lines _ _ _ p),
        utf16_count-append p.front p.back,
        p.column_number,
        q.column_number,
      )

  new_lines :
      (p : Place lines e.range.start_line_number e.range.start_column v.sb)
      (q : Place lines e.range.end_line_number e.range.end_column v.eb)
      → replaced_lines e.range v.sb v.eb e.text lines
        ≡ p.pre ++ (push_suffix q.back (insert_prefix p.front (split_lines e.text)) ++ q.post)
  unfolding replaced_lines splice
  new_lines p q =
      let si = e.range.start_line_number - 1 in
      let ei = e.range.end_line_number - 1 in
      let before = lines_before eol lines _ _ _ p in
      let prefix : slice_to (line_or_empty lines si) v.sb ≡ p.front =
        ap (λ l. slice_to l v.sb)
          (ap (λ ls. line_or_empty ls si) p.found
            ∙ line_or_empty-here p.pre p.post _ si (omega (arith, p.line_number)))
        ∙ p.to_byte in
      let suffix : slice_from (line_or_empty lines ei) v.eb ≡ q.back =
        ap (λ l. slice_from l v.eb)
          (ap (λ ls. line_or_empty ls ei) q.found
            ∙ line_or_empty-here q.pre q.post _ ei (omega (arith, q.line_number)))
        ∙ q.from_byte in
      let after : drop (ei + 1) lines ≡ q.post =
        ap₂ drop {x = ei + 1} (omega (arith, q.line_number)) q.found ∙ drop-past q.pre _ q.post in
      ap₂ (λ a b. a ++ b) before
        (ap₂ (λ a b. a ++ b)
          (ap₂ (λ a b. push_suffix a (insert_prefix b (split_lines e.text))) suffix prefix) after)

  new_text :
      (p : Place lines e.range.start_line_number e.range.start_column v.sb)
      (q : Place lines e.range.end_line_number e.range.end_column v.eb)
      → join eol (replaced_lines e.range v.sb v.eb e.text lines)
        ≡ ahead eol lines _ _ _ p ++ (join eol (split_lines e.text) ++ behind eol lines _ _ _ q)
  unfolding ahead behind split_lines
  new_text p q =
      let (l, ls, shape) = split_from-Shape false [] e.text in
      ap (join eol) (new_lines p q)
      ∙ subst
          (λ xs.
            join eol (p.pre ++ (push_suffix q.back (insert_prefix p.front xs) ++ q.post))
            ≡ ahead eol lines _ _ _ p ++ (join eol xs ++ behind eol lines _ _ _ q))
          (sym shape) (join-between eol p.pre p.front l ls q.back q.post)

-- The text `after` is `before` with the `length'` units at `offset` replaced by `new`.
pub record Spliced (before after : List ℕ) (offset length' : ℕ) (new : List ℕ) : Type 0 where
  pub front : List ℕ
  pub old : List ℕ
  pub back : List ℕ
  pub was : before ≡ front ++ (old ++ back)
  pub now : after ≡ front ++ (new ++ back)
  pub at_offset : utf16_count front ≡ offset
  pub of_length : utf16_count old ≡ length'

spliced :
    (eol : List ℕ) (e : TextEdit) (lines : List (List ℕ)) (v : InLines lines e)
    → utf16_count (join eol lines) < u32_mod
    → let from = offset eol e lines v e.range.start_line_number e.range.start_column in
      let to = offset eol e lines v e.range.end_line_number e.range.end_column in
      Spliced
        (join eol lines)
        (join eol (replaced_lines e.range v.sb v.eb e.text lines))
        from
        ((to + (u32_mod - from)) % u32_mod)
        (join eol (split_lines e.text))
spliced eol e lines v small =
    let p = at_start eol e lines v in
    let q = at_end eol e lines v in
    let a = ahead eol lines _ _ _ p in
    let a' = ahead eol lines _ _ _ q in
    let start = offset-ahead eol lines _ _ _ p small in
    let end = offset-ahead eol lines _ _ _ q small in
    let ordered : utf16_count a ≤ utf16_count a' = omega (
      arith,
      total-ahead eol lines _ _ _ p,
      total-ahead eol lines _ _ _ q,
      total-le eol e lines v p q v.forward,
    ) in
    let (old, reaches, rest) =
      between a a' (behind eol lines _ _ _ p) (behind eol lines _ _ _ q)
        (sym (whole_text eol lines _ _ _ p) ∙ whole_text eol lines _ _ _ q) ordered in
    record {
      front = a;
      old = old;
      back = behind eol lines _ _ _ q;
      was = whole_text eol lines _ _ _ p ∙ ap (λ k. a ++ k) rest;
      now = new_text eol e lines v p q;
      at_offset = sym start;
      of_length = omega (
        arith,
        start,
        end,
        ap utf16_count reaches,
        utf16_count-append a old,
        small,
        ap utf16_count (whole_text eol lines _ _ _ q),
        utf16_count-append a' (behind eol lines _ _ _ q),
      );
    }

-- A single edit whose range is found in the document and does not end before its start succeeds.
-- Let the text before it have fewer than 2 ^ 32 UTF-16 units.
-- The change that it reports has the offset, the length and the text by which the whole text of
-- the document, as the extension host has it, changes: the units of that length at that offset
-- give way to that text.
pub apply_one-Spliced :
    {U : Type 0} (e : TextEdit) (m : DocumentMirror U)
    → range_is_valid m.lines e.range ≡ ok tt
    → utf16_count (text m) < u32_mod
    → (change : ModelContentChange) × ((apply_one e.range e.text m).1 ≡ ok change)
      × Spliced
          (text m)
          (text (apply_one e.range e.text m).0)
          change.range_offset
          change.range_length
          change.text
unfolding text
apply_one-Spliced e m valid small =
    let v = range_is_valid-InLines m.lines e valid in
    let done = apply_one_lem e m v in
    (_, ap (λ r. r.1) done, rw done (spliced m.eol e m.lines v small))
