-- ===== src/EditorConn/Documents/Atomic.antt =====
-- An edit operation is all or nothing.
use darkpyonix_ember.Base.{
  ℕ, ◌+◌, ◌-◌, ◌%◌, ◌^◌, ◌<◌, ◌≡◌, refl, ap, ◌∙◌, true, Option, none, some, List, [], ◌∷◌, All,
  length, arith,
}
use darkpyonix_ember.EditorConn.{Result, ok, err, ◌>>=◌}
use darkpyonix_ember.Editor.Coords.{u32_mod, utf16_len, split_lines}
use darkpyonix_ember.EditorConn.Documents.{
  TextEdit, EditorChange, DocumentMirror, ModelContentChange, ModelContentChangedEvent, byte_index,
  offset_at, replaced_lines, apply_one, apply_each, all_valid, no_overlap, next_version, check,
  finish, apply, sort_edits, join, units_before, before_column, take,
}
use darkpyonix_ember.EditorConn.Documents.Order.{
  InLines, InOrder, through, sort_edits-All, length-sort_edits, no_overlap-InOrder,
  all_valid-InLines, still_InLines,
}

offset_found :
    (eol : List ℕ) (lines : List (List ℕ)) (line column b : ℕ)
    → byte_index lines line column ≡ ok b
    → offset_at eol lines line column
      ≡ ok (before_column (units_before (utf16_len eol) (take (line - 1) lines)) column)
unfolding offset_at
offset_found eol lines line column b h =
    ap
      (λ r. r >>= λ byte.
        ok (before_column (units_before (utf16_len eol) (take (line - 1) lines)) column))
      h

module _ {U : Type 0} where
  -- A single edit in the lines: the mirror with the lines replaced, and the change that is sent.
  pub apply_one_lem :
      (e : TextEdit) (m : DocumentMirror U) (v : InLines m.lines e)
      → let before : ℕ → ℕ → ℕ = λ line column.
        before_column (units_before (utf16_len m.eol) (take (line - 1) m.lines)) column in
        let from = before e.range.start_line_number e.range.start_column in
        apply_one e.range e.text m ≡ (
          record m { lines = replaced_lines e.range v.sb v.eb e.text m.lines },
          ok (record {
            range = e.range;
            range_offset = from;
            range_length =
                (before e.range.end_line_number e.range.end_column + (u32_mod - from)) % u32_mod;
            text = join m.eol (split_lines e.text);
          }),
        )
  unfolding apply_one
  apply_one_lem e m v = rw (
    offset_found m.eol m.lines e.range.start_line_number e.range.start_column v.sb v.start,
    offset_found m.eol m.lines e.range.end_line_number e.range.end_column v.eb v.end,
    v.start,
    v.end,
    apply_one,
  )

  -- Checked edits all succeed, one change for each, and leave the ends of lines and the version.
  record Done (es : List TextEdit) (m : DocumentMirror U)
      (r : DocumentMirror U × Result (List ModelContentChange)) : Type 0 where
    changes : List ModelContentChange
    succeeds : r.1 ≡ ok changes
    each_one : length changes ≡ length es
    same_eol : r.0.eol ≡ m.eol
    same_version : r.0.version ≡ m.version
    same_uri : r.0.uri ≡ m.uri
    same_language : r.0.language_id ≡ m.language_id

  no_edits : (m : DocumentMirror U) → Done [] m (apply_each [] m)
  unfolding apply_each
  no_edits m = record {
    changes = [];
    succeeds = refl;
    each_one = refl;
    same_eol = refl;
    same_version = refl;
    same_uri = refl;
    same_language = refl;
  }

  each_step :
      (e : TextEdit) (es : List TextEdit) (m later : DocumentMirror U) (change : ModelContentChange)
      → apply_one e.range e.text m ≡ (later, ok change)
      → apply_each (e ∷ es) m
        ≡ ((apply_each es later).0, (apply_each es later).1 >>= λ changes. ok (change ∷ changes))
  unfolding apply_each
  each_step e es m later change done =
      ap
        (λ first.
          let rest = apply_each es first.0 in
          let r : DocumentMirror U × Result (List ModelContentChange) = elim first.1 [
            | err x ↦ (first.0, err x)
            | ok change ↦ (rest.0, rest.1 >>= λ changes. ok (change ∷ changes))
          ] in
          r)
        done

  next_Done :
      (e : TextEdit) (es : List TextEdit) (m later : DocumentMirror U) (change : ModelContentChange)
      → apply_one e.range e.text m ≡ (later, ok change)
      → later.eol ≡ m.eol
      → later.version ≡ m.version
      → later.uri ≡ m.uri
      → later.language_id ≡ m.language_id
      → Done es later (apply_each es later)
      → Done (e ∷ es) m (apply_each (e ∷ es) m)
  next_Done e es m later change done eol version uri language rest =
      let step = each_step e es m later change done in
      record {
        changes = change ∷ rest.changes;
        succeeds =
            ap (λ r. r.1) step ∙ ap (λ r. r >>= λ changes. ok (change ∷ changes)) rest.succeeds;
        each_one = omega (arith, rest.each_one);
        same_eol = ap (λ r. r.0.eol) step ∙ (rest.same_eol ∙ eol);
        same_version = ap (λ r. r.0.version) step ∙ (rest.same_version ∙ version);
        same_uri = ap (λ r. r.0.uri) step ∙ (rest.same_uri ∙ uri);
        same_language = ap (λ r. r.0.language_id) step ∙ (rest.same_language ∙ language);
      }

  apply_each-Done :
      (es : List TextEdit) (m : DocumentMirror U)
      → All (InLines m.lines) es
      → InOrder es
      → Done es m (apply_each es m)
  unfolding InOrder
  apply_each-Done [] m all order = no_edits m
  apply_each-Done (e ∷ es) m all order =
      let later : DocumentMirror U = record m {
        lines = replaced_lines e.range all.0.sb all.0.eb e.text m.lines;
      } in
      next_Done e es m later _ (apply_one_lem e m all.0) refl refl refl refl
        (apply_each-Done es later (still_InLines m.lines e es all.0 all.1 order.0) order.1)

-- What `apply` promises of the mirror before and after, by its result.
unfoldable pub Answers :
    {U : Type 0}
    → EditorChange
    → (before after : DocumentMirror U) → Result ModelContentChangedEvent
    → Type 0
Answers change before after (err e) = (after ≡ before) × (check change before ≡ err e)
Answers change before after (ok event) =
    (check change before ≡ ok after.version)
    × (before.version < after.version)
    × (after.dirty ≡ true)
    × (after.eol ≡ before.eol)
    × (after.uri ≡ before.uri)
    × (after.language_id ≡ before.language_id)
    × (event.version_id ≡ after.version)
    × (length event.changes ≡ length change.edits)

next_version-lt :
    (v : Option ℕ) (current next : ℕ)
    → current + 1 < 2 ^ 64
    → next_version v current ≡ ok next
    → current < next
unfolding next_version
next_version-lt none current next room h = ground arith
next_version-lt (some v) current next room h = ground arith

module _ {U : Type 0} (change : EditorChange) (m : DocumentMirror U) where
  checked :
      (version : ℕ)
      → check change m ≡ ok version
      → (m.version + 1 < 2 ^ 64 → m.version < version)
        × Done (sort_edits change.edits) m (apply_each (sort_edits change.edits) m)
  unfolding check
  checked version h =
      let (u, valid, h1) = through (all_valid m.lines change.edits) _ h in
      let (w, apart, h2) = through (no_overlap (sort_edits change.edits)) _ h1 in
      let all =
        sort_edits-All (InLines m.lines) change.edits
          (all_valid-InLines m.lines change.edits valid) in
      (
        λ room. next_version-lt change.version m.version version room h2,
        apply_each-Done (sort_edits change.edits) m all
            (no_overlap-InOrder m.lines (sort_edits change.edits) all apart),
      )

  finished :
      (version : ℕ) (r : DocumentMirror U × Result (List ModelContentChange))
      → check change m ≡ ok version
      → m.version < version
      → Done (sort_edits change.edits) m r
      → Answers change m (finish change.reason version r).0 (finish change.reason version r).1
  unfolding finish Answers
  finished version (after, err e) h later d = absurd (cc d.succeeds)
  finished version (after, ok changes) h later d =
      let same : changes ≡ d.changes = cc d.succeeds in
      (
        h,
        later,
        refl,
        d.same_eol,
        d.same_uri,
        d.same_language,
        refl,
        ap length same ∙ (d.each_one ∙ length-sort_edits change.edits),
      )

  apply_if :
      (r : Result ℕ)
      → check change m ≡ r
      → m.version + 1 < 2 ^ 64
      → Answers change m (apply change m).0 (apply change m).1
  unfolding apply Answers
  apply_if (err e) h room = rw (h, apply) (refl, h)
  apply_if (ok version) h room =
      let (later, done) = checked version h in
      rw (h, apply) (finished version (apply_each (sort_edits change.edits) m) h (later room) done)

-- Below the last version, an edit operation either fails in its checks and leaves the mirror as it
-- was, or passes them: then no single edit fails, the version is the one that the checks give and
-- larger than before, the mirror is dirty, its line end, URI and language stay, and the event
-- carries the new version and one change for each edit.
pub apply-Answers :
    {U : Type 0} (change : EditorChange) (m : DocumentMirror U)
    → m.version + 1 < 2 ^ 64
    → Answers change m (apply change m).0 (apply change m).1
apply-Answers change m room = apply_if change m (check change m) refl room
