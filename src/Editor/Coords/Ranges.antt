-- ===== src/Editor/Coords/Ranges.antt =====
-- Ranges cross to the extension host and back, and move through edits.
use darkpyonix_ember.Base.{
  ℕ, ◌+◌, ◌-◌, ◌≤◌, ◌<◌, ◌≡◌, refl, sym, ◌∙◌, ap, ap₂, subst, ◌⊎◌, inl, inr, Bool, true, false, not,
  ◌&&◌, ◌||◌, Option, none, some, List, ◌==◌, if◌then◌else◌, arith,
}
use darkpyonix_ember.Editor.Coords.{
  WidgetPos, WidgetRange, pos_lt, pos_le, pos_eq, to_exthost, from_exthost, ordered, is_empty,
  range_to_exthost, range_from_exthost, end_of_insert, shift_after, transform_range, overlapped,
  u32_mod,
}

-- A position whose numbers are below the greatest `u32`.
pub record Fits (p : WidgetPos) : Type 0 where
  pub line_fits : p.line + 1 < u32_mod
  pub col_fits : p.col + 1 < u32_mod

from_exthost-to_exthost : (p : WidgetPos) → Fits p → from_exthost (to_exthost p) ≡ p
unfolding from_exthost to_exthost
from_exthost-to_exthost p v =
    ap₂ (λ l c. record { line = l; col = c }) (omega (arith, v.line_fits))
      (omega (arith, v.col_fits))

-- A range whose ends are in order and below the greatest `u32` comes back from the extension host
-- as it was.
pub range_from_exthost-range_to_exthost :
    (r : WidgetRange)
    → pos_le r.start r.end ≡ true
    → Fits r.start
    → Fits r.end
    → range_from_exthost (range_to_exthost r) ≡ r
unfolding range_from_exthost range_to_exthost to_exthost
range_from_exthost-range_to_exthost r o v w =
    ap₂ ordered (from_exthost-to_exthost r.start v) (from_exthost-to_exthost r.end w) ∙ in_order r o
  where
    in_order : (r : WidgetRange) → pos_le r.start r.end ≡ true → ordered r.start r.end ≡ r
    in_order r o = ground arith

-- Where a position at or behind the edit's end goes.
shift_after-same :
    (pos : WidgetPos) (edit : WidgetRange) (ins_end : WidgetPos)
    → pos.line ≡ edit.end.line
    → pos.col + ins_end.col < u32_mod
    → shift_after pos edit ins_end
      ≡ record { line = ins_end.line; col = ins_end.col + (pos.col - edit.end.col) }
unfolding shift_after
shift_after-same pos edit ins_end same c =
    rw (lem, shift_after) (ap (λ k. record { line = ins_end.line; col = k }) (omega (arith, c)))
  where
    lem : (pos.line == edit.end.line) ≡ true
    lem = ground arith

shift_after-below :
    (pos : WidgetPos) (edit : WidgetRange) (ins_end : WidgetPos)
    → edit.end.line < pos.line
    → pos.line + ins_end.line < u32_mod
    → shift_after pos edit ins_end
      ≡ record { line = pos.line + ins_end.line - edit.end.line; col = pos.col }
unfolding shift_after
shift_after-below pos edit ins_end below l =
    rw (lem, shift_after) (ap (λ k. record { line = k; col = pos.col }) (omega (arith, l)))
  where
    lem : (pos.line == edit.end.line) ≡ false
    lem = ground arith

le-cases :
    (p q : WidgetPos)
    → pos_le p q ≡ true
    → ((q.line ≡ p.line) × (p.col ≤ q.col)) ⊎ (p.line < q.line)
le-cases p q h = ground arith

-- The edit that undoes an edit moves a position behind it back.
shift_after-back :
    (pos : WidgetPos) (edit : WidgetRange) (ins_end : WidgetPos)
    → pos_le edit.end pos ≡ true
    → pos.line + ins_end.line < u32_mod
    → pos.col + ins_end.col < u32_mod
    → (pos_le ins_end (shift_after pos edit ins_end) ≡ true)
      × (shift_after
            (shift_after pos edit ins_end)
            (record { start = edit.start; end = ins_end })
            edit.end
          ≡ pos)
shift_after-back pos edit ins_end h l c = elim (le-cases edit.end pos h) [
  | inl (same, at) ↦ rw (shift_after-same pos edit ins_end same c) (
    ground arith,
    shift_after-same (record { line = ins_end.line; col = ins_end.col + (pos.col - edit.end.col) })
          (record { start = edit.start; end = ins_end }) edit.end refl (omega (arith, at, c))
        ∙ ap₂ (λ a b. record { line = a; col = b }) (sym same) (omega (arith, at)),
  )
  | inr below ↦ rw (shift_after-below pos edit ins_end below l) (
    ground arith,
    shift_after-below (record { line = pos.line + ins_end.line - edit.end.line; col = pos.col })
          (record { start = edit.start; end = ins_end }) edit.end (omega (arith, below))
          (omega (arith, below, l))
        ∙ ap (λ a. record { line = a; col = pos.col }) (omega (arith, below)),
  )
]

shift_after-le :
    (p q : WidgetPos) (edit : WidgetRange) (ins_end : WidgetPos)
    → pos_le edit.end p ≡ true
    → pos_le p q ≡ true
    → q.line + ins_end.line < u32_mod
    → p.col + ins_end.col < u32_mod
    → q.col + ins_end.col < u32_mod
    → pos_le (shift_after p edit ins_end) (shift_after q edit ins_end) ≡ true
shift_after-le p q edit ins_end h o l c d = elim (le-cases edit.end p h) [
  | inl (same, at) ↦ elim (le-cases p q o) [
    | inl (on, after) ↦
        rw (shift_after-same p edit ins_end same c, shift_after-same q edit ins_end (on ∙ same) d)
          ground arith
    | inr down ↦
        rw
          (
            shift_after-same p edit ins_end same c,
            shift_after-below q edit ins_end (omega (arith, same, down)) l,
          )
          ground arith
  ]
  | inr below ↦ elim (le-cases p q o) [
    | inl (on, after) ↦
        rw
          (
            shift_after-below p edit ins_end below (omega (arith, on, l)),
            shift_after-below q edit ins_end (omega (arith, on, below)) l,
          )
          ground arith
    | inr down ↦
        rw
          (
            shift_after-below p edit ins_end below (omega (arith, down, l)),
            shift_after-below q edit ins_end (omega (arith, down, below)) l,
          )
          ground arith
  ]
]

unfoldable pub IsOrdered : WidgetRange → Type 0
IsOrdered r = pos_le r.start r.end ≡ true

ordered-IsOrdered : (p q : WidgetPos) → IsOrdered (ordered p q)
unfolding IsOrdered
ordered-IsOrdered p q = ground arith

if-IsOrdered :
    (b : Bool) (x y : Option WidgetRange) (out : WidgetRange)
    → (b ≡ true → x ≡ some out → IsOrdered out)
    → (b ≡ false → y ≡ some out → IsOrdered out)
    → (if b then x else y) ≡ some out
    → IsOrdered out
if-IsOrdered true x y out h k e = h refl e
if-IsOrdered false x y out h k e = k refl e

some-inj : (r out : WidgetRange) → some r ≡ some out → r ≡ out
some-inj r out h = cc

not_none : (out : WidgetRange) → none ≡ some out → ⊥
not_none out h = cc

overlapped-IsOrdered :
    (r edit out : WidgetRange) (ins_end : WidgetPos)
    → overlapped r edit ins_end ≡ some out
    → IsOrdered out
unfolding overlapped
overlapped-IsOrdered r edit out ins_end h =
    let s = if pos_lt r.start edit.start then r.start else ins_end in
    let t = if pos_lt edit.end r.end then shift_after r.end edit ins_end else ins_end in
    let moved = ordered s t in
    if-IsOrdered (is_empty moved && not (is_empty r)) none (some moved) out
      (λ b g. absurd (not_none out g))
      (λ b g. subst IsOrdered (some-inj moved out g) (ordered-IsOrdered s t)) h

-- A range in order, moved through an edit, is in order where it is not gone, if its coordinates
-- added to those of the end of the inserted text are below 2 ^ 32.
pub transform_range-IsOrdered :
    (r edit out : WidgetRange) (text : List ℕ)
    → IsOrdered r
    → r.end.line + (end_of_insert edit.start text).line < u32_mod
    → r.start.col + (end_of_insert edit.start text).col < u32_mod
    → r.end.col + (end_of_insert edit.start text).col < u32_mod
    → transform_range r edit text ≡ some out
    → IsOrdered out
unfolding IsOrdered transform_range
transform_range-IsOrdered r edit out text o l c d h =
    let ins_end = end_of_insert edit.start text in
    let moved : WidgetRange = record {
      start = shift_after r.start edit ins_end;
      end = shift_after r.end edit ins_end;
    } in
    let before =
      pos_lt r.end edit.start || (pos_eq r.end edit.start && not (is_empty r && is_empty edit)) in
    let behind = pos_le edit.end r.start in
    let within = not (is_empty r) && pos_le edit.start r.start && pos_le r.end edit.end in
    let overlap = overlapped r edit ins_end in
    let rest = if within then none else overlap in
    if-IsOrdered before (some r) (if behind then some moved else rest) out
      (λ b f. subst IsOrdered (some-inj r out f) o)
      (λ b.
        if-IsOrdered behind (some moved) rest out
          (λ b f.
            subst IsOrdered (some-inj moved out f)
              (shift_after-le r.start r.end edit ins_end b o l c d))
          (λ b.
            if-IsOrdered within none overlap out (λ b f. absurd (not_none out f))
              (λ b. overlapped-IsOrdered r edit out ins_end)))
      h

transform_range-behind :
    (r edit : WidgetRange) (text : List ℕ)
    → IsOrdered r
    → pos_lt edit.start r.start ≡ true
    → pos_le edit.end r.start ≡ true
    → transform_range r edit text
      ≡ some (record {
        start = shift_after r.start edit (end_of_insert edit.start text);
        end = shift_after r.end edit (end_of_insert edit.start text);
      })
unfolding transform_range IsOrdered
transform_range-behind r edit text o b a = rw (reaches, a, transform_range) refl
  where
    reaches :
        (pos_lt r.end edit.start || (pos_eq r.end edit.start && not (is_empty r && is_empty edit)))
        ≡ false
    reaches = ground arith

-- A range in order that starts after the start of an edit and not before its end, where the edit
-- inserts something, is brought back by the edit that undoes it: the one that replaces what was
-- inserted by a text that ends where the replaced text ended. The coordinates of the range added to
-- those of the end of the inserted text are below 2 ^ 32.
pub transform_range_undone :
    (r edit : WidgetRange) (text old : List ℕ)
    → IsOrdered r
    → pos_lt edit.start r.start ≡ true
    → pos_le edit.end r.start ≡ true
    → pos_lt edit.start (end_of_insert edit.start text) ≡ true
    → end_of_insert edit.start old ≡ edit.end
    → r.end.line + (end_of_insert edit.start text).line < u32_mod
    → r.start.col + (end_of_insert edit.start text).col < u32_mod
    → r.end.col + (end_of_insert edit.start text).col < u32_mod
    → (out : WidgetRange) × (transform_range r edit text ≡ some out)
      × (transform_range out
            (record { start = edit.start; end = end_of_insert edit.start text })
            old
          ≡ some r)
unfolding IsOrdered
transform_range_undone r edit text old o b a n same l c d =
    let ins_end = end_of_insert edit.start text in
    let s = shift_after r.start edit ins_end in
    let t = shift_after r.end edit ins_end in
    let out : WidgetRange = record { start = s; end = t } in
    let back : WidgetRange = record { start = edit.start; end = ins_end } in
    let starts = shift_after-back r.start edit ins_end a (omega (arith, lines r o, l)) c in
    let ends = shift_after-back r.end edit ins_end (le-trans edit.end r.start r.end a o) l d in
    (
      out,
      transform_range-behind r edit text o b a,
      transform_range-behind out back old (shift_after-le r.start r.end edit ins_end a o l c d)
            (lt-le edit.start ins_end s n starts.0) starts.0
          ∙ rw same (ap₂ (λ u v. some (record { start = u; end = v })) starts.1 ends.1),
    )
  where
    lines : (r : WidgetRange) → pos_le r.start r.end ≡ true → r.start.line ≤ r.end.line
    lines r o = ground arith

    le-trans : (p q r : WidgetPos) → pos_le p q ≡ true → pos_le q r ≡ true → pos_le p r ≡ true
    le-trans p q r h k = ground arith

    lt-le : (p q r : WidgetPos) → pos_lt p q ≡ true → pos_le q r ≡ true → pos_lt p r ≡ true
    lt-le p q r h k = ground arith
