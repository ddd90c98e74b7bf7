-- ===== src/EditorConn/Documents/Order.antt =====
-- The checked edits of an operation: each lies in the lines, and before the ones that are made first.
use darkpyonix_ember.Base.{
  ℕ, ◌+◌, ◌≡◌, refl, ◌∙◌, Bool, true, false, List, [], ◌∷◌, All, length, ltb, if◌then◌else◌, inl,
  inr, arith, Bool-cases, ltb→lt,
}
use darkpyonix_ember.EditorConn.{Result, ok, err, ◌>>=◌}
use darkpyonix_ember.EditorConn.Documents.{
  TextEdit, byte_index, replaced_lines, range_is_valid, all_valid, pair_lt, overlap, no_overlap,
  sort_edits, insert_edit,
}
use darkpyonix_ember.EditorConn.Documents.Places.{located}
use darkpyonix_ember.EditorConn.Documents.Applied.{UpTo, byte_index-replaced_lines}

-- What a successful chain went through.
pub through :
    {S T : Type 0} (first : Result S) (next : S → Result T) {t : T}
    → (first >>= next) ≡ ok t
    → (s : S) × (first ≡ ok s) × (next s ≡ ok t)
through (err why) next e = absurd cc
through (ok s) next e = (s, refl, e)

UpTo-trans : {l c k d m e : ℕ} → UpTo l c k d → UpTo k d m e → UpTo l c m e
UpTo-trans (inl p) (inl q) = inl (omega arith)
UpTo-trans (inl p) (inr (q, r)) = inl (omega arith)
UpTo-trans (inr (p, r)) (inl q) = inl (omega arith)
UpTo-trans (inr (p, r)) (inr (q, s)) = inr (omega arith, omega arith)

not_past : (l c k d : ℕ) → pair_lt l c k d ≡ false → UpTo k d l c
not_past l c k d h = elim (Bool-cases (ltb k l)) [
  | inl before ↦ inl (ltb→lt k l before)
  | inr same ↦ inr (ground arith, ground arith)
]

-- A range that lies in the lines, and its start not past its end.
pub record InLines (lines : List (List ℕ)) (e : TextEdit) : Type 0 where
  pub sb : ℕ
  pub eb : ℕ
  pub start : byte_index lines e.range.start_line_number e.range.start_column ≡ ok sb
  pub end : byte_index lines e.range.end_line_number e.range.end_column ≡ ok eb
  pub forward :
      UpTo e.range.start_line_number e.range.start_column e.range.end_line_number e.range.end_column

pub range_is_valid-InLines :
    (lines : List (List ℕ)) (e : TextEdit) → range_is_valid lines e.range ≡ ok tt → InLines lines e
unfolding range_is_valid
range_is_valid-InLines lines e h =
    elim (Bool-cases (
      pair_lt e.range.end_line_number e.range.end_column e.range.start_line_number
        e.range.start_column)) [
          | inl back ↦ absurd (cc (rw (back, range_is_valid) at h))
          | inr forth ↦
              let (sb, at_start, h1) =
                through (byte_index lines e.range.start_line_number e.range.start_column) _
                  (rw (forth, range_is_valid) at h) in
              let (eb, at_end, h2) =
                through (byte_index lines e.range.end_line_number e.range.end_column) _ h1 in
              record {
                sb = sb;
                eb = eb;
                start = at_start;
                end = at_end;
                forward = not_past _ _ _ _ forth;
              }
        ]

pub all_valid-InLines :
    (lines : List (List ℕ)) (es : List TextEdit)
    → all_valid lines es ≡ ok tt
    → All (InLines lines) es
unfolding all_valid
all_valid-InLines lines [] h = tt
all_valid-InLines lines (e ∷ es) h =
    let (u, first, rest) = through (range_is_valid lines e.range) _ h in
    (range_is_valid-InLines lines e first, all_valid-InLines lines es rest)

module _ (P : TextEdit → Type 0) where
  insert_if :
      (b : Bool) (e f : TextEdit) (fs gs : List TextEdit)
      → P e
      → P f
      → All P fs
      → All P gs
      → All P (if b then f ∷ gs else e ∷ f ∷ fs)
  insert_if true e f fs gs p q all all' = (q, all')
  insert_if false e f fs gs p q all all' = (p, (q, all))

  insert_edit-All : (e : TextEdit) (fs : List TextEdit) → P e → All P fs → All P (insert_edit e fs)
  unfolding insert_edit
  insert_edit-All e [] p all = (p, tt)
  insert_edit-All e (f ∷ fs) p all =
      insert_if _ e f fs (insert_edit e fs) p all.0 all.1 (insert_edit-All e fs p all.1)

  pub sort_edits-All : (es : List TextEdit) → All P es → All P (sort_edits es)
  unfolding sort_edits
  sort_edits-All [] all = tt
  sort_edits-All (e ∷ es) all = insert_edit-All e (sort_edits es) all.0 (sort_edits-All es all.1)

length-insert_edit : (e : TextEdit) (fs : List TextEdit) → length (insert_edit e fs) ≡ length fs + 1
unfolding insert_edit
length-insert_edit e [] = omega arith
length-insert_edit e (f ∷ fs) = ground (arith, length-insert_edit e fs)

pub length-sort_edits : (es : List TextEdit) → length (sort_edits es) ≡ length es
unfolding sort_edits
length-sort_edits [] = refl
length-sort_edits (e ∷ es) =
    omega (arith, length-insert_edit e (sort_edits es), length-sort_edits es)

-- The second edit ends where the first begins, or before.
abbrev pub Below : TextEdit → TextEdit → Type 0
Below e f =
    UpTo f.range.end_line_number f.range.end_column e.range.start_line_number e.range.start_column

unfoldable pub InOrder : List TextEdit → Type 0
InOrder [] = Unit {0}
InOrder (e ∷ es) = All (Below e) es × InOrder es

Below-All :
    (e f : TextEdit) (fs : List TextEdit)
    → Below e f
    → UpTo f.range.start_line_number f.range.start_column f.range.end_line_number f.range.end_column
    → All (Below f) fs
    → All (Below e) fs
Below-All e f [] low forth all = tt
Below-All e f (g ∷ gs) low forth all =
    (UpTo-trans all.0 (UpTo-trans forth low), Below-All e f gs low forth all.1)

pub no_overlap-InOrder :
    (lines : List (List ℕ)) (es : List TextEdit)
    → All (InLines lines) es
    → no_overlap es ≡ ok tt
    → InOrder es
unfolding no_overlap InOrder
no_overlap-InOrder lines [] all h = tt
no_overlap-InOrder lines (e ∷ []) all h = (tt, tt)
no_overlap-InOrder lines (e ∷ f ∷ fs) all h = elim (Bool-cases (overlap e.range f.range)) [
  | inl over ↦ absurd (cc (rw over at h))
  | inr apart ↦
      let rest = no_overlap-InOrder lines (f ∷ fs) all.1 (rw apart at h) in
      let low : Below e f = not_past _ _ _ _ apart in
      ((low, Below-All e f fs low all.1.0.forward rest.0), rest)
]

-- An edit that lies before another one is still in the lines after that one.
InLines-replaced_lines :
    (lines : List (List ℕ)) (e f : TextEdit) (v : InLines lines e)
    → InLines lines f
    → Below e f
    → InLines (replaced_lines e.range v.sb v.eb e.text lines) f
InLines-replaced_lines lines e f v w low =
    let start = located lines _ _ v.sb v.start in
    record {
      sb = w.sb;
      eb = w.eb;
      start =
          byte_index-replaced_lines e.range v.sb v.eb e.text lines start _ _
            (UpTo-trans w.forward low)
          ∙ w.start;
      end = byte_index-replaced_lines e.range v.sb v.eb e.text lines start _ _ low ∙ w.end;
      forward = w.forward;
    }

pub still_InLines :
    (lines : List (List ℕ)) (e : TextEdit) (fs : List TextEdit) (v : InLines lines e)
    → All (InLines lines) fs
    → All (Below e) fs
    → All (InLines (replaced_lines e.range v.sb v.eb e.text lines)) fs
still_InLines lines e [] v all low = tt
still_InLines lines e (f ∷ fs) v all low =
    (InLines-replaced_lines lines e f v all.0 low.0, still_InLines lines e fs v all.1 low.1)
