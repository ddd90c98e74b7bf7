-- ===== src/EditorConn/Documents/Applied.antt =====
-- An edit operation is all or nothing: once its checks pass, no single edit fails, since each is
-- made before the places that the earlier ones changed.
use darkpyonix_ember.Base.{
  ℕ, zero, suc, ◌+◌, ◌-◌, ◌≤◌, ◌<◌, ◌≡◌, refl, sym, ap, ap₂, ◌∙◌, subst, Bool, true, false, List,
  [], ◌∷◌, ◌++◌, append_assoc, length, get_elem?, take, drop, take-append, ◌==◌, if◌then◌else◌, ◌⊎◌,
  inl, inr, arith, get_elem?-append_length,
}
use darkpyonix_ember.EditorConn.{ok, ◌>>=◌}
use darkpyonix_ember.Editor.Coords.{Range, utf16_count, split_lines, split_from}
use darkpyonix_ember.EditorConn.Documents.{
  byte_index, line_at, index_in, replaced_lines, splice, push_suffix, insert_prefix, slice_to,
  slice_from, line_or_empty, or_empty,
}
use darkpyonix_ember.EditorConn.Documents.Places.{Place, index_from-front}

get_elem?-before :
    {A : Type 0} (xs ys zs : List A) (n : ℕ)
    → n < length xs
    → get_elem? (xs ++ ys) n ≡ get_elem? (xs ++ zs) n
get_elem?-before [] ys zs n h = absurd (omega arith)
get_elem?-before (x ∷ xs) ys zs zero h = refl
get_elem?-before (x ∷ xs) ys zs (suc n) h = get_elem?-before xs ys zs n (omega arith)

index_in-front :
    (front x y : List ℕ) (column : ℕ)
    → column ≤ utf16_count front + 1
    → index_in (front ++ x) column ≡ index_in (front ++ y) column
unfolding index_in
index_in-front front x y zero h = refl
index_in-front front x y (suc target) h =
    index_from-front (suc target) 0 0 target front x y (omega arith) (omega arith)

-- At or before the place after `pre` lines and `front`.
abbrev pub UpTo : (line column at_line at_column : ℕ) → Type 0
UpTo line column at_line at_column = (line < at_line) ⊎ ((line ≡ at_line) × (column ≤ at_column))

line_at-here :
    (pre post : List (List ℕ)) (l : List ℕ) → line_at (pre ++ l ∷ post) (suc (length pre)) ≡ ok l
unfolding line_at
line_at-here pre post l = rw (get_elem?-append_length pre l post, line_at)

line_at-before :
    (pre ys zs : List (List ℕ)) (n : ℕ)
    → n < length pre
    → line_at (pre ++ ys) (suc n) ≡ line_at (pre ++ zs) (suc n)
unfolding line_at
line_at-before pre ys zs n h = rw (get_elem?-before pre ys zs n h, line_at)

-- A place is where it was, whatever changes after a later one.
byte_index-before :
    (pre post post' : List (List ℕ)) (front back w : List ℕ) (line column : ℕ)
    → UpTo line column (length pre + 1) (utf16_count front + 1)
    → byte_index (pre ++ (front ++ w) ∷ post') line column
      ≡ byte_index (pre ++ (front ++ back) ∷ post) line column
unfolding byte_index line_at
byte_index-before pre post post' front back w zero column h = refl
byte_index-before pre post post' front back w (suc n) column (inl above) =
    ap (λ r. r >>= λ l. index_in l column) (line_at-before pre _ _ n (omega arith))
byte_index-before pre post post' front back w (suc n) column (inr (at, within)) =
    let here : suc (length pre) ≡ suc n = omega arith in
    subst
      (λ line.
        byte_index (pre ++ (front ++ w) ∷ post') line column
        ≡ byte_index (pre ++ (front ++ back) ∷ post) line column)
      here
      (ap (λ r. r >>= λ l. index_in l column) (line_at-here pre post' (front ++ w))
        ∙ (index_in-front front w back column within
            ∙ ap (λ r. r >>= λ l. index_in l column) (sym (line_at-here pre post (front ++ back)))))

-- The new lines begin with what stood before the edit.
pushed_shape :
    (suffix prefix l : List ℕ) (ls : List (List ℕ))
    → (w : List ℕ) × (rest : List (List ℕ)) × (push_suffix suffix ((prefix ++ l) ∷ ls)
        ≡ (prefix ++ w) ∷ rest)
unfolding push_suffix
pushed_shape suffix prefix l [] = (l ++ suffix, [], ap (λ k. k ∷ []) (append_assoc prefix l suffix))
pushed_shape suffix prefix l (m ∷ ms) = (l, push_suffix suffix (m ∷ ms), refl)

abbrev pub Shape : List (List ℕ) → Type 0
Shape xs = (l : List ℕ) × (ls : List (List ℕ)) × (xs ≡ l ∷ ls)

if-Shape : (b : Bool) {xs ys : List (List ℕ)} → Shape xs → Shape ys → Shape (if b then xs else ys)
if-Shape true x y = x
if-Shape false x y = y

pub split_from-Shape : (cr : Bool) (cur text : List ℕ) → Shape (split_from cr cur text)
unfolding split_from
split_from-Shape cr cur [] = (cur, [], refl)
split_from-Shape cr cur (c ∷ cs) =
    if-Shape (c == 13) (cur, _, refl)
      (if-Shape (c == 10) (if-Shape cr (split_from-Shape false [] cs) (cur, _, refl))
        (split_from-Shape false (cur ++ c ∷ []) cs))

pub line_or_empty-here :
    (pre post : List (List ℕ)) (l : List ℕ) (i : ℕ)
    → i ≡ length pre
    → line_or_empty (pre ++ l ∷ post) i ≡ l
line_or_empty-here pre post l i at =
    ap (λ k. or_empty (get_elem? (pre ++ l ∷ post) k)) at
    ∙ ap or_empty (get_elem?-append_length pre l post)

module _ (r : Range) (sb eb : ℕ) (text : List ℕ) (lines : List (List ℕ))
    (start : Place lines r.start_line_number r.start_column sb) where
  -- The lines after an edit, up to its start.
  replaced_shape :
      (w : List ℕ) × (rest : List (List ℕ)) × (replaced_lines r sb eb text lines
        ≡ start.pre ++ (start.front ++ w) ∷ rest)
  unfolding replaced_lines splice split_lines
  replaced_shape =
      let si = r.start_line_number - 1 in
      let at : si ≡ length start.pre = omega (arith, start.line_number) in
      let suffix = slice_from (line_or_empty lines (r.end_line_number - 1)) eb in
      let before : take si lines ≡ start.pre = ap₂ take at start.found ∙ take-append start.pre _ in
      let prefix : slice_to (line_or_empty lines si) sb ≡ start.front =
        ap (λ l. slice_to l sb)
          (ap (λ ls. line_or_empty ls si) start.found
            ∙ line_or_empty-here start.pre start.post _ si at)
        ∙ start.to_byte in
      let (l, ls, e) = split_from-Shape false [] text in
      let (w, rest, pushed) = pushed_shape suffix start.front l ls in
      (
        w,
        rest ++ drop (r.end_line_number - 1 + 1) lines,
        ap₂ (λ a b. a ++ (b ++ drop (r.end_line_number - 1 + 1) lines)) before
            (ap (push_suffix suffix) (ap₂ insert_prefix prefix e) ∙ pushed),
      )

  -- A place up to the start of an edit stays where it is.
  pub byte_index-replaced_lines :
      (line column : ℕ)
      → UpTo line column r.start_line_number r.start_column
      → byte_index (replaced_lines r sb eb text lines) line column ≡ byte_index lines line column
  byte_index-replaced_lines line column h =
      let (w, rest, shape) = replaced_shape in
      let column_at = start.column_number in
      let place : UpTo line column (length start.pre + 1) (utf16_count start.front + 1) =
        subst (λ k. UpTo line column k (utf16_count start.front + 1)) start.line_number
          (subst (λ k. UpTo line column r.start_line_number k) column_at h) in
      ap (λ ls. byte_index ls line column) shape
      ∙ (byte_index-before start.pre start.post rest start.front start.back w line column place
          ∙ ap (λ ls. byte_index ls line column) (sym start.found))
