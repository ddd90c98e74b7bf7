-- ===== src/EditorConn/Documents/Places.antt =====
-- Where a position lies in its line, and that an edit further on does not move it.
use darkpyonix_ember.Base.{
  ℕ, zero, suc, ◌+◌, ◌-◌, ◌≤◌, ◌≡◌, refl, sym, ap, ◌∙◌, true, some, List, [], ◌∷◌, ◌++◌, ltb, ◌==◌,
  inl, inr, arith, Bool-cases, Option-cases, get_elem?, length,
}
use darkpyonix_ember.EditorConn.{ok}
use darkpyonix_ember.Editor.Coords.{len_utf16, len_utf8, utf16_count, utf8_size}
use darkpyonix_ember.EditorConn.Documents.{
  byte_index, line_at, index_from, index_in, slice_to, slice_from,
}

index_here :
    (column units byte target : ℕ) (xs : List ℕ)
    → units ≡ target
    → index_from column units byte xs target ≡ ok byte
unfolding index_from
index_here column units byte target [] h =
    let here : (units == target) ≡ true = ground arith in rw here
index_here column units byte target (c ∷ cs) h =
    let here : (units == target) ≡ true = ground arith in rw here

-- What follows a column does not matter to it.
pub index_from-front :
    (column units byte target : ℕ) (front x y : List ℕ)
    → units ≤ target
    → target ≤ units + utf16_count front
    → index_from column units byte (front ++ x) target
      ≡ index_from column units byte (front ++ y) target
unfolding index_from utf16_count
index_from-front column units byte target [] x y low high =
    let here : units ≡ target = omega arith in
    index_here column units byte target x here ∙ sym (index_here column units byte target y here)
index_from-front column units byte target (c ∷ cs) x y low high =
    elim (Bool-cases (units == target)) [
      | inl here ↦ rw here refl
      | inr on ↦ elim (Bool-cases (ltb target (units + len_utf16 c))) [
        | inl split ↦ rw (on, split) refl
        | inr past ↦
            rw (on, past)
              (index_from-front column (units + len_utf16 c) (byte + len_utf8 c) target cs x y
                (ground arith) (omega arith))
      ]
    ]

-- A found position cuts its line.
index_from-cut :
    (column units byte target b : ℕ) (line : List ℕ)
    → units ≤ target
    → index_from column units byte line target ≡ ok b
    → (front : List ℕ) × (back : List ℕ) × (line ≡ front ++ back)
      × (units + utf16_count front ≡ target)
      × (byte + utf8_size front ≡ b)
unfolding index_from utf16_count utf8_size
index_from-cut column units byte target b [] low h = elim (Bool-cases (units == target)) [
  | inl here ↦ ([], [], refl, ground arith, ground (arith, rw here at h))
  | inr on ↦ absurd (cc (rw on at h))
]
index_from-cut column units byte target b (c ∷ cs) low h = elim (Bool-cases (units == target)) [
  | inl here ↦ ([], c ∷ cs, refl, ground arith, ground (arith, rw here at h))
  | inr on ↦ elim (Bool-cases (ltb target (units + len_utf16 c))) [
    | inl split ↦ absurd (cc (rw (on, split) at h))
    | inr past ↦
        let (front, back, whole, u, w) =
          index_from-cut column (units + len_utf16 c) (byte + len_utf8 c) target b cs (ground arith)
            (rw (on, past) at h) in
        (c ∷ front, back, ap (λ k. c ∷ k) whole, omega (arith, u), omega (arith, w))
  ]
]

len_utf8-suc : (c : ℕ) → (w : ℕ) × (len_utf8 c ≡ suc w)
len_utf8-suc c = (len_utf8 c - 1, ground arith)

slice_to-size : (front back : List ℕ) → slice_to (front ++ back) (utf8_size front) ≡ front
unfolding slice_to utf8_size
slice_to-size [] [] = refl
slice_to-size [] (d ∷ ds) = refl
slice_to-size (c ∷ cs) back =
    let (w, e) = len_utf8-suc c in
    ap (slice_to (c ∷ (cs ++ back))) {y = suc (w + utf8_size cs)} (omega (arith, e))
    ∙ ap (λ t. c ∷ t) (ap (slice_to (cs ++ back)) (omega (arith, e)) ∙ slice_to-size cs back)

slice_from-size : (front back : List ℕ) → slice_from (front ++ back) (utf8_size front) ≡ back
unfolding slice_from utf8_size
slice_from-size [] [] = refl
slice_from-size [] (d ∷ ds) = refl
slice_from-size (c ∷ cs) back =
    let (w, e) = len_utf8-suc c in
    ap (slice_from (c ∷ (cs ++ back))) {y = suc (w + utf8_size cs)} (omega (arith, e))
    ∙ (ap (slice_from (cs ++ back)) (omega (arith, e)) ∙ slice_from-size cs back)

-- A position that is found: its line among the others, cut at it.
pub record Place (lines : List (List ℕ)) (line column byte : ℕ) : Type 0 where
  pub pre : List (List ℕ)
  pub post : List (List ℕ)
  pub front : List ℕ
  pub back : List ℕ
  pub found : lines ≡ pre ++ (front ++ back) ∷ post
  pub line_number : line ≡ length pre + 1
  pub column_number : column ≡ utf16_count front + 1
  pub to_byte : slice_to (front ++ back) byte ≡ front
  pub from_byte : slice_from (front ++ back) byte ≡ back

get_elem?-split :
    {A : Type 0} (xs : List A) (n : ℕ) {x : A}
    → get_elem? xs n ≡ some x
    → (pre : List A) × (post : List A) × (xs ≡ pre ++ x ∷ post) × (length pre ≡ n)
get_elem?-split [] n h = absurd cc
get_elem?-split (y ∷ ys) zero h = ([], ys, cc, refl)
get_elem?-split (y ∷ ys) (suc n) h =
    let (pre, post, whole, at) = get_elem?-split ys n h in
    (y ∷ pre, post, ap (λ k. y ∷ k) whole, ap suc at)

in_line :
    (l : List ℕ) (column b : ℕ)
    → index_in l column ≡ ok b
    → (front : List ℕ) × (back : List ℕ) × (l ≡ front ++ back)
      × (column ≡ utf16_count front + 1)
      × (slice_to (front ++ back) b ≡ front)
      × (slice_from (front ++ back) b ≡ back)
unfolding index_in
in_line l zero b h = absurd cc
in_line l (suc target) b h =
    let (front, back, whole, u, w) = index_from-cut (suc target) 0 0 target b l (omega arith) h in
    let at : b ≡ utf8_size front = omega (arith, w) in
    (
      front,
      back,
      whole,
      omega (arith, u),
      ap (slice_to (front ++ back)) at ∙ slice_to-size front back,
      ap (slice_from (front ++ back)) at ∙ slice_from-size front back,
    )

pub located :
    (lines : List (List ℕ)) (line column b : ℕ)
    → byte_index lines line column ≡ ok b
    → Place lines line column b
unfolding byte_index line_at
located lines zero column b h = absurd cc
located lines (suc n) column b h = elim (Option-cases (get_elem? lines n)) [
  | inl missing ↦ absurd (cc (rw (missing, byte_index, line_at) at h))
  | inr (l, there) ↦
      let (pre, post, whole, at) = get_elem?-split lines n there in
      let (front, back, cut, column', to, from) =
        in_line l column b (rw (there, byte_index, line_at) at h) in
      record {
        pre = pre;
        post = post;
        front = front;
        back = back;
        found = whole ∙ ap (λ k. pre ++ k ∷ post) cut;
        line_number = omega (arith, at);
        column_number = column';
        to_byte = to;
        from_byte = from;
      }
]
