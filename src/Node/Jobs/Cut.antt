-- ===== src/Node/Jobs/Cut.antt =====
-- The tail that `get` hands out: a suffix of whole characters of the wanted size.
use darkpyonix_ember.Base.{
  ℕ, zero, suc, ◌+◌, ◌-◌, ◌≤◌, ◌≡◌, refl, ap, ap₂, ◌∙◌, Bool, true, false, ◌&&◌, ◌||◌, List, [],
  ◌∷◌, ◌++◌, min, ltb, leb, ◌==◌, arith, Bool-cases, inl, inr, leb→le, ltb→lt, subst, ◌≢◌,
}
use darkpyonix_ember.Editor.Coords.{len_utf8, utf8_size}
use darkpyonix_ember.Node.Jobs.{is_char_boundary, next_boundary, slice_from, cut_tail}

len_utf8_bounds : (c : ℕ) → (1 ≤ len_utf8 c) × (len_utf8 c ≤ 4)
len_utf8_bounds c = ground arith

boundary_zero : (cs : List ℕ) → is_char_boundary cs 0 ≡ true
unfolding is_char_boundary
boundary_zero [] = refl
boundary_zero (c ∷ cs) = refl

-- A boundary not far after a place in the text.
record Near (tail : List ℕ) (cut : ℕ) : Type 0 where
  place : ℕ
  boundary : is_char_boundary tail place ≡ true
  from_cut : cut ≤ place
  close : place ≤ cut + 3
  inside : place ≤ utf8_size tail

or_true : (a : Bool) → a || true ≡ true
or_true true = refl
or_true false = refl

tests_after :
    (w place : ℕ) (b : ℕ → Bool)
    → b place ≡ true
    → (w + place == 0) || (leb w (w + place) && b (w + place - w)) ≡ true
tests_after w place b h =
    let inner : leb w (w + place) ≡ true = ground arith in
    let back : w + place - w ≡ place = omega arith in
    ap (λ t. (w + place == 0) || t) (ap₂ (λ x y. x && y) inner (ap b back ∙ h))
    ∙ or_true (w + place == 0)

boundary_after :
    (c : ℕ) (cs : List ℕ) (place : ℕ)
    → is_char_boundary cs place ≡ true
    → is_char_boundary (c ∷ cs) (len_utf8 c + place) ≡ true
unfolding is_char_boundary
boundary_after c cs place h = tests_after (len_utf8 c) place (is_char_boundary cs) h

near : (tail : List ℕ) (cut : ℕ) → cut ≤ utf8_size tail → Near tail cut
unfolding utf8_size
near [] cut h = record {
  place = 0;
  boundary = boundary_zero [];
  from_cut = omega arith;
  close = omega arith;
  inside = omega arith;
}
near (c ∷ cs) zero h = record {
  place = 0;
  boundary = boundary_zero (c ∷ cs);
  from_cut = omega arith;
  close = omega arith;
  inside = omega arith;
}
near (c ∷ cs) (suc cut) h = elim (Bool-cases (leb (len_utf8 c) (suc cut))) [
  | inl past ↦
      let n = near cs (suc cut - len_utf8 c) (omega (arith, leb→le _ _ past)) in
      record {
        place = len_utf8 c + n.place;
        boundary = boundary_after c cs n.place n.boundary;
        from_cut = omega (arith, leb→le _ _ past, n.from_cut, n.close, n.inside);
        close = omega (arith, leb→le _ _ past, n.from_cut, n.close, n.inside);
        inside = omega (arith, leb→le _ _ past, n.from_cut, n.close, n.inside);
      }
  | inr within ↦ record {
    place = len_utf8 c + 0;
    boundary = boundary_after c cs 0 (boundary_zero cs);
    from_cut = ground arith;
    close = ground arith;
    inside = omega arith;
  }
]

-- The loop stops at a boundary, before or at every later one that the fuel reaches.
record Found (tail : List ℕ) (cut limit b : ℕ) : Type 0 where
  at_boundary : is_char_boundary tail b ≡ true
  after_cut : cut ≤ b
  in_limit : b ≤ limit

found :
    (fuel : ℕ) (tail : List ℕ) (cut limit : ℕ)
    → is_char_boundary tail limit ≡ true
    → cut ≤ limit
    → limit ≤ cut + fuel
    → Found tail cut limit (next_boundary fuel tail cut)
unfolding next_boundary
found zero tail cut limit h lo hi = record {
  at_boundary = subst (λ k. is_char_boundary tail k ≡ true) (omega arith) h;
  after_cut = omega arith;
  in_limit = lo;
}
found (suc fuel) tail cut limit h lo hi = elim (Bool-cases (is_char_boundary tail cut)) [
  | inl here ↦ rw here (record { at_boundary = here; after_cut = omega arith; in_limit = lo })
  | inr off ↦
      let past : cut ≢ limit = λ e. cc (ap (is_char_boundary tail) e) in
      let f = found fuel tail (cut + 1) limit h (omega arith) (omega arith) in
      rw off (record {
        at_boundary = f.at_boundary;
        after_cut = omega (arith, f.after_cut);
        in_limit = f.in_limit;
      })
]

-- The text from a boundary, and what stands before it.
record Split (tail : List ℕ) (b : ℕ) : Type 0 where
  front : List ℕ
  whole : front ++ slice_from tail b ≡ tail
  sizes : utf8_size (slice_from tail b) + b ≡ utf8_size tail

suc-ne : (b : ℕ) → (suc b == 0) ≡ false
suc-ne b = ground arith

parted : (tail : List ℕ) (b : ℕ) → is_char_boundary tail b ≡ true → Split tail b
unfolding is_char_boundary slice_from utf8_size
parted [] b h = record { front = []; whole = refl; sizes = ground arith }
parted (c ∷ cs) zero h = record { front = []; whole = refl; sizes = omega arith }
parted (c ∷ cs) (suc b) h = elim (Bool-cases (leb (len_utf8 c) (suc b))) [
  | inl past ↦
      let s = parted cs (suc b - len_utf8 c) (rw (suc-ne b, past) at h) in
      record {
        front = c ∷ s.front;
        whole = ap (λ xs. c ∷ xs) s.whole;
        sizes = omega (arith, leb→le _ _ past, s.sizes);
      }
  | inr within ↦ absurd (cc (rw (suc-ne b, within) at h))
]

-- The text handed out for a limit of `n` bytes is a suffix of the whole, of at most `n` bytes, and
-- at most three bytes short of `n` where the whole is longer; a whole text that fits is not cut.
pub cut_tail_lem :
    (n : ℕ) (tail : List ℕ)
    → ((front : List ℕ) × (front ++ cut_tail n tail ≡ tail))
      × (utf8_size (cut_tail n tail) ≤ n)
      × (min n (utf8_size tail) ≤ utf8_size (cut_tail n tail) + 3)
      × (utf8_size tail ≤ n → cut_tail n tail ≡ tail)
unfolding cut_tail
cut_tail_lem n tail = elim (Bool-cases (ltb n (utf8_size tail))) [
  | inr fits ↦ rw fits (([], refl), ground arith, ground arith, λ h. refl)
  | inl long ↦
      let less = ltb→lt n (utf8_size tail) long in
      let cut = utf8_size tail - n in
      let t = near tail cut (omega arith) in
      let f =
        found (utf8_size tail) tail cut t.place t.boundary t.from_cut (omega (arith, t.inside)) in
      let s = parted tail (next_boundary (utf8_size tail) tail cut) f.at_boundary in
      rw long (
        (s.front, s.whole),
        omega (arith, s.sizes, f.after_cut),
        omega (arith, s.sizes, f.in_limit, t.close),
        λ h. absurd (omega arith),
      )
]
