-- ===== src/EditorConn/Documents/Joined.antt =====
-- Lines joined to a text, and what putting new lines between cut ones makes of it.
use darkpyonix_ember.Base.{
  ℕ, zero, suc, ◌+◌, ◌≤◌, ◌<◌, ◌≡◌, refl, sym, ap, ap₂, ◌∙◌, List, [], ◌∷◌, ◌++◌, append_assoc,
  append-nil, length, take, drop, drop-append, drop-add, arith,
}
use darkpyonix_ember.Editor.Coords.{u32_mod, utf16_count, utf16_len}
use darkpyonix_ember.EditorConn.Documents.{push_suffix, insert_prefix, join, units_before}
use darkpyonix_ember.EditorConn.Documents.Applied.{Shape}

pub utf16_count-append : (xs ys : List ℕ) → utf16_count (xs ++ ys) ≡ utf16_count xs + utf16_count ys
unfolding utf16_count
utf16_count-append [] ys = omega arith
utf16_count-append (x ∷ xs) ys = omega (arith, utf16_count-append xs ys)

-- The units before a line, without the wrap of `units_before`.
unfoldable pub units_total : ℕ → List (List ℕ) → ℕ
units_total eol [] = 0
units_total eol (l ∷ ls) = utf16_count l + eol + units_total eol ls

pub units_before_fits :
    (eol : List ℕ) (ls : List (List ℕ))
    → units_total (utf16_count eol) ls < u32_mod
    → units_before (utf16_len eol) ls ≡ units_total (utf16_count eol) ls
unfolding units_total units_before utf16_len
units_before_fits eol [] small = refl
units_before_fits eol (l ∷ ls) small = omega (arith, small, units_before_fits eol ls (omega arith))

-- Of two ways to cut a text, the one that comes first in UTF-16 units comes first.
pub between :
    (a a' r b : List ℕ)
    → a ++ r ≡ a' ++ b
    → utf16_count a ≤ utf16_count a'
    → (x : List ℕ) × (a ++ x ≡ a') × (r ≡ x ++ b)
unfolding utf16_count
between [] a' r b same le = (a', refl, same)
between (c ∷ cs) [] r b same le = absurd (ground arith)
between (c ∷ cs) (d ∷ ds) r b same le =
    let head : c ≡ d = cc in
    let tail : cs ++ r ≡ ds ++ b = cc in
    let (x, e, f) = between cs ds r b tail (ground (arith, head)) in
    (x, ap₂ (λ h t. h ∷ t) head e, f)

pub regroup : (a b c d e : List ℕ) → a ++ ((b ++ c) ++ d ++ e) ≡ (a ++ b) ++ (c ++ d ++ e)
regroup a b c d e = simp append_assoc

pub drop-past :
    {A : Type 0} (pre : List A) (l : A) (post : List A)
    → drop (length pre + 1) (pre ++ l ∷ post) ≡ post
drop-past pre l post =
    drop-add (length pre) 1 (pre ++ l ∷ post) ∙ ap (drop 1) (drop-append pre (l ∷ post))

module _ (eol : List ℕ) where
  unfoldable pub ends : List (List ℕ) → List ℕ
  ends [] = []
  ends (l ∷ ls) = l ++ (eol ++ ends ls)

  unfoldable pub more : List (List ℕ) → List ℕ
  unfolding join
  more [] = []
  more (l ∷ ls) = eol ++ join eol (l ∷ ls)

  pub join-cons : (l : List ℕ) (ls : List (List ℕ)) → join eol (l ∷ ls) ≡ l ++ more ls
  unfolding join more
  join-cons l [] = sym (append-nil l)
  join-cons l (m ∷ ms) = refl

  pub join-ends :
      (pre : List (List ℕ)) (l : List ℕ) (post : List (List ℕ))
      → join eol (pre ++ l ∷ post) ≡ ends pre ++ (l ++ more post)
  unfolding join ends
  join-ends [] l post = join-cons l post
  join-ends (p ∷ []) l post =
      ap (λ t. p ++ (eol ++ t)) (join-cons l post) ∙ simp (append_assoc, append-nil)
  join-ends (p ∷ q ∷ qs) l post =
      ap (λ t. p ++ (eol ++ t)) (join-ends (q ∷ qs) l post) ∙ simp append_assoc

  more-push_suffix :
      (s m : List ℕ) (ms post : List (List ℕ))
      → more (push_suffix s (m ∷ ms) ++ post) ≡ eol ++ join eol (push_suffix s (m ∷ ms) ++ post)
  unfolding push_suffix more
  more-push_suffix s m [] post = refl
  more-push_suffix s m (n ∷ ns) post = refl

  join-push_suffix :
      (s l : List ℕ) (ls post : List (List ℕ))
      → join eol (push_suffix s (l ∷ ls) ++ post) ≡ join eol (l ∷ ls) ++ (s ++ more post)
  unfolding push_suffix join
  join-push_suffix s l [] post = join-cons (l ++ s) post ∙ append_assoc l s (more post)
  join-push_suffix s l (m ∷ ms) post =
      join-cons l (push_suffix s (m ∷ ms) ++ post)
      ∙ (ap (λ t. l ++ t)
            (more-push_suffix s m ms post ∙ ap (λ t. eol ++ t) (join-push_suffix s m ms post))
          ∙ simp append_assoc)

  pushed-cons : (s m : List ℕ) (ms post : List (List ℕ)) → Shape (push_suffix s (m ∷ ms) ++ post)
  unfolding push_suffix
  pushed-cons s m [] post = (m ++ s, post, refl)
  pushed-cons s m (n ∷ ns) post = (m, push_suffix s (n ∷ ns) ++ post, refl)

  join-pre : (pre ys : List (List ℕ)) → Shape ys → join eol (pre ++ ys) ≡ ends pre ++ join eol ys
  join-pre pre ys (y, zs, shape) =
      ap (λ k. join eol (pre ++ k)) shape
      ∙ (join-ends pre y zs
          ∙ ap (λ k. ends pre ++ k) (sym (join-cons y zs) ∙ ap (join eol) (sym shape)))

  -- Lines put between the two ends of cut lines.
  pub join-between :
      (pre : List (List ℕ)) (front l : List ℕ) (ls : List (List ℕ)) (back : List ℕ)
      (post : List (List ℕ))
      → join eol (pre ++ (push_suffix back (insert_prefix front (l ∷ ls)) ++ post))
        ≡ (ends pre ++ front) ++ (join eol (l ∷ ls) ++ (back ++ more post))
  join-between pre front l ls back post =
      join-pre pre _ (pushed-cons back (front ++ l) ls post)
      ∙ (ap (λ k. ends pre ++ k)
            (join-push_suffix back (front ++ l) ls post
              ∙ ap (λ k. k ++ (back ++ more post)) (join-cons (front ++ l) ls))
          ∙ (regroup (ends pre) front l (more ls) (back ++ more post)
              ∙ ap (λ k. (ends pre ++ front) ++ (k ++ (back ++ more post))) (sym (join-cons l ls))))

  pub units_total-ends :
      (pre : List (List ℕ)) → utf16_count (ends pre) ≡ units_total (utf16_count eol) pre
  unfolding ends units_total utf16_count
  units_total-ends [] = refl
  units_total-ends (l ∷ ls) = omega (
    arith,
    utf16_count-append l (eol ++ ends ls),
    utf16_count-append eol (ends ls),
    units_total-ends ls,
  )

  pub units_total-take :
      (pre : List (List ℕ)) (l : List ℕ) (post : List (List ℕ)) (n k : ℕ)
      → length pre + suc n ≡ k
      → units_total (utf16_count eol) pre + utf16_count l
        ≤ units_total (utf16_count eol) (take k (pre ++ l ∷ post))
  unfolding units_total
  units_total-take [] l post n zero h = absurd (omega arith)
  units_total-take [] l post n (suc k) h = omega arith
  units_total-take (p ∷ pre) l post n zero h = absurd (omega arith)
  units_total-take (p ∷ pre) l post n (suc k) h =
      omega (arith, units_total-take pre l post n k (omega arith))
