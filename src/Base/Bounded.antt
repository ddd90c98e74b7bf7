-- ===== src/Base/Bounded.antt =====
-- Lists that keep only their newest elements.
use Prim.Native.Nat.{ℕ, ◌-◌, min}
use mathlib.Core.Path.{◌≡◌, refl, sym, ◌∙◌, ap}
use mathlib.Core.Bool.{Bool, true, false}
use mathlib.Core.List.{List, [], ◌∷◌, ◌++◌}
use native.Mathlib.Omega.{arith}
use darkpyonix_ember.Base.Tests.{ltb, if◌then◌else◌, ltb→lt}
use darkpyonix_ember.Base.Lists.{length, drop, length-append, length-drop, drop-append_le, drop-add}

module _ {ℓ} {A : Type ℓ} where
  -- The newest `n` elements of a list that grows at its end.
  abbrev pub newest : ℕ → List A → List A
  newest n xs = drop (length xs - n) xs

  pub newest-append : (n : ℕ) (xs ys : List A) → newest n (newest n xs ++ ys) ≡ newest n (xs ++ ys)
  newest-append n xs ys =
      let k = length xs - n in
      ap (newest n) (sym (drop-append_le k xs ys (omega arith)))
      ∙ (sym (drop-add k (length (drop k (xs ++ ys)) - n) (xs ++ ys))
          ∙ ap (λ m. drop m (xs ++ ys))
              (omega (arith, length-append xs ys, length-drop k (xs ++ ys))))

  pub length-newest : (n : ℕ) (xs : List A) → length (newest n xs) ≡ min n (length xs)
  length-newest n xs = omega (arith, length-drop (length xs - n) xs)

  pushed :
      (n : ℕ) (xs : List A) (x : A) (b : Bool)
      → ltb n (length (newest n xs ++ x ∷ [])) ≡ b
      → (if b then drop 1 (newest n xs ++ x ∷ []) else newest n xs ++ x ∷ [])
        ≡ newest n (xs ++ x ∷ [])
  pushed n xs x true e =
      ap (λ k. drop k (newest n xs ++ x ∷ [])) {x = 1} {y = length (newest n xs ++ x ∷ []) - n}
        (omega (arith, ltb→lt _ _ e, length-append (newest n xs) (x ∷ []), length-newest n xs))
      ∙ newest-append n xs (x ∷ [])
  pushed n xs x false e =
      ap (λ k. drop k (newest n xs ++ x ∷ [])) {x = 0} {y = length (newest n xs ++ x ∷ []) - n}
        (ground arith)
      ∙ newest-append n xs (x ∷ [])

  -- Pushing an element, and dropping the oldest past the limit.
  pub push_newest :
      (n : ℕ) (xs : List A) (x : A)
      → (if ltb n (length (newest n xs ++ x ∷ []))
          then drop 1 (newest n xs ++ x ∷ [])
          else newest n xs ++ x ∷ [])
        ≡ newest n (xs ++ x ∷ [])
  push_newest n xs x = pushed n xs x (ltb n (length (newest n xs ++ x ∷ []))) refl
