-- ===== src/Base/Maps.antt =====
-- Finite maps and sets over keys with a Boolean equality: the program's `HashMap`, `BTreeMap` and
-- `HashSet` as lists in which a key stands once. Their iteration order is that of the list.
use mathlib.Core.Path.{◌≡◌, refl}
use mathlib.Core.Logic.{◌↔◌, inl, inr}
use mathlib.Core.Bool.{Bool, true, false, not, ◌&&◌, ◌||◌}
use mathlib.Core.Option.{Option, none, some}
use mathlib.Core.List.{List, [], ◌∷◌}
use Prim.Native.Nat.{ℕ, ◌≤◌, ◌<◌}
use Prim.Native.String.{String}
use native.Mathlib.Omega.{arith}
use text.Mathlib.Text.{◌==◌ as str_eq}
use text.Mathlib.TextEquality.{eq_iff}
use darkpyonix_ember.Base.Tests.{if◌then◌else◌, ==_iff, Bool-cases}
use darkpyonix_ember.Base.Tests.{◌==◌ as nat_eq}
use darkpyonix_ember.Base.Lists.{length}

pub record Eq {ℓ} (K : Type ℓ) : Type ℓ where
  pub beq : K → K → Bool
  pub beq_iff : (a b : K) → (beq a b ≡ true) ↔ (a ≡ b)

instance abbrev pub nat_Eq : Eq ℕ
nat_Eq = record { beq = nat_eq; beq_iff = ==_iff }

instance abbrev pub string_Eq : Eq String
string_Eq = record { beq = str_eq; beq_iff = eq_iff }

module _ {ℓ} {K : Type ℓ} ⦃e : Eq K⦄ where
  pub beq_self : (k : K) → e.beq k k ≡ true
  beq_self k = (e.beq_iff k k).1 refl

  pub beq-eq : (a b : K) → e.beq a b ≡ true → a ≡ b
  beq-eq a b h = (e.beq_iff a b).0 h

  abbrev pub contains : K → List K → Bool
  contains k [] = false
  contains k (x ∷ xs) = e.beq x k || contains k xs

  -- A set's `insert` and `remove`.
  abbrev pub insert : K → List K → List K
  insert k xs = if contains k xs then xs else k ∷ xs

  abbrev pub remove : K → List K → List K
  remove k [] = []
  remove k (x ∷ xs) = if e.beq x k then remove k xs else x ∷ remove k xs

  pub contains-insert :
      (j k : K) (xs : List K) → contains j (insert k xs) ≡ (e.beq k j || contains j xs)
  contains-insert j k xs = elim (Bool-cases (contains k xs)) [
    | inr new ↦ rw new
    | inl old ↦ rw old (go j k xs old)
  ]
    where
      go :
          (j k : K) (xs : List K)
          → contains k xs ≡ true
          → contains j xs ≡ (e.beq k j || contains j xs)
      go j k xs old = elim (Bool-cases (e.beq k j)) [
        | inr other ↦ rw other
        | inl same ↦ rw (same, ← beq-eq k j same) old
      ]

  pub contains-remove :
      (j k : K) (xs : List K) → contains j (remove k xs) ≡ (not (e.beq k j) && contains j xs)
  contains-remove j k [] = ground arith
  contains-remove j k (x ∷ xs) =
      ground (arith, contains-remove j k xs, e.beq_iff x k, e.beq_iff x j, e.beq_iff k j)

module _ {ℓ κ} {K : Type ℓ} {V : Type κ} ⦃e : Eq K⦄ where
  abbrev pub find : K → List (K × V) → Option V
  find k [] = none
  find k ((j, v) ∷ m) = if e.beq j k then some v else find k m

  abbrev pub put : K → V → List (K × V) → List (K × V)
  put k v [] = (k, v) ∷ []
  put k v ((j, w) ∷ m) = if e.beq j k then (k, v) ∷ m else (j, w) ∷ put k v m

  abbrev pub erase : K → List (K × V) → List (K × V)
  erase k [] = []
  erase k ((j, w) ∷ m) = if e.beq j k then erase k m else (j, w) ∷ erase k m

  pub find-put :
      (j k : K) (v : V) (m : List (K × V))
      → find j (put k v m) ≡ (if e.beq k j then some v else find j m)
  find-put j k v [] = refl
  find-put j k v ((i, w) ∷ m) =
      ground (arith, find-put j k v m, e.beq_iff i k, e.beq_iff k j, e.beq_iff i j)

  pub find-erase :
      (j k : K) (m : List (K × V)) → find j (erase k m) ≡ (if e.beq k j then none else find j m)
  find-erase j k [] = ground arith
  find-erase j k ((i, w) ∷ m) =
      ground (arith, find-erase j k m, e.beq_iff i k, e.beq_iff k j, e.beq_iff i j)

  pub length-erase-le : (k : K) (m : List (K × V)) → length (erase k m) ≤ length m
  length-erase-le k [] = omega arith
  length-erase-le k ((j, w) ∷ m) = ground (arith, length-erase-le k m)

  -- An entry that is found goes.
  pub length-erase-lt :
      (k : K) (v : V) (m : List (K × V)) → find k m ≡ some v → length (erase k m) < length m
  length-erase-lt k v [] h = cc
  length-erase-lt k v ((j, w) ∷ m) h = ground (arith, length-erase-le k m, length-erase-lt k v m)

  -- A map in which nothing is found is empty.
  pub find-none : (m : List (K × V)) → ((k : K) (v : V) → find k m ≡ some v → ⊥) → m ≡ []
  find-none [] h = refl
  find-none ((j, w) ∷ m) h = absurd (h j w (rw (beq_self j) refl))
