-- ===== src/Common/Sort.antt =====
-- `sort.Slice(xs, less)` as an insertion sort. Go leaves the order of entries open that `less`
-- does not tell apart; here the later one comes first.
use mathlib.Core.Bool.{Bool, true, false, Bool-set}
use mathlib.Core.List.{List, [], ◌∷◌, map, Perm, Permᴰ}
use mathlib.Core.List.Perm
use mathlib.Core.Path.{◌≡◌, refl, ap, ◌∙◌}
use native.Mathlib.Omega.{arith}
use shpyrd.Common.Lists.{any, keep, All}
use shpyrd.Common.Tests.{if◌then◌else◌, Bool-cases}
use mathlib.Core.Logic.{inl, inr, ∥∥₁_elim}

module _ {ℓ} {A : Type ℓ} (less : A → A → Bool) where
  insert_sorted : A → List A → List A
  insert_sorted x [] = x ∷ []
  insert_sorted x (y ∷ ys) = if less x y then x ∷ y ∷ ys else y ∷ insert_sorted x ys

  unfoldable pub sort : List A → List A
  unfolding insert_sorted
  sort [] = []
  sort (x ∷ xs) = insert_sorted x (sort xs)

  -- No entry is less than the one in front of it.
  abbrev pub IsSorted : List A → Type 0
  IsSorted [] = Unit
  IsSorted (x ∷ []) = Unit
  IsSorted (x ∷ y ∷ ys) = (less y x ≡ false) × IsSorted (y ∷ ys)

  insert_sorted-perm : (x : A) (xs : List A) → Perm (insert_sorted x xs) (x ∷ xs)
  unfolding insert_sorted
  insert_sorted-perm x [] = Perm.refl (x ∷ [])
  insert_sorted-perm x (y ∷ ys) = elim (Bool-cases (less x y)) [
    | inl e ↦ rw e (Perm.refl (x ∷ y ∷ ys))
    | inr e ↦ rw e (Perm.trans (Perm.cons y (insert_sorted-perm x ys)) (Perm.swap x y ys))
  ]

  -- Sorting loses nothing and invents nothing.
  pub sort-perm : (xs : List A) → Perm (sort xs) xs
  unfolding sort
  sort-perm [] = Perm.refl []
  sort-perm (x ∷ xs) = Perm.trans (insert_sorted-perm x (sort xs)) (Perm.cons x (sort-perm xs))

  insert_sorted-any :
      (p : A → Bool) (x : A) (xs : List A) → any p (insert_sorted x xs) ≡ any p (x ∷ xs)
  unfolding insert_sorted any
  insert_sorted-any p x [] = refl
  insert_sorted-any p x (y ∷ ys) = ground (arith, insert_sorted-any p x ys)

  pub any-sort : (p : A → Bool) (xs : List A) → any p (sort xs) ≡ any p xs
  unfolding sort any
  any-sort p [] = refl
  any-sort p (x ∷ xs) = ground (arith, insert_sorted-any p x (sort xs), any-sort p xs)

  module _ (asym : (a b : A) → less a b ≡ true → less b a ≡ false) where
    insert_sorted-IsSorted : (x : A) (xs : List A) → IsSorted xs → IsSorted (insert_sorted x xs)
    unfolding insert_sorted
    insert_sorted-IsSorted x [] h = tt
    insert_sorted-IsSorted x (y ∷ []) h = ground (arith, asym x y)
    insert_sorted-IsSorted x (y ∷ z ∷ zs) h =
        ground (arith, asym x y, asym x z, insert_sorted-IsSorted x (z ∷ zs) h.1)

    -- The result is in order, where `less` never holds both ways.
    pub sort-IsSorted : (xs : List A) → IsSorted (sort xs)
    unfolding sort
    sort-IsSorted [] = tt
    sort-IsSorted (x ∷ xs) = insert_sorted-IsSorted x (sort xs) (sort-IsSorted xs)

module _ {ℓ} {A : Type ℓ} (p : A → Bool) where
  any-permᴰ : {xs ys : List A} → Permᴰ xs ys → any p xs ≡ any p ys
  unfolding any
  any-permᴰ Permᴰ.nil = refl
  any-permᴰ (Permᴰ.cons e h) = rw (e, any-permᴰ h)
  any-permᴰ (Permᴰ.swap {l = l} e f) = rw (e, f) (ground arith)
  any-permᴰ (Permᴰ.trans h k) = any-permᴰ h ∙ any-permᴰ k

  -- The order of a list makes no difference to a search.
  pub any-perm : {xs ys : List A} → Perm xs ys → any p xs ≡ any p ys
  any-perm h = ∥∥₁_elim h (Bool-set _ _) any-permᴰ

-- What holds of every entry holds of the sorted entries.
module _ {ℓ κ} {A : Type ℓ} (less : A → A → Bool) (P : A → Type κ) where
  insert_sorted-All : (x : A) (xs : List A) → P x → All P xs → All P (insert_sorted less x xs)
  unfolding insert_sorted
  insert_sorted-All x [] p h = (p, tt)
  insert_sorted-All x (y ∷ ys) p h = elim (Bool-cases (less x y)) [
    | inl e ↦ rw e (p, h)
    | inr e ↦ rw e (h.0, insert_sorted-All x ys p h.1)
  ]

  pub All-sort : (xs : List A) → All P xs → All P (sort less xs)
  unfolding sort
  All-sort [] h = tt
  All-sort (x ∷ xs) h = insert_sorted-All x (sort less xs) h.0 (All-sort xs h.1)

-- Entries read by a function are sorted as what they are read as.
module _ {ℓ κ} {A : Type ℓ} {B : Type κ} (f : A → B) (less : B → B → Bool) where
  insert_sorted-map :
      (x : A) (xs : List A)
      → insert_sorted less (f x) (map f xs) ≡ map f (insert_sorted (λ a b. less (f a) (f b)) x xs)
  unfolding insert_sorted
  insert_sorted-map x [] = refl
  insert_sorted-map x (y ∷ ys) = ground (arith, insert_sorted-map x ys)

  pub sort-map : (xs : List A) → sort less (map f xs) ≡ map f (sort (λ a b. less (f a) (f b)) xs)
  unfolding sort
  sort-map [] = refl
  sort-map (x ∷ xs) =
      ap (insert_sorted less (f x)) (sort-map xs)
      ∙ insert_sorted-map x (sort (λ a b. less (f a) (f b)) xs)

-- A filter of sorted entries keeps the same entries as a filter of the entries before.
module _ {ℓ} {A : Type ℓ} (less : A → A → Bool) (p : A → Bool) where
  keep-insert_sorted :
      (x : A) (xs : List A) → Perm (keep p (insert_sorted less x xs)) (keep p (x ∷ xs))
  unfolding insert_sorted keep
  keep-insert_sorted x [] = Perm.refl (keep p (x ∷ []))
  keep-insert_sorted x (y ∷ ys) = elim (Bool-cases (less x y)) [
    | inl e ↦ rw e (Perm.refl (keep p (x ∷ y ∷ ys)))
    | inr e ↦
        let rest = keep-insert_sorted x ys in
        elim (Bool-cases (p y)) [
          | inr f ↦ rw (e, f) rest
          | inl f ↦ elim (Bool-cases (p x)) [
            | inl g ↦
                rw (e, f, g) (Perm.trans (Perm.cons y (rw g at rest)) (Perm.swap x y (keep p ys)))
            | inr g ↦ rw (e, f, g) (Perm.cons y (rw g at rest))
          ]
        ]
  ]

  pub keep-sort : (xs : List A) → Perm (keep p (sort less xs)) (keep p xs)
  unfolding sort keep
  keep-sort [] = Perm.refl []
  keep-sort (x ∷ xs) = Perm.trans (keep-insert_sorted x (sort less xs)) (elim (Bool-cases (p x)) [
    | inl e ↦ rw e (Perm.cons x (keep-sort xs))
    | inr e ↦ rw e (keep-sort xs)
  ])
