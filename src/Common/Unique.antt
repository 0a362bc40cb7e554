-- ===== src/Common/Unique.antt =====
-- Lists in which no two entries are the same in the sense of a Boolean test, such as equality of
-- a key.
use mathlib.Core.Bool.{Bool, true, false}
use mathlib.Core.List.{List, [], ◌∷◌, ◌++◌}
use mathlib.Core.Option.{some}
use mathlib.Core.Path.{◌≡◌, refl}
use mathlib.Core.Logic.{inl, inr}
use native.Mathlib.Omega.{arith}
use shpyrd.Common.First.{find?, update_first, delete_first, any-update_first, any-delete_first_none}
use shpyrd.Common.Lists.{any, keep, any-append, any-keep_none}
use shpyrd.Common.Tests.{Bool-cases}

-- No later entry is the same as an earlier one.
abbrev pub IsUnique {ℓ} : {A : Type ℓ} → (A → A → Bool) → List A → Type 0
IsUnique same [] = Unit
IsUnique same (x ∷ xs) = (any (same x) xs ≡ false) × IsUnique same xs

any-same {ℓ} :
    {A : Type ℓ} (p q : A → Bool) → ((a : A) → p a ≡ q a) → (xs : List A) → any p xs ≡ any q xs
unfolding any
any-same p q h [] = refl
any-same p q h (x ∷ xs) = ground (arith, h x, any-same p q h xs)

module _ {ℓ} {A : Type ℓ} (same : A → A → Bool) where
  pub IsUnique-snoc :
      (xs : List A) (x : A)
      → any (λ y. same y x) xs ≡ false
      → IsUnique same xs
      → IsUnique same (xs ++ x ∷ [])
  unfolding any
  IsUnique-snoc [] x h u = (refl, tt)
  IsUnique-snoc (y ∷ ys) x h u =
      (ground (arith, any-append (same y) ys (x ∷ [])), IsUnique-snoc ys x (ground arith) u.1)

  pub IsUnique-keep : (p : A → Bool) (xs : List A) → IsUnique same xs → IsUnique same (keep p xs)
  unfolding keep
  IsUnique-keep p [] u = tt
  IsUnique-keep p (x ∷ xs) u = ground (arith, IsUnique-keep p xs u.1, any-keep_none p (same x) xs)

  pub IsUnique-delete_first :
      (p : A → Bool) (xs : List A) → IsUnique same xs → IsUnique same (delete_first p xs)
  unfolding delete_first
  IsUnique-delete_first p [] u = tt
  IsUnique-delete_first p (x ∷ xs) u =
      ground (arith, IsUnique-delete_first p xs u.1, any-delete_first_none p (same x) xs)

  -- An update that leaves alone what the test compares keeps the entries apart.
  pub IsUnique-update_first :
      (p : A → Bool) (f : A → A)
      → ((a b : A) → same (f a) b ≡ same a b)
      → ((a b : A) → same a (f b) ≡ same a b)
      → (xs : List A) → IsUnique same xs
      → IsUnique same (update_first p f xs)
  unfolding update_first
  IsUnique-update_first p f l r [] u = tt
  IsUnique-update_first p f l r (x ∷ xs) u = ground (
    arith,
    IsUnique-update_first p f l r xs u.1,
    any-update_first p (same x) f (r x) xs,
    any-same (same (f x)) (same x) (l x) xs,
  )

  -- Where the test holds only of entries that are the same, deleting the first leaves none.
  pub IsUnique-find_only :
      (p : A → Bool)
      → ((a b : A) → p a ≡ true → p b ≡ true → same a b ≡ true)
      → (xs : List A) {a : A} → IsUnique same xs
      → find? p xs ≡ some a
      → any p (delete_first p xs) ≡ false
  unfolding any find? delete_first
  IsUnique-find_only p h [] u e = refl
  IsUnique-find_only p h (x ∷ xs) {a} u e = elim (Bool-cases (p x)) [
    | inl f ↦ rw f (none_else xs u.0 f)
    | inr f ↦ rw (f, f) (IsUnique-find_only p h xs u.1 (rw f at e))
  ]
    where
      none_else : (ys : List A) → any (same x) ys ≡ false → p x ≡ true → any p ys ≡ false
      none_else [] n q = refl
      none_else (y ∷ ys) n q = ground (arith, h x y, none_else ys)
