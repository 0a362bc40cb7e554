-- ===== src/Common/Lists.antt =====
-- Lists measured by native numbers, Boolean searches over a list, and predicates by recursion.
use Prim.Native.Nat.{ℕ, zero, suc, ◌+◌, ◌-◌, ◌≤◌}
use mathlib.Core.Bool.{Bool, true, false, not, ◌&&◌, ◌||◌}
use mathlib.Core.List.{List, [], ◌∷◌, ◌++◌, map}
use mathlib.Core.Path.{◌≡◌, refl}
use native.Mathlib.Omega.{arith}
use shpyrd.Common.Tests.{if◌then◌else◌}

module _ {ℓ} {A : Type ℓ} where
  abbrev pub length : List A → ℕ
  length [] = 0
  length (x ∷ xs) = suc (length xs)

  pub length-append : (xs ys : List A) → length (xs ++ ys) ≡ length xs + length ys
  length-append [] ys = omega arith
  length-append (x ∷ xs) ys = omega (arith, length-append xs ys)

  -- Some entry passes the test.
  unfoldable pub any : (A → Bool) → List A → Bool
  any p [] = false
  any p (x ∷ xs) = p x || any p xs

  -- The entries that pass the test, in their order.
  unfoldable pub keep : (A → Bool) → List A → List A
  keep p [] = []
  keep p (x ∷ xs) = let rest = keep p xs in if p x then x ∷ rest else rest

  pub any-append : (p : A → Bool) (xs ys : List A) → any p (xs ++ ys) ≡ (any p xs || any p ys)
  unfolding any
  any-append p [] ys = refl
  any-append p (x ∷ xs) ys = ground (arith, any-append p xs ys)

  pub any-never : (p : A → Bool) → ((a : A) → p a ≡ false) → (xs : List A) → any p xs ≡ false
  unfolding any
  any-never p h [] = refl
  any-never p h (x ∷ xs) = ground (arith, h x, any-never p h xs)

  pub any-keep : (p q : A → Bool) (xs : List A) → any q (keep p xs) ≡ any (λ a. p a && q a) xs
  unfolding any keep
  any-keep p q [] = refl
  any-keep p q (x ∷ xs) = ground (arith, any-keep p q xs)

  pub any-keep_none : (p q : A → Bool) (xs : List A) → any q xs ≡ false → any q (keep p xs) ≡ false
  unfolding any keep
  any-keep_none p q [] h = refl
  any-keep_none p q (x ∷ xs) h = ground (arith, any-keep_none p q xs)

  -- Nothing that the test refuses is kept.
  pub any-keep_refused :
      (p q : A → Bool)
      → ((a : A) → p a ≡ true → q a ≡ false)
      → (xs : List A) → any q (keep p xs) ≡ false
  unfolding any keep
  any-keep_refused p q h [] = refl
  any-keep_refused p q h (x ∷ xs) = ground (arith, h x, any-keep_refused p q h xs)

  -- Entries that another test finds survive where every one of them is kept.
  pub any-keep_kept :
      (p q : A → Bool)
      → ((a : A) → q a ≡ true → p a ≡ true)
      → (xs : List A) → any q (keep p xs) ≡ any q xs
  unfolding any keep
  any-keep_kept p q h [] = refl
  any-keep_kept p q h (x ∷ xs) = ground (arith, h x, any-keep_kept p q h xs)

  pub keep-append : (p : A → Bool) (xs ys : List A) → keep p (xs ++ ys) ≡ keep p xs ++ keep p ys
  unfolding keep
  keep-append p [] ys = refl
  keep-append p (x ∷ xs) ys = ground (arith, keep-append p xs ys)

  pub keep-keep : (p q : A → Bool) (xs : List A) → keep q (keep p xs) ≡ keep (λ a. p a && q a) xs
  unfolding keep
  keep-keep p q [] = refl
  keep-keep p q (x ∷ xs) = ground (arith, keep-keep p q xs)

  -- What is kept and what is dropped add up to the whole.
  pub length-keep :
      (p : A → Bool) (xs : List A)
      → length (keep p xs) + length (keep (λ a. not (p a)) xs) ≡ length xs
  unfolding keep
  length-keep p [] = omega arith
  length-keep p (x ∷ xs) = ground (arith, length-keep p xs)

-- Every entry satisfies the predicate.
abbrev pub All {ℓ κ} : {A : Type ℓ} → (A → Type κ) → List A → Type κ
All P [] = Unit
All P (x ∷ xs) = P x × All P xs

module _ {ℓ κ} {A : Type ℓ} (P : A → Type κ) where
  pub All-append : (xs ys : List A) → All P xs → All P ys → All P (xs ++ ys)
  All-append [] ys hx hy = hy
  All-append (x ∷ xs) ys hx hy = (hx.0, All-append xs ys hx.1 hy)

  pub All-snoc : (xs : List A) (x : A) → All P xs → P x → All P (xs ++ x ∷ [])
  All-snoc xs x h hx = All-append xs (x ∷ []) h (hx, tt)

-- A predicate that implies another one carries over entry by entry.
pub All-map {ℓ κ μ} :
    {A : Type ℓ} (P : A → Type κ) (Q : A → Type μ)
    → ((a : A) → P a → Q a)
    → (xs : List A) → All P xs
    → All Q xs
All-map P Q f [] h = tt
All-map P Q f (x ∷ xs) h = (f x h.0, All-map P Q f xs h.1)

-- What is kept satisfies a predicate that the test adds to another one.
pub All-keep_map {ℓ κ μ} :
    {A : Type ℓ} (P : A → Type κ) (Q : A → Type μ) (p : A → Bool)
    → ((a : A) → p a ≡ true → P a → Q a)
    → (xs : List A) → All P xs
    → All Q (keep p xs)
unfolding keep
All-keep_map P Q p f [] h = tt
All-keep_map P Q p f (x ∷ xs) h = ground (arith, f x, All-keep_map P Q p f xs h.1)

-- Nothing is asked of the entries.
pub All-Unit {ℓ} : {A : Type ℓ} (xs : List A) → All (λ (_ : A). Unit {0}) xs
All-Unit [] = tt
All-Unit (x ∷ xs) = (tt, All-Unit xs)

pub any-map {ℓ κ} :
    {A : Type ℓ} {B : Type κ} (f : B → A) (q : A → Bool) (xs : List B)
    → any q (map f xs) ≡ any (λ b. q (f b)) xs
unfolding any
any-map f q [] = refl
any-map f q (x ∷ xs) = ground (arith, any-map f q xs)

pub length-keep_le {ℓ} : {A : Type ℓ} (p : A → Bool) (xs : List A) → length (keep p xs) ≤ length xs
unfolding keep
length-keep_le p [] = omega arith
length-keep_le p (x ∷ xs) = ground (arith, length-keep_le p xs)

module _ {ℓ} {A : Type ℓ} where
  -- xs[:n] and xs[n:]
  abbrev pub take : ℕ → List A → List A
  take zero xs = []
  take (suc n) [] = []
  take (suc n) (x ∷ xs) = x ∷ take n xs

  abbrev pub drop : ℕ → List A → List A
  drop zero xs = xs
  drop (suc n) [] = []
  drop (suc n) (x ∷ xs) = drop n xs

  pub length-drop : (n : ℕ) (xs : List A) → length (drop n xs) ≡ length xs - n
  length-drop zero xs = omega arith
  length-drop (suc n) [] = omega arith
  length-drop (suc n) (x ∷ xs) = omega (arith, length-drop n xs)

  -- An entry is in the first part or in the rest.
  pub any-take-drop :
      (p : A → Bool) (n : ℕ) (xs : List A) → any p xs ≡ (any p (take n xs) || any p (drop n xs))
  unfolding any
  any-take-drop p zero xs = refl
  any-take-drop p (suc n) [] = refl
  any-take-drop p (suc n) (x ∷ xs) = ground (arith, any-take-drop p n xs)
