-- ===== src/Common/First.antt =====
-- Loops that stop at the first entry that passes a test: `for i := range xs { if p(xs[i]) { … } }`
-- with a return in the branch.
use mathlib.Core.Bool.{Bool, true, false}
use mathlib.Core.List.{List, [], ◌∷◌, ◌++◌}
use mathlib.Core.Option.{Option, none, some}
use mathlib.Core.Path.{◌≡◌, refl}
use native.Mathlib.Omega.{arith}
use shpyrd.Common.Lists.{any, All}
use shpyrd.Common.Tests.{if◌then◌else◌}

module _ {ℓ} {A : Type ℓ} where
  unfoldable pub find? : (A → Bool) → List A → Option A
  find? p [] = none
  find? p (x ∷ xs) = if p x then some x else find? p xs

  -- A write through the pointer to the first entry that passes.
  unfoldable pub update_first : (A → Bool) → (A → A) → List A → List A
  update_first p f [] = []
  update_first p f (x ∷ xs) = if p x then f x ∷ xs else x ∷ update_first p f xs

  -- `append(xs[:i], xs[i+1:]...)` at the first entry that passes.
  unfoldable pub delete_first : (A → Bool) → List A → List A
  delete_first p [] = []
  delete_first p (x ∷ xs) = if p x then xs else x ∷ delete_first p xs

  -- What is found passes the test.
  pub find?-passes : (p : A → Bool) (xs : List A) {a : A} → find? p xs ≡ some a → p a ≡ true
  unfolding find?
  find?-passes p [] h = ground arith
  find?-passes p (x ∷ xs) {a} h = ground (arith, find?-passes p xs {a = a})

  pub find?-none : (p : A → Bool) (xs : List A) → find? p xs ≡ none → any p xs ≡ false
  unfolding find? any
  find?-none p [] h = refl
  find?-none p (x ∷ xs) h = ground (arith, find?-none p xs)

  pub find?-some-any :
      (p q : A → Bool) (xs : List A) {a : A} → find? p xs ≡ some a → q a ≡ true → any q xs ≡ true
  unfolding find? any
  find?-some-any p q [] h k = ground arith
  find?-some-any p q (x ∷ xs) {a} h k = ground (arith, find?-some-any p q xs {a = a})

  -- An update that keeps the answer of a test keeps the search for it.
  pub any-update_first :
      (p q : A → Bool) (f : A → A)
      → ((a : A) → q (f a) ≡ q a)
      → (xs : List A) → any q (update_first p f xs) ≡ any q xs
  unfolding any update_first
  any-update_first p q f h [] = refl
  any-update_first p q f h (x ∷ xs) = ground (arith, h x, any-update_first p q f h xs)

  -- The updated entry is found by a test that it passes.
  pub any-update_first_found :
      (p q : A → Bool) (f : A → A) (xs : List A) {a : A}
      → find? p xs ≡ some a
      → q (f a) ≡ true
      → any q (update_first p f xs) ≡ true
  unfolding any update_first find?
  any-update_first_found p q f [] h k = ground arith
  any-update_first_found p q f (x ∷ xs) {a} h k =
      ground (arith, any-update_first_found p q f xs {a = a})

  pub any-delete_first_none :
      (p q : A → Bool) (xs : List A) → any q xs ≡ false → any q (delete_first p xs) ≡ false
  unfolding any delete_first
  any-delete_first_none p q [] h = refl
  any-delete_first_none p q (x ∷ xs) h = ground (arith, any-delete_first_none p q xs)

  -- Where the deleted entry fails another test, the search for that test is unchanged.
  pub any-delete_first_ne :
      (p q : A → Bool) (xs : List A) {a : A}
      → find? p xs ≡ some a
      → q a ≡ false
      → any q (delete_first p xs) ≡ any q xs
  unfolding any delete_first find?
  any-delete_first_ne p q [] h k = refl
  any-delete_first_ne p q (x ∷ xs) {a} h k = ground (arith, any-delete_first_ne p q xs {a = a})

  -- The updated entry is the one that a search finds afterwards, where it still passes.
  pub find?-update_first :
      (p : A → Bool) (f : A → A)
      → ((a : A) → p (f a) ≡ p a)
      → (xs : List A) {a : A} → find? p xs ≡ some a
      → find? p (update_first p f xs) ≡ some (f a)
  unfolding find? update_first
  find?-update_first p f h [] k = ground arith
  find?-update_first p f h (x ∷ xs) {a} k = ground (arith, h x, find?-update_first p f h xs {a = a})

  -- An entry at the end is found, if no other passes.
  pub find?-snoc_new :
      (p : A → Bool) (xs : List A) (a : A)
      → find? p xs ≡ none
      → p a ≡ true
      → find? p (xs ++ a ∷ []) ≡ some a
  unfolding find?
  find?-snoc_new p [] a h k = rw k
  find?-snoc_new p (x ∷ xs) a h k = ground (arith, find?-snoc_new p xs a)

  -- A search whose test excludes the updated entry, before and after, does not notice.
  pub find?-update_first_ne :
      (p q : A → Bool) (f : A → A)
      → ((a : A) → p a ≡ true → q a ≡ false)
      → ((a : A) → p a ≡ true → q (f a) ≡ false)
      → (xs : List A) → find? q (update_first p f xs) ≡ find? q xs
  unfolding find? update_first
  find?-update_first_ne p q f h k [] = refl
  find?-update_first_ne p q f h k (x ∷ xs) =
      ground (arith, h x, k x, find?-update_first_ne p q f h k xs)

  pub find?-delete_first_ne :
      (p q : A → Bool)
      → ((a : A) → p a ≡ true → q a ≡ false)
      → (xs : List A) → find? q (delete_first p xs) ≡ find? q xs
  unfolding find? delete_first
  find?-delete_first_ne p q h [] = refl
  find?-delete_first_ne p q h (x ∷ xs) = ground (arith, h x, find?-delete_first_ne p q h xs)

module _ {ℓ κ} {A : Type ℓ} (P : A → Type κ) where
  pub All-find? : (p : A → Bool) (xs : List A) {a : A} → All P xs → find? p xs ≡ some a → P a
  unfolding find?
  All-find? p [] h k = absurd (ground arith)
  All-find? p (x ∷ xs) {a} h k = ground (arith, All-find? p xs {a = a} h.1)

  pub All-update_first :
      (p : A → Bool) (f : A → A)
      → ((a : A) → p a ≡ true → P a → P (f a))
      → (xs : List A) → All P xs
      → All P (update_first p f xs)
  unfolding update_first
  All-update_first p f g [] h = tt
  All-update_first p f g (x ∷ xs) h = ground (arith, g x, All-update_first p f g xs h.1)

  pub All-delete_first : (p : A → Bool) (xs : List A) → All P xs → All P (delete_first p xs)
  unfolding delete_first
  All-delete_first p [] h = tt
  All-delete_first p (x ∷ xs) h = ground (arith, All-delete_first p xs h.1)
