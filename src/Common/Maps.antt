-- ===== src/Common/Maps.antt =====
-- Searches, filters and updates of a list that is read through a function.
use mathlib.Core.Bool.{Bool, true, false, not}
use mathlib.Core.List.{List, [], ◌∷◌, ◌++◌, map}
use mathlib.Core.Option.{Option, none, some}
use mathlib.Core.Path.{◌≡◌, refl}
use native.Mathlib.Omega.{arith}
use shpyrd.Common.First.{find?, update_first, delete_first}
use shpyrd.Common.Lists.{any, keep, All}

abbrev pub read_by {ℓ κ} : {A : Type ℓ} {B : Type κ} → (A → B) → Option A → Option B
read_by f none = none
read_by f (some a) = some (f a)

module _ {ℓ κ} {A : Type ℓ} {B : Type κ} (f : A → B) where
  pub find?-map :
      (p : B → Bool) (xs : List A) → find? p (map f xs) ≡ read_by f (find? (λ a. p (f a)) xs)
  unfolding find?
  find?-map p [] = refl
  find?-map p (x ∷ xs) = ground (arith, find?-map p xs)

  pub keep-map : (p : B → Bool) (xs : List A) → keep p (map f xs) ≡ map f (keep (λ a. p (f a)) xs)
  unfolding keep
  keep-map p [] = refl
  keep-map p (x ∷ xs) = ground (arith, keep-map p xs)

  -- An update that the reading turns into another one.
  pub update_first-map :
      (p : B → Bool) (g : B → B) (h : A → A)
      → ((a : A) → g (f a) ≡ f (h a))
      → (xs : List A) → update_first p g (map f xs) ≡ map f (update_first (λ a. p (f a)) h xs)
  unfolding update_first
  update_first-map p g h e [] = refl
  update_first-map p g h e (x ∷ xs) = ground (arith, e x, update_first-map p g h e xs)

-- Two filters and two readings that agree on the entries of a list.
pub map-keep_same {ℓ κ μ} :
    {A : Type ℓ} {B : Type κ} (P : A → Type μ) (f g : A → B) (p q : A → Bool)
    → ((a : A) → P a → p a ≡ q a)
    → ((a : A) → P a → p a ≡ true → f a ≡ g a)
    → (xs : List A) → All P xs
    → map f (keep p xs) ≡ map g (keep q xs)
unfolding keep
map-keep_same P f g p q t r [] h = refl
map-keep_same P f g p q t r (x ∷ xs) h =
    ground (arith, t x h.0, r x h.0, map-keep_same P f g p q t r xs h.1)

pub map_same {ℓ κ μ} :
    {A : Type ℓ} {B : Type κ} (P : A → Type μ) (f g : A → B)
    → ((a : A) → P a → f a ≡ g a)
    → (xs : List A) → All P xs
    → map f xs ≡ map g xs
map_same P f g r [] h = refl
map_same P f g r (x ∷ xs) h = ground (arith, r x h.0, map_same P f g r xs h.1)

pub any_same {ℓ μ} :
    {A : Type ℓ} (P : A → Type μ) (p q : A → Bool)
    → ((a : A) → P a → p a ≡ q a)
    → (xs : List A) → All P xs
    → any p xs ≡ any q xs
unfolding any
any_same P p q t [] h = refl
any_same P p q t (x ∷ xs) h = ground (arith, t x h.0, any_same P p q t xs h.1)

module _ {ℓ} {A : Type ℓ} (p : A → Bool) where
  pub keep_all : (xs : List A) → any p xs ≡ false → keep (λ a. not (p a)) xs ≡ xs
  unfolding keep any
  keep_all [] h = refl
  keep_all (x ∷ xs) h = ground (arith, keep_all xs)

  -- Where one entry at most passes, deleting the first deletes all that pass.
  pub delete_first-eq-keep :
      (xs : List A)
      → any p (delete_first p xs) ≡ false
      → delete_first p xs ≡ keep (λ a. not (p a)) xs
  unfolding keep any delete_first
  delete_first-eq-keep [] h = refl
  delete_first-eq-keep (x ∷ xs) h = ground (arith, keep_all xs, delete_first-eq-keep xs)

  -- A search finds something exactly where some entry passes.
  pub find?-any-false : (xs : List A) → any p xs ≡ false → find? p xs ≡ none
  unfolding find? any
  find?-any-false [] h = refl
  find?-any-false (x ∷ xs) h = ground (arith, find?-any-false xs)

pub delete_first-map {ℓ κ} :
    {A : Type ℓ} {B : Type κ} (f : A → B) (p : B → Bool) (xs : List A)
    → delete_first p (map f xs) ≡ map f (delete_first (λ a. p (f a)) xs)
unfolding delete_first
delete_first-map f p [] = refl
delete_first-map f p (x ∷ xs) = ground (arith, delete_first-map f p xs)

pub map-append {ℓ κ} :
    {A : Type ℓ} {B : Type κ} (f : A → B) (xs ys : List A) → map f (xs ++ ys) ≡ map f xs ++ map f ys
map-append f [] ys = refl
map-append f (x ∷ xs) ys = ground (arith, map-append f xs ys)

module _ {ℓ} {A : Type ℓ} (p : A → Bool) where
  -- What is found is found as well with more behind it.
  pub find?-append : (xs ys : List A) {a : A} → find? p xs ≡ some a → find? p (xs ++ ys) ≡ some a
  unfolding find?
  find?-append [] ys h = absurd (ground (arith, h))
  find?-append (x ∷ xs) ys {a} h = ground (arith, find?-append xs ys {a = a})

  -- What is found is found as well among the entries that a filter keeps it with.
  pub find?-keep :
      (q : A → Bool) (xs : List A) {a : A}
      → find? p xs ≡ some a
      → q a ≡ true
      → find? p (keep q xs) ≡ some a
  unfolding find? keep
  find?-keep q [] h k = absurd (ground (arith, h))
  find?-keep q (x ∷ xs) {a} h k = ground (arith, find?-keep q xs {a = a})
