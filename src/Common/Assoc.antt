-- ===== src/Common/Assoc.antt =====
-- A Go `map[string]V` as an association list. Iteration goes in list order; Go leaves it open.
use mathlib.Core.Bool.{Bool, true, false, not}
use mathlib.Core.List.{List, [], ◌∷◌}
use mathlib.Core.Option.{Option, none, some}
use mathlib.Core.Path.{◌≡◌, refl, sym}
use native.Mathlib.Omega.{arith}
use Prim.Native.Nat.{◌+◌, ◌≤◌}
use Prim.Native.String.{String}
use text.Mathlib.Text.{◌==◌}
use text.Mathlib.TextEquality.{eq_iff}
use shpyrd.Common.First.{update_first}
use shpyrd.Common.Lists.{any, keep, All, length}
use shpyrd.Common.Tests.{if◌then◌else◌}

module _ {ℓ} {V : Type ℓ} where
  -- delete(m, k)
  unfoldable pub remove : String → List (String × V) → List (String × V)
  remove k = keep (λ e. not (e.0 == k))

  -- v, ok := m[key]
  unfoldable pub lookup : String → List (String × V) → Option V
  lookup key [] = none
  lookup key (entry ∷ rest) =
      let later = lookup key rest in if entry.0 == key then some entry.1 else later

  -- m[key] = value
  unfoldable pub insert : String → V → List (String × V) → List (String × V)
  insert key value [] = (key, value) ∷ []
  insert key value (entry ∷ rest) =
      let later = insert key value rest in
      if entry.0 == key then (key, value) ∷ rest else entry ∷ later

  -- A key that was set reads as its new value, and every other key as before.
  pub lookup-insert :
      (key other : String) (value : V) (m : List (String × V))
      → lookup other (insert key value m) ≡ (if key == other then some value else lookup other m)
  unfolding lookup insert
  lookup-insert key other value [] = ground arith
  lookup-insert key other value ((name, old) ∷ rest) = ground (
    arith,
    lookup-insert key other value rest,
    eq_iff name key,
    eq_iff name other,
    eq_iff key other,
  )

  pub lookup-remove :
      (k j : String) (m : List (String × V))
      → lookup j (remove k m) ≡ (if k == j then none else lookup j m)
  unfolding lookup remove keep
  lookup-remove k j [] = ground arith
  lookup-remove k j ((i, w) ∷ m) =
      ground (arith, eq_iff k j, eq_iff i k, eq_iff i j, lookup-remove k j m)

  -- A missing key is no key of the list.
  pub lookup-none :
      (k : String) (m : List (String × V)) → lookup k m ≡ none → any (λ e. e.0 == k) m ≡ false
  unfolding lookup any
  lookup-none k [] h = refl
  lookup-none k ((j, w) ∷ m) h = ground (arith, lookup-none k m)

  -- What is found is a value of the list.
  pub lookup-some-any :
      (k : String) (q : V → Bool) (m : List (String × V)) {v : V}
      → lookup k m ≡ some v
      → q v ≡ true
      → any (λ e. q e.1) m ≡ true
  unfolding lookup any
  lookup-some-any k q [] h p = ground arith
  lookup-some-any k q ((j, w) ∷ m) {v} h p = ground (arith, lookup-some-any k q m {v = v})

  -- A write through the pointer under a key.
  pub lookup-update_first :
      (k : String) (f : V → V) (m : List (String × V)) {v : V}
      → lookup k m ≡ some v
      → lookup k (update_first (λ e. e.0 == k) (λ e. (e.0, f e.1)) m) ≡ some (f v)
  unfolding lookup update_first
  lookup-update_first k f [] h = ground arith
  lookup-update_first k f ((j, w) ∷ m) {v} h = ground (arith, lookup-update_first k f m {v = v})

module _ {ℓ κ} {V : Type ℓ} (P : String × V → Type κ) where
  pub All-insert :
      (k : String) (v : V) (m : List (String × V)) → P (k, v) → All P m → All P (insert k v m)
  unfolding insert
  All-insert k v [] p h = (p, tt)
  All-insert k v ((j, w) ∷ m) p h = ground (arith, All-insert k v m p h.1)

  pub All-keep : (p : String × V → Bool) (m : List (String × V)) → All P m → All P (keep p m)
  unfolding keep
  All-keep p [] h = tt
  All-keep p (e ∷ m) h = ground (arith, All-keep p m h.1)

  pub All-lookup :
      (k : String) (m : List (String × V)) {v : V}
      → All P m
      → lookup k m ≡ some v
      → (j : String) × (j ≡ k) × P (j, v)
  unfolding lookup
  All-lookup k [] h e = absurd (ground arith)
  All-lookup k ((j, w) ∷ m) {v} h e = ground (arith, eq_iff j k, All-lookup k m {v = v} h.1)

  pub All-lookup_at :
      (k : String) (m : List (String × V)) {v : V} → All P m → lookup k m ≡ some v → P (k, v)
  All-lookup_at k m {v} h e = let (j, same, p) = All-lookup k m h e in rw (sym same) p

-- Setting a key adds one entry at most.
pub length-insert {ℓ} :
    {V : Type ℓ} (k : String) (v : V) (m : List (String × V)) → length (insert k v m) ≤ length m + 1
unfolding insert
length-insert k v [] = omega arith
length-insert k v (e ∷ m) = ground (arith, length-insert k v m)
