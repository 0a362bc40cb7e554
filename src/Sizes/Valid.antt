-- ===== src/Sizes/Valid.antt =====
-- Catalog.Validate of pkg/sizes/sizes.go against a description of a well-formed catalog.
use shpyrd.Common.{
  String, ◌≡◌, refl, Bool, true, false, ◌||◌, none, List, [], ◌∷◌, ◌⊎◌, ◌↔◌, arith, inl, inr, ◌==◌,
  any, All, IsUnique,
}
use shpyrd.Sizes.Quantities.{Quantities}
use shpyrd.Sizes.Catalog.{
  Size, Catalog, Problem, validate_size, validate_sizes, validate_catalog, validate,
}

abbrev pub same_name : Size → Size → Bool
same_name a b = a.name == b.name

abbrev pub named : String → Size → Bool
named name s = s.name == name

abbrev is_seen : List String → Size → Bool
is_seen seen s = any (λ n. n == s.name) seen

-- The names that the loop of Validate has seen at its end
abbrev all_seen : List String → List Size → List String
all_seen seen [] = seen
all_seen seen (s ∷ rest) = all_seen (s.name ∷ seen) rest

any-all_seen :
    (d : String) (seen : List String) (xs : List Size)
    → any (λ n. n == d) (all_seen seen xs) ≡ (any (λ n. n == d) seen || any (named d) xs)
unfolding any
any-all_seen d seen [] = ground arith
any-all_seen d seen (s ∷ rest) = ground (arith, any-all_seen d (s.name ∷ seen) rest)

clash-cons :
    (s : Size) (seen : List String) (xs : List Size)
    → any (is_seen (s.name ∷ seen)) xs ≡ (any (same_name s) xs || any (is_seen seen) xs)
unfolding any
clash-cons s seen [] = refl
clash-cons s seen (x ∷ xs) = ground (arith, clash-cons s seen xs)

clash-none : (xs : List Size) → any (is_seen []) xs ≡ false
unfolding any
clash-none [] = refl
clash-none (x ∷ xs) = ground (arith, clash-none xs)

module _ (q : Quantities) where
  abbrev pub IsValidSize : Size → Type 0
  IsValidSize s = validate_size q s ≡ none

  pub record IsValid (c : Catalog) : Type 0 where
    pub sizes : All IsValidSize c.sizes
    pub names : IsUnique same_name c.sizes
    pub has_default : (c.default == "") ≡ false
    pub listed : any (named c.default) c.sizes ≡ true

  validate_sizes_sound :
      (seen : List String) (xs : List Size) (out : List String)
      → validate_sizes q seen xs ≡ inr out
      → All IsValidSize xs
        × IsUnique same_name xs
        × (any (is_seen seen) xs ≡ false)
        × (out ≡ all_seen seen xs)
  unfolding validate_sizes any
  validate_sizes_sound seen [] out h = ground arith
  validate_sizes_sound seen (s ∷ rest) out h =
      ground (arith, validate_sizes_sound (s.name ∷ seen) rest out, clash-cons s seen rest)

  validate_sizes_complete :
      (seen : List String) (xs : List Size)
      → All IsValidSize xs
      → IsUnique same_name xs
      → any (is_seen seen) xs ≡ false
      → validate_sizes q seen xs ≡ inr (all_seen seen xs)
  unfolding validate_sizes any
  validate_sizes_complete seen [] a u c = refl
  validate_sizes_complete seen (s ∷ rest) a u c =
      ground (arith, validate_sizes_complete (s.name ∷ seen) rest a.1 u.1, clash-cons s seen rest)

  validate_sizes-cases :
      (r : Problem ⊎ List String)
      → ((p : Problem) × (r ≡ inl p)) ⊎ ((out : List String) × (r ≡ inr out))
  validate_sizes-cases (inl p) = inl (p, refl)
  validate_sizes-cases (inr out) = inr (out, refl)

  validate_catalog-sound :
      (d : String) (s : Size) (rest : List Size)
      → validate_catalog q d (s ∷ rest) ≡ none
      → IsValid (record { default = d; sizes = s ∷ rest })
  validate_catalog-sound d s rest h = elim (validate_sizes-cases (validate_sizes q [] (s ∷ rest))) [
    | inl (p, e) ↦ absurd (ground (arith, e))
    | inr (out, e) ↦
        let (a, u, c, o) = validate_sizes_sound [] (s ∷ rest) out e in
        record {
          sizes = a;
          names = u;
          has_default = ground (arith, e);
          listed = ground (arith, e, o, any-all_seen d [] (s ∷ rest), any-none d);
        }
  ]
    where
      any-none : (d : String) → any (λ n. n == d) [] ≡ false
      any-none d = unfold any in refl

  validate_sound :
      (d : String) (xs : List Size)
      → validate q (record { default = d; sizes = xs }) ≡ none
      → IsValid (record { default = d; sizes = xs })
  unfolding validate
  validate_sound d [] h = absurd (ground arith)
  validate_sound d (s ∷ rest) h = validate_catalog-sound d s rest h

  validate_complete :
      (d : String) (xs : List Size)
      → IsValid (record { default = d; sizes = xs })
      → validate q (record { default = d; sizes = xs }) ≡ none
  unfolding validate any
  validate_complete d [] v = absurd (ground (arith, v.listed))
  validate_complete d (s ∷ rest) v = ground (
    arith,
    validate_sizes_complete [] (s ∷ rest) v.sizes v.names (clash-none (s ∷ rest)),
    v.has_default,
    v.listed,
    any-all_seen d [] (s ∷ rest),
  )

  -- Validate accepts exactly the catalogs whose sizes are valid one by one, whose names are
  -- distinct, and whose default is set and is one of the names.
  pub validate-IsValid : (c : Catalog) → (validate q c ≡ none) ↔ IsValid c
  validate-IsValid c = (validate_sound c.default c.sizes, validate_complete c.default c.sizes)
