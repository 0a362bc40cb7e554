-- ===== src/Sizes/Changes.antt =====
-- Upsert and Remove of pkg/sizes/sizes.go on valid catalogs.
use shpyrd.Common.{
  String, ◌≡◌, refl, Bool, false, Option, none, some, List, [], ◌∷◌, arith, inl, inr, ap, ◌∙◌, ◌==◌,
  eq_iff, Option-cases, Bool-cases, any, find?, find?-none, find?-passes, All-snoc,
  All-update_first, All-delete_first, IsUnique, IsUnique-snoc, IsUnique-delete_first, any-append,
  any-delete_first_ne, update_first, delete_first,
}
use shpyrd.Sizes.Quantities.{Quantities}
use shpyrd.Sizes.Catalog.{Size, Catalog, validate_size, upsert, put_size, remove_size}
use shpyrd.Sizes.Valid.{IsValid, IsValidSize, same_name, named}

any-same_name :
    (a b : Size) (xs : List Size) → a.name ≡ b.name → any (same_name a) xs ≡ any (same_name b) xs
any-same_name a b xs h = ap (λ n. any (λ y. n == y.name) xs) h

-- A size put in the place of the one of its name changes no name.
any-replace :
    (p : String → Bool) (s : Size) (xs : List Size)
    → any (λ e. p e.name) (update_first (named s.name) (λ e. s) xs) ≡ any (λ e. p e.name) xs
unfolding any update_first
any-replace p s [] = refl
any-replace p s (x ∷ xs) = elim (Bool-cases (x.name == s.name)) [
  | inl e ↦ rw (e, (eq_iff x.name s.name).0 e) refl
  | inr e ↦ rw (e, any-replace p s xs) refl
]

IsUnique-replace :
    (s : Size) (xs : List Size)
    → IsUnique same_name xs
    → IsUnique same_name (update_first (named s.name) (λ e. s) xs)
unfolding update_first
IsUnique-replace s [] u = tt
IsUnique-replace s (x ∷ xs) u = ground (
  arith,
  any-same_name s x xs,
  any-replace (λ n. x.name == n) s xs,
  IsUnique-replace s xs u.1,
  eq_iff x.name s.name,
)

module _ (q : Quantities) where
  put_size-IsValid :
      (s : Size) (c : Catalog) (o : Option Size)
      → find? (named s.name) c.sizes ≡ o
      → IsValidSize q s
      → IsValid q c
      → IsValid q (put_size q s c o)
  put_size-IsValid s c none e k v = record {
    sizes = All-snoc (IsValidSize q) c.sizes s v.sizes k;
    names = IsUnique-snoc same_name c.sizes s (find?-none (named s.name) c.sizes e) v.names;
    has_default = v.has_default;
    listed = ground (arith, any-append (named c.default) c.sizes (s ∷ []), v.listed);
  }
  put_size-IsValid s c (some old) e k v = record {
    sizes = All-update_first (IsValidSize q) (named s.name) (λ e. s) (λ a p h. k) c.sizes v.sizes;
    names = IsUnique-replace s c.sizes v.names;
    has_default = v.has_default;
    listed = any-replace (λ n. n == c.default) s c.sizes ∙ v.listed;
  }

  deleted-IsValid :
      (name : String) (s : Size) (c : Catalog)
      → (name == c.default) ≡ false
      → find? (named name) c.sizes ≡ some s
      → IsValid q c
      → IsValid q (record c { sizes = delete_first (named name) c.sizes })
  deleted-IsValid name s c e f v = record {
    sizes = All-delete_first (IsValidSize q) (named name) c.sizes v.sizes;
    names = IsUnique-delete_first same_name (named name) c.sizes v.names;
    has_default = v.has_default;
    listed =
        any-delete_first_ne (named name) (named c.default) c.sizes f
          (ground (arith, e, find?-passes (named name) c.sizes f, eq_iff s.name name))
        ∙ v.listed;
  }

  -- Upsert, where it succeeds, keeps a valid catalog valid.
  pub upsert-IsValid : (s : Size) (c d : Catalog) → IsValid q c → upsert q s c ≡ inr d → IsValid q d
  unfolding upsert
  upsert-IsValid s c d v h = elim (Option-cases (validate_size q s)) [
    | inr (p, e) ↦ absurd (ground (arith, e))
    | inl e ↦
        let same : d ≡ put_size q s c (find? (named s.name) c.sizes) = ground (arith, e) in
        rw same (put_size-IsValid s c (find? (named s.name) c.sizes) refl e v)
  ]

  -- Remove, where it succeeds, keeps a valid catalog valid.
  pub remove_size-IsValid :
      (name : String) (c d : Catalog) → IsValid q c → remove_size name c ≡ inr d → IsValid q d
  unfolding remove_size
  remove_size-IsValid name c d v h = elim (Bool-cases (name == c.default)) [
    | inl e ↦ absurd (ground (arith, e))
    | inr e ↦ elim (Option-cases (find? (named name) c.sizes)) [
      | inl f ↦ absurd (ground (arith, e, f))
      | inr (s, f) ↦
          let same : d ≡ record c { sizes = delete_first (named name) c.sizes } =
            ground (arith, e, f) in
          rw same (deleted-IsValid name s c e f v)
    ]
  ]
