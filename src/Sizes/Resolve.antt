-- ===== src/Sizes/Resolve.antt =====
-- What Resolve of pkg/sizes/sizes.go returns.
use shpyrd.Common.{
  String, ◌≡◌, refl, Bool, true, false, ◌&&◌, Option, none, some, List, [], ◌∷◌, arith, inl, inr,
  sym, ◌==◌, eq_iff, eq_comm, Option-cases, Bool-cases, if◌then◌else◌, any, find?, find?-none,
  find?-some-any, find?-passes, All-find?, IsUnique, lookup, insert, lookup-insert,
}
use shpyrd.Sizes.Quantities.{Quantities}
use shpyrd.Sizes.Catalog.{Size, Catalog, validate_size, get, dedicated}
use shpyrd.Sizes.Resources.{
  Requirements, resolved, unknown_size, resolve, with_override, resources, merge_limit,
  merge_limits, merge_requests, is_empty, of_size, cpu, memory,
}
use shpyrd.Sizes.Valid.{IsValid, IsValidSize, named}

-- The name that Resolve looks up
abbrev pub chosen : String → Catalog → String
chosen name c = if name == "" then c.default else name

abbrev pub same_key {ℓ} : {A : Type ℓ} → String × A → String × A → Bool
same_key a b = a.0 == b.0

abbrev or_else {ℓ} : {A : Type ℓ} → Option A → Option A → Option A
or_else none d = d
or_else (some x) d = some x

lookup-absent {ℓ} :
    {A : Type ℓ} (k : String) (xs : List (String × A))
    → any (λ e. k == e.0) xs ≡ false
    → lookup k xs ≡ none
unfolding any lookup
lookup-absent k [] h = refl
lookup-absent k ((j, v) ∷ xs) h = ground (arith, lookup-absent k xs, eq_comm j k)

module _ (q : Quantities) where
  resources-valid : (s : Size) → IsValidSize q s → (r : Requirements q) × (resources q s ≡ some r)
  unfolding resources validate_size
  resources-valid s h = elim (Option-cases (q.parse s.cpu)) [
    | inl e ↦ absurd (ground (arith, e))
    | inr (x, e) ↦ elim (Option-cases (q.parse s.memory)) [
      | inl f ↦ absurd (ground (arith, e, f))
      | inr (y, f) ↦ (of_size q s.kind x y, ground (arith, e, f))
    ]
  ]

  with_override-some :
      (s : Size) (override r : Requirements q)
      → (t : Requirements q) × (n : String) × (with_override q s override (some r) ≡ resolved t n)
  with_override-some s override r =
      elim (Bool-cases (is_empty q override.requests && is_empty q override.limits)) [
        | inl e ↦ (r, s.name, ground (arith, e))
        | inr e ↦ (
          merge_requests q override.requests (merge_limits q s.kind override.limits r),
          "",
          ground (arith, e),
        )
      ]

  -- In a valid catalog Resolve never panics: it returns resources for a name that is listed,
  -- which the default always is, and an error for any other.
  pub resolve-IsValid :
      (name : String) (override : Requirements q) (c : Catalog)
      → IsValid q c
      → (any (named (chosen name c)) c.sizes ≡ true
          → (r : Requirements q) × (n : String) × (resolve q name override c ≡ resolved r n))
        × (any (named (chosen name c)) c.sizes ≡ false → resolve q name override c ≡ unknown_size)
        × (name ≡ "" → any (named (chosen name c)) c.sizes ≡ true)
  unfolding resolve get
  resolve-IsValid name override c v = (
    λ h. elim (Option-cases (find? (named (chosen name c)) c.sizes)) [
      | inl e ↦ absurd (ground (arith, find?-none (named (chosen name c)) c.sizes e))
      | inr (s, e) ↦
          let (r, f) =
            resources-valid s
              (All-find? (IsValidSize q) (named (chosen name c)) c.sizes v.sizes e) in
          let (t, n, g) = with_override-some s override r in (t, n, rw (e, f) g)
    ],
    λ h. elim (Option-cases (find? (named (chosen name c)) c.sizes)) [
      | inl e ↦ rw e refl
      | inr (s, e) ↦ absurd (
          ground (
            arith,
            find?-some-any (named (chosen name c)) (named (chosen name c)) c.sizes e
                (find?-passes (named (chosen name c)) c.sizes e),
          ))
    ],
    λ h. rw h v.listed,
  )

  merge_requests-limits :
      (xs : List (String × q.Quantity)) (r : Requirements q)
      → (merge_requests q xs r).limits ≡ r.limits
  unfolding merge_requests
  merge_requests-limits [] r = refl
  merge_requests-limits ((k, v) ∷ rest) r =
      merge_requests-limits rest (record { requests = insert k v r.requests; limits = r.limits })

  merge_limits-limits :
      (kind j : String) (xs : List (String × q.Quantity)) (r : Requirements q)
      → IsUnique same_key xs
      → lookup j (merge_limits q kind xs r).limits ≡ or_else (lookup j xs) (lookup j r.limits)
  unfolding merge_limits lookup
  merge_limits-limits kind j [] r u = refl
  merge_limits-limits kind j ((k, v) ∷ rest) r u = ground (
    arith,
    merge_limits-limits kind j rest (merge_limit q kind k v r) u.1,
    lookup-insert k j v r.limits,
    lookup-absent k rest u.0,
    eq_iff k j,
  )

  merge_requests-requests :
      (j : String) (xs : List (String × q.Quantity)) (r : Requirements q)
      → IsUnique same_key xs
      → lookup j (merge_requests q xs r).requests ≡ or_else (lookup j xs) (lookup j r.requests)
  unfolding merge_requests lookup
  merge_requests-requests j [] r u = refl
  merge_requests-requests j ((k, v) ∷ rest) r u = ground (
    arith,
    merge_requests-requests j rest (record { requests = insert k v r.requests; limits = r.limits })
        u.1,
    lookup-insert k j v r.requests,
    lookup-absent k rest u.0,
    eq_iff k j,
  )

  -- Whatever Resolve returns has every explicit limit as a limit and every explicit request as a
  -- request, if the keys of the two lists are distinct.
  pub resolve-explicit :
      (name : String) (override r : Requirements q) (n : String) (c : Catalog)
      → IsUnique same_key override.limits
      → IsUnique same_key override.requests
      → resolve q name override c ≡ resolved r n
      → (j : String) (v : q.Quantity)
      → (lookup j override.limits ≡ some v → lookup j r.limits ≡ some v)
        × (lookup j override.requests ≡ some v → lookup j r.requests ≡ some v)
  unfolding resolve
  resolve-explicit name override r n c ul ur h j v = elim (Option-cases (get (chosen name c) c)) [
    | inl e ↦ absurd (ground (arith, e))
    | inr (s, e) ↦ elim (Option-cases (resources q s)) [
      | inl f ↦ absurd (ground (arith, e, f))
      | inr (base, f) ↦ overridden s base (ground (arith, e, f))
    ]
  ]
    where
      overridden :
          (s : Size) (base : Requirements q)
          → with_override q s override (some base) ≡ resolved r n
          → (lookup j override.limits ≡ some v → lookup j r.limits ≡ some v)
            × (lookup j override.requests ≡ some v → lookup j r.requests ≡ some v)
      overridden s base k = (
        λ p. ground (
          arith,
          not_empty override.limits p,
          merge_requests-limits override.requests (merge_limits q s.kind override.limits base),
          merge_limits-limits s.kind j override.limits base ul,
        ),
        λ p. ground (
          arith,
          not_empty override.requests p,
          merge_requests-requests j override.requests (merge_limits q s.kind override.limits base)
              ur,
        ),
      )
        where
          not_empty :
              (xs : List (String × q.Quantity)) → lookup j xs ≡ some v → is_empty q xs ≡ false
          not_empty [] p = absurd (unfold lookup in ground arith)
          not_empty (x ∷ xs) p = refl

  merge_limits-dedicated :
      (j : String) (xs : List (String × q.Quantity)) (r : Requirements q)
      → lookup j r.requests ≡ lookup j r.limits
      → lookup j (merge_limits q dedicated xs r).requests
        ≡ lookup j (merge_limits q dedicated xs r).limits
  unfolding merge_limits
  merge_limits-dedicated j [] r h = h
  merge_limits-dedicated j ((k, v) ∷ rest) r h =
      merge_limits-dedicated j rest (merge_limit q dedicated k v r)
        (rw (lookup-insert k j v r.requests, lookup-insert k j v r.limits, h) refl)

  either_way :
      (j : String) (x y : q.Quantity)
      → lookup j ((cpu, x) ∷ (memory, y) ∷ []) ≡ lookup j ((memory, y) ∷ (cpu, x) ∷ [])
  unfolding lookup
  either_way j x y = elim (Bool-cases (cpu == j)) [
    | inl e ↦ rw (sym ((eq_iff cpu j).0 e)) refl
    | inr e ↦ rw e refl
  ]

  resources-dedicated :
      (j : String) (s : Size) (base : Requirements q)
      → s.kind ≡ dedicated
      → resources q s ≡ some base
      → lookup j base.requests ≡ lookup j base.limits
  unfolding resources lookup
  resources-dedicated j s base d h = elim (Option-cases (q.parse s.cpu)) [
    | inl e ↦ absurd (ground (arith, e))
    | inr (x, e) ↦ elim (Option-cases (q.parse s.memory)) [
      | inl f ↦ absurd (ground (arith, e, f))
      | inr (y, f) ↦
          let base_is : base ≡ of_size q dedicated x y =
            ground (arith, e, f, d, eq_iff s.kind dedicated) in
          rw base_is (either_way j x y)
    ]
  ]

  -- On a dedicated size, with no explicit request, every resource that Resolve returns has its
  -- request equal to its limit, whatever limits are explicit.
  pub resolve-dedicated :
      (name : String) (override r : Requirements q) (n : String) (c : Catalog) (s : Size)
      → get (chosen name c) c ≡ some s
      → s.kind ≡ dedicated
      → override.requests ≡ []
      → resolve q name override c ≡ resolved r n
      → (j : String) → lookup j r.requests ≡ lookup j r.limits
  unfolding resolve
  resolve-dedicated name override r n c s e d z h j = elim (Option-cases (resources q s)) [
    | inl f ↦ absurd (ground (arith, e, f))
    | inr (base, f) ↦ overridden base (resources-dedicated j s base d f) (ground (arith, e, f))
  ]
    where
      overridden :
          (base : Requirements q)
          → lookup j base.requests ≡ lookup j base.limits
          → with_override q s override (some base) ≡ resolved r n
          → lookup j r.requests ≡ lookup j r.limits
      overridden base g k =
          unfold merge_requests in
          ground (arith, z, d, merge_limits-dedicated j override.limits base g)
