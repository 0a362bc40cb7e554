-- ===== src/Authz/Grants.antt =====
-- The loop over the grants in RolesFor, pkg/authz/authz.go.
use shpyrd.Common.{
  ℕ, ◌<◌, max, String, ◌≡◌, refl, sym, ◌∙◌, ◌⊎◌, Bool, false, ◌&&◌, List, [], ◌∷◌, leb, ltb, ◌==◌,
  eq_iff, arith, if◌then◌else◌, Bool-cases, any, lookup, insert, lookup-insert, inl, inr,
}
use shpyrd.Store.Types.{Grant}
use shpyrd.Authz.Table.{allows, rank}
use shpyrd.Authz.Roles.{role_at}
use shpyrd.Authz.Order.{required, allows-eq-leb, allows_nothing}
use shpyrd.Authz.Snapshot.{project_roles}

-- The best rank that the matching grants give on a project: a specification with no map.
pub best_rank : (Grant → Bool) → String → List Grant → ℕ
best_rank match project [] = 0
best_rank match project (g ∷ gs) =
    let rest = best_rank match project gs in
    if match g && g.project == project then max (rank g.role) rest else rest

role_at-insert :
    (p q r : String) (m : List (String × String))
    → role_at (insert p r m) q ≡ (if p == q then r else role_at m q)
role_at-insert p q r m =
    rw (lookup-insert p q r m)
      (elim (Bool-cases (p == q)) [ inl e ↦ rw e refl | inr e ↦ rw e refl ])

module _ (match : Grant → Bool) (p : String) where
  rank-project_roles :
      (gs : List Grant) (out : List (String × String))
      → rank (role_at (project_roles match gs out) p)
        ≡ max (rank (role_at out p)) (best_rank match p gs)
  unfolding best_rank
  rank-project_roles [] out = omega arith
  rank-project_roles (g ∷ gs) out =
      elim (Bool-cases (match g && ltb (rank (role_at out g.project)) (rank g.role))) [
        | inl e ↦ rw e (
            ground (
              arith,
              rank-project_roles gs (insert g.project g.role out),
              role_at-insert g.project p g.role out,
              eq_iff g.project p,
            ))
        | inr e ↦ rw e (ground (arith, rank-project_roles gs out, eq_iff g.project p))
      ]

  -- After the loop, a project's role has the best rank among the matching grants on it.
  pub rank-project_roles_best :
      (gs : List Grant) → rank (role_at (project_roles match gs []) p) ≡ best_rank match p gs
  unfolding rank lookup
  rank-project_roles_best gs = omega (arith, rank-project_roles gs [])

  -- An action that asks for a rank is allowed by the best rank exactly if some matching grant on
  -- the project has a role with a rank that allows it.
  unfoldable pub some_allows : String → Grant → Bool
  some_allows a g = match g && g.project == p && ltb 0 (rank g.role) && allows g.role a

  required_pos : (a : String) → 0 < required a
  unfolding required
  required_pos a = ground arith

  best-eq-any :
      (a : String) (gs : List Grant)
      → leb (required a) (best_rank match p gs) ≡ any (some_allows a) gs
  unfolding best_rank any some_allows
  best-eq-any a [] = ground (arith, required_pos a)
  best-eq-any a (g ∷ gs) = ground (arith, best-eq-any a gs, allows-eq-leb g.role a, required_pos a)

-- Each entry of the map is missing or has a rank.
abbrev Ranked : List (String × String) → Type 0
Ranked out = (q : String) → (role_at out q ≡ "") ⊎ (0 < rank (role_at out q))

project_roles-Ranked :
    (match : Grant → Bool) (gs : List Grant) (out : List (String × String))
    → Ranked out
    → Ranked (project_roles match gs out)
project_roles-Ranked match [] out h = h
project_roles-Ranked match (g ∷ gs) out h =
    elim (Bool-cases (match g && ltb (rank (role_at out g.project)) (rank g.role))) [
      | inr e ↦ rw e (project_roles-Ranked match gs out h)
      | inl e ↦ rw e (
          project_roles-Ranked match gs (insert g.project g.role out) (λ q.
            elim (Bool-cases (g.project == q)) [
              | inl f ↦ inr (rw (role_at-insert g.project q g.role out, f) (ground arith))
              | inr f ↦ rw (role_at-insert g.project q g.role out, f) (h q)
            ]))
    ]

module _ (match : Grant → Bool) (p a : String) where
  -- What the role of the loop allows is what some matching grant's role allows.
  pub allows-project_roles :
      (gs : List Grant)
      → allows (role_at (project_roles match gs []) p) a ≡ any (some_allows match p a) gs
  allows-project_roles gs =
      let r = role_at (project_roles match gs []) p in
      let best = rank-project_roles_best match p gs in
      let found = best-eq-any match p a gs in
      elim (project_roles-Ranked match gs [] (λ q. unfold lookup in inl refl) p) [
        | inr h ↦ allows-eq-leb r a h ∙ rw best found
        | inl e ↦
            rw (e, allows_nothing a)
              (sym (nothing_allowed gs (sym best ∙ rw e (unfold rank in refl))))
      ]
    where
      nothing_allowed :
          (xs : List Grant) → best_rank match p xs ≡ 0 → any (some_allows match p a) xs ≡ false
      nothing_allowed xs z =
          sym (best-eq-any match p a xs) ∙ rw z (ground (arith, required_pos match p a))

  -- The order of the grants, and a grant that stands twice, make no difference.
  pub allows_same :
      (gs hs : List Grant)
      → any (some_allows match p a) gs ≡ any (some_allows match p a) hs
      → allows (role_at (project_roles match gs []) p) a
        ≡ allows (role_at (project_roles match hs []) p) a
  allows_same gs hs e = allows-project_roles gs ∙ e ∙ sym (allows-project_roles hs)
