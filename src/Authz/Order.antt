-- ===== src/Authz/Order.antt =====
-- The role table in the order of the ranks.
use shpyrd.Common.{
  ℕ, ◌≤◌, ◌<◌, String, ◌≡◌, refl, sym, ◌∙◌, true, false, ◌||◌, inl, inr, leb, ltb, ◌==◌, eq_iff,
  arith, if◌then◌else◌, Bool-cases, ltb→lt,
}
use mathlib.Core.Bool.{false≢true}
use shpyrd.Authz.Table.{
  allows, rank, platform_rank, project_open, project_view, project_deploy, project_scale,
  project_config, project_exec, project_resource, project_members, project_destroy, role_user,
  role_viewer, role_developer, role_admin, role_platform_admin, role_platform_viewer,
}

-- The rank that an action on a project asks for; no rank reaches 5.
unfoldable pub required : String → ℕ
required a =
    if project_open == a
    then 1
    else if project_view == a
    then 2
    else if project_deploy == a || project_scale == a || project_config == a || project_exec == a
    then 3
    else if project_resource == a || project_members == a || project_destroy == a
    then 4
    else 5

data IsProjectRole (r : String) : Type 0 where
  user : r ≡ role_user → IsProjectRole r
  viewer : r ≡ role_viewer → IsProjectRole r
  developer : r ≡ role_developer → IsProjectRole r
  admin : r ≡ role_admin → IsProjectRole r

IsProjectRole-of_rank : (r : String) → 0 < rank r → IsProjectRole r
unfolding rank
IsProjectRole-of_rank r h = elim (Bool-cases (r == role_admin)) [
  | inl e ↦ admin ((eq_iff _ _).0 e)
  | inr a ↦ elim (Bool-cases (r == role_developer)) [
    | inl e ↦ developer ((eq_iff _ _).0 e)
    | inr b ↦ elim (Bool-cases (r == role_viewer)) [
      | inl e ↦ viewer ((eq_iff _ _).0 e)
      | inr c ↦ elim (Bool-cases (r == role_user)) [
        | inl e ↦ user ((eq_iff _ _).0 e)
        | inr d ↦ absurd (ground arith)
      ]
    ]
  ]
]

allows_at : (r a : String) → IsProjectRole r → allows r a ≡ leb (required a) (rank r)
unfolding allows rank required
allows_at r a (user e) = rw e (ground arith)
allows_at r a (viewer e) = rw e (ground arith)
allows_at r a (developer e) = rw e (ground arith)
allows_at r a (admin e) = rw e (ground arith)

-- A role with a rank allows exactly the actions that ask for no higher rank.
pub allows-eq-leb : (r a : String) → 0 < rank r → allows r a ≡ leb (required a) (rank r)
allows-eq-leb r a h = allows_at r a (IsProjectRole-of_rank r h)

-- Of two roles with a rank, the stronger one allows whatever the weaker one does.
pub allows_mono :
    (r s a : String) → 0 < rank r → rank r ≤ rank s → allows r a ≡ true → allows s a ≡ true
allows_mono r s a h k e = ground (arith, allows-eq-leb r a, allows-eq-leb s a)

-- Two roles with the same positive rank are the same role.
pub rank_injective : (r s : String) → 0 < rank r → rank r ≡ rank s → r ≡ s
unfolding rank
rank_injective r s h e = ground (
  arith,
  eq_iff r role_admin,
  eq_iff s role_admin,
  eq_iff r role_developer,
  eq_iff s role_developer,
  eq_iff r role_viewer,
  eq_iff s role_viewer,
  eq_iff r role_user,
  eq_iff s role_user,
)

-- The role that stands for no grant allows nothing.
pub allows_nothing : (a : String) → allows "" a ≡ false
unfolding allows
allows_nothing a = refl

-- A platform role has no rank on projects.
pub rank-platform : (r : String) → 0 < platform_rank r → rank r ≡ 0
unfolding rank platform_rank
rank-platform r h = elim (Bool-cases (r == role_platform_admin)) [
  | inl e ↦ rw ((eq_iff _ _).0 e) refl
  | inr a ↦ elim (Bool-cases (r == role_platform_viewer)) [
    | inl e ↦ rw ((eq_iff _ _).0 e) refl
    | inr b ↦ absurd (ground arith)
  ]
]

module _ (a : String) where
  -- What the rows of the table allow, the row of the platform administrators allows.
  below_admin :
      (r : String) → IsProjectRole r → allows r a ≡ true → allows role_platform_admin a ≡ true
  unfolding allows
  below_admin r (user e) h = let k = rw e at h in ground arith
  below_admin r (viewer e) h = let k = rw e at h in ground arith
  below_admin r (developer e) h = let k = rw e at h in ground arith
  below_admin r (admin e) h = let k = rw e at h in ground arith

  viewer_below_admin : allows role_platform_viewer a ≡ true → allows role_platform_admin a ≡ true
  unfolding allows
  viewer_below_admin h = ground arith

  -- A platform administrator may do whatever any role may, on any project.
  pub allows-platform_admin : (r : String) → allows r a ≡ true → allows role_platform_admin a ≡ true
  allows-platform_admin r h = elim (Bool-cases (ltb 0 (rank r))) [
    | inl e ↦ below_admin r (IsProjectRole-of_rank r (ltb→lt _ _ e)) h
    | inr e ↦ elim (Bool-cases (r == role_platform_viewer)) [
      | inl f ↦ viewer_below_admin (rw ((eq_iff _ _).0 f) at h)
      | inr f ↦ elim (Bool-cases (r == role_platform_admin)) [
        | inl g ↦ rw ((eq_iff _ _).0 g) at h
        | inr g ↦ absurd (false≢true (sym (no_other r e f g) ∙ h))
      ]
    ]
  ]
    where
      no_other :
          (x : String)
          → ltb 0 (rank x) ≡ false
          → (x == role_platform_viewer) ≡ false
          → (x == role_platform_admin) ≡ false
          → allows x a ≡ false
      no_other x e f g = unfold rank allows in ground arith
