-- ===== src/Authz/Teams.antt =====
-- The loop over the teams in RolesFor, pkg/authz/authz.go.
use shpyrd.Common.{
  ℕ, ◌≤◌, ◌<◌, max, String, ◌≡◌, refl, sym, ◌∙◌, ◌⊎◌, inl, inr, Bool, true, ◌&&◌, ◌||◌, List, [],
  ◌∷◌, ltb, ◌==◌, eq_iff, arith, Bool-cases, any,
}
use mathlib.Core.Bool.{false≢true}
use shpyrd.Store.Types.{Team}
use shpyrd.Authz.Table.{allows, platform_rank, role_platform_admin, role_platform_viewer}
use shpyrd.Authz.Order.{allows-platform_admin, allows_nothing}
use shpyrd.Authz.Snapshot.{strongest_platform}

best_platform : List (String × Team) → ℕ
best_platform [] = 0
best_platform ((n, t) ∷ ts) = max (platform_rank t.platform_role) (best_platform ts)

platform_rank-strongest :
    (ts : List (String × Team)) (role : String)
    → platform_rank (strongest_platform ts role) ≡ max (platform_rank role) (best_platform ts)
unfolding best_platform
platform_rank-strongest [] role = omega arith
platform_rank-strongest ((n, t) ∷ ts) role =
    elim (Bool-cases (ltb (platform_rank role) (platform_rank t.platform_role))) [
      | inl e ↦ rw e (ground (arith, platform_rank-strongest ts t.platform_role))
      | inr e ↦ rw e (ground (arith, platform_rank-strongest ts role))
    ]

-- Of two platform roles, the stronger one allows whatever the weaker one does.
platform_mono :
    (r s a : String)
    → 0 < platform_rank r
    → platform_rank r ≤ platform_rank s
    → allows r a ≡ true
    → allows s a ≡ true
unfolding platform_rank
platform_mono r s a h k e = elim (Bool-cases (s == role_platform_admin)) [
  | inl f ↦ rw ((eq_iff _ _).0 f) (allows-platform_admin a r e)
  | inr f ↦ elim (Bool-cases (r == role_platform_admin)) [
    | inl g ↦ absurd (ground arith)
    | inr g ↦ rw (same s (ground arith)) (rw (same r (ground arith)) at e)
  ]
]
  where
    same : (x : String) → (x == role_platform_viewer) ≡ true → x ≡ role_platform_viewer
    same x q = (eq_iff _ _).0 q

-- A team whose platform role allows the action.
unfoldable pub team_allows : String → String × Team → Bool
team_allows a e = ltb 0 (platform_rank e.1.platform_role) && allows e.1.platform_role a

-- A role that no loop has replaced is empty; any other has a rank.
abbrev Held : String → Type 0
Held role = (role ≡ "") ⊎ (0 < platform_rank role)

weaker :
    (role s a : String)
    → Held role
    → platform_rank role ≤ platform_rank s
    → allows role a ≡ true
    → allows s a ≡ true
weaker role s a (inl e) k h = absurd (false≢true (sym (allows_nothing a) ∙ rw e at h))
weaker role s a (inr p) k h = platform_mono role s a p k h

strongest_allows :
    (a : String) (ts : List (String × Team)) (role : String)
    → Held role
    → allows (strongest_platform ts role) a ≡ (allows role a || any (team_allows a) ts)
unfolding any team_allows
strongest_allows a [] role h = ground arith
strongest_allows a ((n, t) ∷ ts) role h =
    elim (Bool-cases (ltb (platform_rank role) (platform_rank t.platform_role))) [
      | inl e ↦ rw e (
          strongest_allows a ts t.platform_role (inr (ground arith))
          ∙ ground (arith, weaker role t.platform_role a h))
      | inr e ↦
          rw e (strongest_allows a ts role h ∙ ground (arith, platform_mono t.platform_role role a))
    ]

-- What the platform role of RolesFor allows is what some team's platform role allows.
pub allows-strongest_platform :
    (a : String) (ts : List (String × Team))
    → allows (strongest_platform ts "") a ≡ any (team_allows a) ts
allows-strongest_platform a ts = strongest_allows a ts "" (inl refl) ∙ rw (allows_nothing a)
