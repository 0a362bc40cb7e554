-- ===== src/Authz/Can.antt =====
-- The decisions of Can over the roles that RolesFor resolves.
use shpyrd.Common.{
  String, ◌≡◌, refl, sym, ◌∙◌, true, false, not, List, [], ◌∷◌, ◌++◌, arith, Bool-cases, inl, inr,
  any, any-append, any-perm, All, lookup, to_lower,
}
use mathlib.Core.Bool.{false≢true}
use mathlib.Core.List.{Perm}
use shpyrd.Store.Types.{Team, Grant}
use shpyrd.Authz.Table.{allows}
use shpyrd.Authz.Roles.{can}
use shpyrd.Authz.Order.{allows-platform_admin, allows_nothing}
use shpyrd.Authz.Grants.{allows-project_roles}
use shpyrd.Authz.Teams.{allows-strongest_platform}
use shpyrd.Authz.Snapshot.{
  Snapshot, Identity, enforced, teams_of, matches, is_operator, is_suspended, roles_for, is_empty,
}
use shpyrd.Authz.Access.{IsPerson, by_grant, may, NamesDiffer, any-by_grant, any-collect, Absent}

All-Absent : (ts : List Team) → All (Absent []) ts
unfolding lookup
All-Absent [] = tt
All-Absent (t ∷ ts) = (refl, All-Absent ts)

module _ (s : Snapshot) (id : Identity) (distinct : NamesDiffer s.teams)
    (person : IsPerson s id) where
  -- For an identity that is no operator's credential and not suspended, in an enforced workspace
  -- whose teams have distinct names, Can over RolesFor allows an action exactly if a team that it belongs to has a platform role that allows it, or,
  -- on a project, a grant on it to the identity or to such a team has a ranked role that allows it.
  pub can-eq-may : (a p : String) → can (roles_for s id) a p ≡ may s id a p
  unfolding can roles_for may
  can-eq-may a p =
      let match = matches (to_lower id.email) (teams_of s id) in
      rw
        (
          person.no_operator,
          person.active,
          person.enforced,
          allows-strongest_platform a (teams_of s id),
          allows-project_roles match p a s.grants,
          any-by_grant s id a p s.grants,
        )
        (unfold teams_of any in
          rw (any-collect id a s.teams [] distinct (All-Absent s.teams)) (ground arith))

-- For an identity that is no operator's credential and not suspended, in an enforced workspace whose
-- teams have distinct names and which is enforced with the other order too, the order of the grants
-- makes no difference to any decision.
pub can_perm :
    (s : Snapshot) (gs : List Grant) (id : Identity)
    → NamesDiffer s.teams
    → IsPerson s id
    → enforced (record s { grants = gs }) ≡ true
    → Perm s.grants gs
    → (a p : String) → can (roles_for (record s { grants = gs }) id) a p ≡ can (roles_for s id) a p
can_perm s gs id d h e perm a p =
    can-eq-may (record s { grants = gs }) id d
      (record { no_operator = h.no_operator; active = h.active; enforced = e }) a p
    ∙ unfold may in
      rw (any-perm (by_grant s.teams id a p) perm) refl ∙ sym (can-eq-may s id d h a p)

stays_nonempty {ℓ} :
    {A : Type ℓ} (xs ys : List A) → not (is_empty xs) ≡ true → not (is_empty (xs ++ ys)) ≡ true
stays_nonempty [] ys h = ground arith
stays_nonempty (x ∷ xs) ys h = refl

abbrev pub with_grant : Snapshot → Grant → Snapshot
with_grant s g = record s { grants = s.grants ++ g ∷ [] }

enforced-with_grant :
    (s : Snapshot) (g : Grant) → enforced s ≡ true → enforced (with_grant s g) ≡ true
unfolding enforced
enforced-with_grant s g h = ground (arith, stays_nonempty s.grants (g ∷ []))

may-with_grant :
    (s : Snapshot) (g : Grant) (id : Identity) (a p : String)
    → may s id a p ≡ true
    → may (with_grant s g) id a p ≡ true
unfolding may
may-with_grant s g id a p h = ground (arith, any-append (by_grant s.teams id a p) s.grants (g ∷ []))

-- In an enforced workspace whose teams have distinct names, one more grant takes nothing away from
-- anybody.
pub can_grow :
    (s : Snapshot) (g : Grant) (id : Identity)
    → NamesDiffer s.teams
    → enforced s ≡ true
    → (a p : String) → can (roles_for s id) a p ≡ true
    → can (roles_for (with_grant s g) id) a p ≡ true
can_grow s g id d e a p h = elim (Bool-cases (is_operator id)) [
  | inl o ↦ operator o
  | inr o ↦ elim (Bool-cases (is_suspended s id)) [
    | inl x ↦ absurd (false≢true (sym (suspended o x) ∙ h))
    | inr x ↦
        let person : IsPerson s id = record { no_operator = o; active = x; enforced = e } in
        let person' : IsPerson (with_grant s g) id = record {
          no_operator = o;
          active = x;
          enforced = enforced-with_grant s g e;
        } in
        can-eq-may (with_grant s g) id d person' a p
        ∙ may-with_grant s g id a p (sym (can-eq-may s id d person a p) ∙ h)
  ]
]
  where
    operator : is_operator id ≡ true → can (roles_for (with_grant s g) id) a p ≡ true
    operator o = unfold can roles_for in rw o (unfold can roles_for in rw o at h)

    suspended : is_operator id ≡ false → is_suspended s id ≡ true → can (roles_for s id) a p ≡ false
    suspended o x = unfold can roles_for lookup in rw (o, x, allows_nothing a) (ground arith)

-- In a workspace that is not enforced, whoever is not suspended may do whatever any role may: one
-- who signs in to a fresh cluster is its administrator.
pub can_bootstrap :
    (s : Snapshot) (id : Identity)
    → enforced s ≡ false
    → is_suspended s id ≡ false
    → (r a p : String) → allows r a ≡ true
    → can (roles_for s id) a p ≡ true
unfolding can roles_for
can_bootstrap s id e x r a p h = elim (Bool-cases (is_operator id)) [
  | inl o ↦ rw (o, allows-platform_admin a r h)
  | inr o ↦ rw (o, x, e, allows-platform_admin a r h)
]

-- An explicit workspace with no team and no grant lets nobody in but an operator.
pub explicit_closed :
    (s : Snapshot) (id : Identity)
    → s.explicit ≡ true
    → s.teams ≡ []
    → s.grants ≡ []
    → is_operator id ≡ false
    → (a p : String) → can (roles_for s id) a p ≡ false
unfolding can roles_for enforced teams_of lookup
explicit_closed s id e t g o a p = elim (Bool-cases (is_suspended s id)) [
  | inl x ↦ rw (o, x, allows_nothing a) (ground arith)
  | inr x ↦ rw (o, x, e, t, g, allows_nothing a) (ground arith)
]

-- An operator's credential, the admin token or a login ticket, may do whatever any role may.
pub operator_can :
    (s : Snapshot) (id : Identity)
    → is_operator id ≡ true
    → (r a p : String) → allows r a ≡ true
    → can (roles_for s id) a p ≡ true
unfolding can roles_for
operator_can s id o r a p h = rw (o, allows-platform_admin a r h)
