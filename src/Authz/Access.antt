-- ===== src/Authz/Access.antt =====
-- Who may do what: RolesFor and Can together, against a description by the teams and the grants.
use shpyrd.Common.{
  String, ◌≡◌, refl, ◌∙◌, Bool, true, false, not, ◌&&◌, ◌||◌, none, List, [], ◌∷◌, ltb, ◌==◌, arith,
  Bool-cases, inl, inr, any, All, IsUnique, lookup, insert, lookup-insert, to_lower, equal_fold,
}
use shpyrd.Store.Types.{Team, Grant}
use shpyrd.Authz.Table.{allows, rank, platform_rank}
use shpyrd.Authz.Grants.{some_allows}
use shpyrd.Authz.Teams.{team_allows}
use shpyrd.Authz.Snapshot.{
  Snapshot, Identity, enforced, belongs, collect, teams_of, is_some, matches, is_operator,
  is_suspended,
}

-- An identity of an enforced workspace that is no operator's credential and is not suspended.
pub record IsPerson (s : Snapshot) (id : Identity) : Type 0 where
  pub no_operator : is_operator id ≡ false
  pub active : is_suspended s id ≡ false
  pub enforced : enforced s ≡ true

-- The identity belongs to a team of this name.
unfoldable pub in_team : List Team → Identity → String → Bool
in_team ts id name = any (λ t. belongs id t && t.name == name) ts

-- The grant is given to the identity: to its email, or to a team that it belongs to.
unfoldable pub given : List Team → Identity → Grant → Bool
given ts id g =
    let email = to_lower id.email in
    (not (g.user == "") && not (email == "") && equal_fold g.user email)
    || (not (g.team == "") && in_team ts id g.team)

-- The team is the identity's and its platform role allows the action.
unfoldable pub by_team : Identity → String → Team → Bool
by_team id a t = belongs id t && ltb 0 (platform_rank t.platform_role) && allows t.platform_role a

-- The grant is the identity's, on the project, and its role allows the action.
unfoldable pub by_grant : List Team → Identity → String → String → Grant → Bool
by_grant ts id a p g = given ts id g && g.project == p && ltb 0 (rank g.role) && allows g.role a

-- Whether the teams and the grants of a snapshot let the identity do the action.
unfoldable pub may : Snapshot → Identity → String → String → Bool
may s id a p =
    any (by_team id a) s.teams || (not (p == "") && any (by_grant s.teams id a p) s.grants)

is_some-insert :
    (k j : String) (t : Team) (m : List (String × Team))
    → is_some (lookup j (insert k t m)) ≡ (k == j || is_some (lookup j m))
is_some-insert k j t m = rw lookup-insert (ground arith)

in_team-collect :
    (id : Identity) (name : String) (ts : List Team) (out : List (String × Team))
    → is_some (lookup name (collect id ts out))
      ≡ (is_some (lookup name out) || any (λ t. belongs id t && t.name == name) ts)
unfolding any
in_team-collect id name [] out = ground arith
in_team-collect id name (t ∷ ts) out = elim (Bool-cases (belongs id t)) [
  | inl e ↦ rw e (
      in_team-collect id name ts (insert t.name t out)
      ∙ ground (arith, is_some-insert t.name name t out))
  | inr e ↦ rw e (in_team-collect id name ts out)
]

module _ (s : Snapshot) (id : Identity) where
  matches-eq-given :
      (g : Grant) → matches (to_lower id.email) (teams_of s id) g ≡ given s.teams id g
  unfolding matches teams_of given in_team lookup
  matches-eq-given g = rw (in_team-collect id g.team s.teams []) refl

  pub any-by_grant :
      (a p : String) (gs : List Grant)
      → any (some_allows (matches (to_lower id.email) (teams_of s id)) p a) gs
        ≡ any (by_grant s.teams id a p) gs
  unfolding any some_allows by_grant
  any-by_grant a p [] = refl
  any-by_grant a p (g ∷ gs) = rw (matches-eq-given g, any-by_grant a p gs)

-- Teams of one name do not stand side by side.
abbrev pub NamesDiffer : List Team → Type 0
NamesDiffer = IsUnique (λ a b. a.name == b.name)

any-insert_new :
    (q : String × Team → Bool) (k : String) (t : Team) (m : List (String × Team))
    → lookup k m ≡ none
    → any q (insert k t m) ≡ (any q m || q (k, t))
unfolding any lookup insert
any-insert_new q k t [] h = ground arith
any-insert_new q k t ((j, u) ∷ m) h = ground (arith, any-insert_new q k t m)

abbrev pub Absent : List (String × Team) → Team → Type 0
Absent out t = lookup t.name out ≡ none

Absent-after :
    (t : Team) (ts : List Team) (out : List (String × Team))
    → any (λ u. t.name == u.name) ts ≡ false
    → All (Absent out) ts
    → All (Absent (insert t.name t out)) ts
unfolding any
Absent-after t [] out h k = tt
Absent-after t (u ∷ us) out h k =
    (rw lookup-insert (ground (arith, k.0)), Absent-after t us out (ground arith) k.1)

pub any-collect :
    (id : Identity) (a : String) (ts : List Team) (out : List (String × Team))
    → NamesDiffer ts
    → All (Absent out) ts
    → any (team_allows a) (collect id ts out) ≡ (any (team_allows a) out || any (by_team id a) ts)
unfolding any by_team team_allows
any-collect id a [] out u d = ground arith
any-collect id a (t ∷ ts) out u d = elim (Bool-cases (belongs id t)) [
  | inl e ↦ rw e (
      any-collect id a ts (insert t.name t out) u.1 (Absent-after t ts out u.0 d.1)
      ∙ ground (arith, any-insert_new (team_allows a) t.name t out d.0))
  | inr e ↦ rw e (any-collect id a ts out u.1 d.1)
]
