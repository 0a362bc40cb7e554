-- ===== src/Store/Valid/Grants.antt =====
-- The methods on grants and the invariant of the store.
use shpyrd.Common.{
  String, ◌≡◌, true, ◌&&◌, not, List, arith, ◌==◌, inl, inr, Bool-cases, any, All-snoc,
  All-delete_first, All-keep_map, IsUnique-snoc, IsUnique-delete_first, IsUnique-keep, find?,
  Option-cases,
}
use shpyrd.Store.Types.{Grant}
use shpyrd.Store.State.{Memory, Env, with_ws-after}
use shpyrd.Store.Teams.{is_team}
use shpyrd.Store.Grants.{
  same_grant, new_grant, add_grant, is_grant, delete_grant, on_project, delete_project_grants,
}
use shpyrd.Store.Valid.{GrantsValid, team_known, IsValid}

module _ (m : Memory) (v : IsValid m) where
  with_grants :
      (grants : List Grant) → GrantsValid m.teams grants → IsValid (record m { grants = grants })
  with_grants grants g = record {
    workspaces = v.workspaces;
    teams = v.teams;
    grants = g;
    people = v.people;
    claims = v.claims;
    tokens = v.tokens;
    sessions = v.sessions;
  }

  -- AddGrant keeps the store valid, whatever the grant.
  pub add_grant-IsValid : (env : Env) (ws : String) (g : Grant) → IsValid (add_grant env ws g m).1
  unfolding add_grant
  add_grant-IsValid env ws g = with_ws-after IsValid ws m _ v λ w _.
      elim (Bool-cases (not (g.team == "") && not (any (is_team w.id g.team) m.teams))) [
        | inl e ↦ rw e v
        | inr e ↦ elim (Bool-cases (any (λ x. same_grant x (new_grant env w.id g)) m.grants)) [
          | inl f ↦ rw (e, f) v
          | inr f ↦
              rw (e, f)
                (with_grants _ (record {
                  distinct = IsUnique-snoc same_grant m.grants _ f v.grants.distinct;
                  known =
                      All-snoc (λ (x : Grant). team_known m.teams x ≡ true) m.grants _
                        v.grants.known (ground arith);
                }))
        ]
      ]

  -- DeleteGrant keeps the store valid.
  pub delete_grant-IsValid : (ws id : String) → IsValid (delete_grant ws id m).1
  unfolding delete_grant
  delete_grant-IsValid ws id = with_ws-after IsValid ws m _ v λ w _.
      elim (Option-cases (find? (is_grant w.id id) m.grants)) [
        | inl e ↦ rw e v
        | inr (g, e) ↦ rw e (
            with_grants _ (record {
              distinct =
                  IsUnique-delete_first same_grant (is_grant w.id id) m.grants v.grants.distinct;
              known =
                  All-delete_first (λ (x : Grant). team_known m.teams x ≡ true) (is_grant w.id id)
                    m.grants v.grants.known;
            }))
      ]

  -- DeleteProjectGrants keeps the store valid.
  pub delete_project_grants-IsValid :
      (ws project : String) → IsValid (delete_project_grants ws project m).1
  unfolding delete_project_grants
  delete_project_grants-IsValid ws project = with_ws-after IsValid ws m _ v λ w _.
      with_grants _ (record {
        distinct =
            IsUnique-keep same_grant (λ g. not (on_project w.id project g)) m.grants
              v.grants.distinct;
        known =
            All-keep_map (λ (x : Grant). team_known m.teams x ≡ true)
              (λ (x : Grant). team_known m.teams x ≡ true) (λ g. not (on_project w.id project g))
              (λ _ _ h. h) m.grants v.grants.known;
      })
