-- ===== src/Store/Laws/Teams.antt =====
-- PutTeam, GetTeam and DeleteTeam.
use shpyrd.Common.{
  String, ◌≡◌, refl, eq_refl, eq_iff, Bool, true, false, not, some, arith, inl, inr, Bool-cases,
  Option-cases, any, keep, any-keep_refused, find?, find?-update_first, find?-snoc_new,
  IsUnique-find_only, lookup,
}
use shpyrd.Store.Types.{Workspace, Team}
use shpyrd.Store.State.{Memory, Env, ok, with_ws}
use shpyrd.Store.Teams.{is_team, get_team, put_team, new_team, rewritten, given_to, delete_team}
use shpyrd.Store.Valid.{IsValid, same_team}

module _ (ws : String) (m : Memory) (w : Workspace) (there : lookup ws m.workspaces ≡ some w) where
  -- After a PutTeam that succeeds, GetTeam under that name returns the team that PutTeam returned.
  pub get_team-put_team :
      (env : Env) (t u : Team) (created : Bool)
      → (put_team env ws t m).0 ≡ ok (u, created)
      → (get_team ws t.name (put_team env ws t m).1).0 ≡ ok u
  unfolding put_team get_team with_ws
  get_team-put_team env t u created h = elim (Option-cases (find? (is_team w.id t.name) m.teams)) [
    | inl e ↦
        rw
          (
            there,
            e,
            there,
            find?-snoc_new (is_team w.id t.name) m.teams (new_team env w.id t) e
                (ground (arith, eq_refl w.id, eq_refl t.name)),
          )
          (ground (arith, there, e))
    | inr (o, e) ↦ elim (Bool-cases o.everyone) [
      | inl b ↦ absurd (ground (arith, there, e, b))
      | inr b ↦
          rw
            (
              there,
              e,
              b,
              there,
              find?-update_first (is_team w.id t.name) (rewritten env t) (λ a. refl) m.teams e,
            )
            (ground (arith, there, e, b))
    ]
  ]

  -- After a DeleteTeam that succeeds on a valid store, the workspace has no team of that name, none
  -- of its grants has that name in the field of the team, and every other grant is still there, in
  -- its order. The field is empty in a grant to a user: these are the grants that go with a team
  -- whose name is empty.
  pub delete_team-revokes :
      (name : String)
      → IsValid m
      → (delete_team ws name m).0 ≡ ok tt
      → (any (is_team w.id name) (delete_team ws name m).1.teams ≡ false)
        × (any (given_to w.id name) (delete_team ws name m).1.grants ≡ false)
        × ((delete_team ws name m).1.grants ≡ keep (λ g. not (given_to w.id name g)) m.grants)
  unfolding delete_team with_ws
  delete_team-revokes name v h = elim (Option-cases (find? (is_team w.id name) m.teams)) [
    | inl e ↦ absurd (ground (arith, there, e))
    | inr (t, e) ↦ elim (Bool-cases t.everyone) [
      | inl b ↦ absurd (ground (arith, there, e, b))
      | inr b ↦
          rw (there, e, b)
            (
              IsUnique-find_only same_team (is_team w.id name) both m.teams v.teams.names e,
              any-keep_refused (λ g. not (given_to w.id name g)) (given_to w.id name)
                  (λ g k. ground arith) m.grants,
              refl,
            )
    ]
  ]
    where
      both :
          (a b : Team)
          → is_team w.id name a ≡ true
          → is_team w.id name b ≡ true
          → same_team a b ≡ true
      both a b p q = ground (
        arith,
        eq_iff a.workspace_id w.id,
        eq_iff b.workspace_id w.id,
        eq_iff a.name name,
        eq_iff b.name name,
        eq_iff a.workspace_id b.workspace_id,
        eq_iff a.name b.name,
      )
