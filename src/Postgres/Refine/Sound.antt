-- ===== src/Postgres/Refine/Sound.antt =====
-- The rows of teams and grants after each method of pkg/store/postgres.go that writes them: IsSound is
-- kept.
use shpyrd.Common.{
  String, ◌≡◌, refl, sym, ap, ◌∙◌, Bool, false, Option, none, some, List, [], ◌∷◌, ◌++◌, arith, inl,
  inr, ◌==◌, any, keep, find?, find?-none, Bool-cases, Option-cases, All-map, All-snoc,
  All-update_first, All-keep_map, IsUnique-snoc, IsUnique-keep, IsUnique-update_first, update_first,
  any-append, any-update_first, find?-append, All, Bool, eq_refl, find?-some-any,
}
use shpyrd.Store.Types.{Workspace, Team, team_everyone}
use shpyrd.Store.State.{Env}
use shpyrd.Postgres.Tables.{TeamRow, GrantRow, Database, Answer, with_id, is_row, has_row_id}
use shpyrd.Postgres.Teams.{put_team, inserted, updated}
use shpyrd.Postgres.Grants.{delete_grant, delete_project_grants, has_grant_id, same_row}
use shpyrd.Postgres.Refine.{HasWorkspace, RefersTo, HasSubject, IsSound}

pub All-keep {ℓ κ} :
    {A : Type ℓ} (P : A → Type κ) (p : A → Bool) (xs : List A) → All P xs → All P (keep p xs)
All-keep P p xs = All-keep_map P P p (λ a k h. h) xs

pub HasWorkspace-found :
    (slug : String) (ws : List Workspace) {w : Workspace}
    → find? (λ w. w.slug == slug) ws ≡ some w
    → HasWorkspace ws w.id
HasWorkspace-found slug ws {w} e =
    find?-some-any (λ w. w.slug == slug) (λ v. v.id == w.id) ws e (eq_refl w.id)

-- A method keeps IsSound where its body does in the workspace found.
pub with_id-IsSound {ℓ} :
    {A : Type ℓ} (slug : String) (db : Database) (p : String → Answer A × Database)
    → IsSound db
    → ((w : Workspace) → find? (λ w. w.slug == slug) db.workspaces ≡ some w → IsSound (p w.id).1)
    → IsSound (with_id slug db p).1
unfolding with_id
with_id-IsSound slug db p s h = elim (Option-cases (find? (λ w. w.slug == slug) db.workspaces)) [
  | inl e ↦ rw e s
  | inr (w, e) ↦ rw e (h w e)
]

-- A grant that refers to a team still does where the team is found with its workspace and name.
pub RefersTo-map :
    (teams left : List TeamRow) (wid user : String) (r : Option String)
    → ((i : String) (t : TeamRow)
        → r ≡ some i
        → find? (has_row_id i) teams ≡ some t
        → (u : TeamRow) × (find? (has_row_id i) left ≡ some u)
          × (u.workspace_id ≡ t.workspace_id)
          × (u.name ≡ t.name))
    → RefersTo teams wid user r
    → RefersTo left wid user r
RefersTo-map teams left wid user none f h = h
RefersTo-map teams left wid user (some i) f h =
    let s = f i h.1.0 refl h.1.1 in (h.0, (s.0, s.1, s.2 ∙ h.1.2, ap (λ n. n == "") s.3 ∙ h.1.3))

module _ (ws : String) (db : Database) (sound : IsSound db) where
  -- Fewer grants keep IsSound.
  fewer-IsSound : (p : GrantRow → Bool) → IsSound (record db { grants = keep p db.grants })
  fewer-IsSound p = record {
    workspace_ids = sound.workspace_ids;
    workspace_slugs = sound.workspace_slugs;
    workspace_addresses = sound.workspace_addresses;
    team_workspaces = sound.team_workspaces;
    grant_workspaces = All-keep _ p db.grants sound.grant_workspaces;
    grant_rows = IsUnique-keep same_row p db.grants sound.grant_rows;
    team_ids = sound.team_ids;
    team_names = sound.team_names;
    built_in = sound.built_in;
    kinds = sound.kinds;
    grant_ids = IsUnique-keep (λ a b. a.id == b.id) p db.grants sound.grant_ids;
    subjects =
        All-keep_map (HasSubject db.teams) (HasSubject db.teams) p (λ g k h. h) db.grants
          sound.subjects;
  }

  -- DeleteProjectGrants keeps IsSound.
  pub delete_project_grants-IsSound :
      (project : String) → IsSound (delete_project_grants ws project db).1
  unfolding delete_project_grants
  delete_project_grants-IsSound project = with_id-IsSound ws db _ sound λ w there. fewer-IsSound _

  -- DeleteGrant keeps IsSound.
  pub delete_grant-IsSound : (id : String) → IsSound (delete_grant ws id db).1
  unfolding delete_grant
  delete_grant-IsSound id = with_id-IsSound ws db _ sound λ w there.
      elim (Bool-cases (any (has_grant_id w.id id) db.grants)) [
        | inl e ↦ rw e (fewer-IsSound _)
        | inr e ↦ rw e sound
      ]

updated-found :
    (env : Env) (t : Team) (p : TeamRow → Bool) (i : String) (xs : List TeamRow) {a : TeamRow}
    → find? (has_row_id i) xs ≡ some a
    → (u : TeamRow) × (find? (has_row_id i) (update_first p (updated env t) xs) ≡ some u)
      × (u.workspace_id ≡ a.workspace_id)
      × (u.name ≡ a.name)
unfolding find? update_first
updated-found env t p i [] e = absurd (ground (arith, e))
updated-found env t p i (x ∷ xs) {a} e = elim (Bool-cases (x.id == i)) [
  | inl g ↦
      let same : x ≡ a = ground (arith, e) in
      elim (Bool-cases (p x)) [
        | inl f ↦
            rw (f, g) (updated env t x, refl, ap (λ r. r.workspace_id) same, ap (λ r. r.name) same)
        | inr f ↦ rw (f, g) (x, refl, ap (λ r. r.workspace_id) same, ap (λ r. r.name) same)
      ]
  | inr g ↦
      let rest = updated-found env t p i xs {a = a} (rw g at e) in
      elim (Bool-cases (p x)) [
        | inl f ↦ rw (f, g) (a, rw g at e, refl, refl)
        | inr f ↦ rw (f, g) rest
      ]
]

module _ (env : Env) (ws : String) (t : Team) (db : Database) (sound : IsSound db) where
  inserted-IsSound :
      (w : Workspace)
      → HasWorkspace db.workspaces w.id
      → any (has_row_id (env.uuid 0)) db.teams ≡ false
      → find? (is_row w.id t.name) db.teams ≡ none
      → (t.name == team_everyone) ≡ false
      → IsSound (record db { teams = db.teams ++ inserted env w.id t ∷ [] })
  inserted-IsSound w home fresh new other = record {
    workspace_ids = sound.workspace_ids;
    workspace_slugs = sound.workspace_slugs;
    workspace_addresses = sound.workspace_addresses;
    team_workspaces =
        All-snoc (λ t. HasWorkspace db.workspaces t.workspace_id) db.teams (inserted env w.id t)
          sound.team_workspaces home;
    grant_workspaces = sound.grant_workspaces;
    grant_rows = sound.grant_rows;
    team_ids =
        IsUnique-snoc (λ a b. a.id == b.id) db.teams (inserted env w.id t) fresh sound.team_ids;
    team_names =
        IsUnique-snoc (λ a b. is_row b.workspace_id b.name a) db.teams (inserted env w.id t)
          (find?-none (is_row w.id t.name) db.teams new) sound.team_names;
    built_in =
        All-map _ _
          (λ v h.
            rw (any-append (is_row v.id team_everyone) db.teams (inserted env w.id t ∷ []), h) refl)
          db.workspaces sound.built_in;
    kinds = All-snoc _ db.teams (inserted env w.id t) sound.kinds (sym other);
    grant_ids = sound.grant_ids;
    subjects =
        All-map (HasSubject db.teams) _
          (λ g h.
            RefersTo-map db.teams _ g.workspace_id g.user_email g.team_id
              (λ i a r e.
                (a, find?-append (has_row_id i) db.teams (inserted env w.id t ∷ []) e, refl, refl))
              h)
          db.grants sound.subjects;
  }

  updated-IsSound :
      (w : Workspace)
      → IsSound (record db { teams = update_first (is_row w.id t.name) (updated env t) db.teams })
  updated-IsSound w =
      let p = is_row w.id t.name in
      record {
        workspace_ids = sound.workspace_ids;
        workspace_slugs = sound.workspace_slugs;
        workspace_addresses = sound.workspace_addresses;
        team_workspaces =
            All-update_first (λ t. HasWorkspace db.workspaces t.workspace_id) p (updated env t)
              (λ a q h. h) db.teams sound.team_workspaces;
        grant_workspaces = sound.grant_workspaces;
        grant_rows = sound.grant_rows;
        team_ids =
            IsUnique-update_first (λ a b. a.id == b.id) p (updated env t) (λ a b. refl)
              (λ a b. refl) db.teams sound.team_ids;
        team_names =
            IsUnique-update_first (λ a b. is_row b.workspace_id b.name a) p (updated env t)
              (λ a b. refl) (λ a b. refl) db.teams sound.team_names;
        built_in =
            All-map _ _
              (λ v h.
                any-update_first p (is_row v.id team_everyone) (updated env t) (λ a. refl) db.teams
                ∙ h)
              db.workspaces sound.built_in;
        kinds = All-update_first _ p (updated env t) (λ a q h. h) db.teams sound.kinds;
        grant_ids = sound.grant_ids;
        subjects =
            All-map (HasSubject db.teams) _
              (λ g h.
                RefersTo-map db.teams _ g.workspace_id g.user_email g.team_id
                  (λ i a r e. updated-found env t p i db.teams e) h)
              db.grants sound.subjects;
      }

  -- PutTeam keeps IsSound.
  pub put_team-IsSound : IsSound (put_team env ws t db).1
  unfolding put_team
  put_team-IsSound = with_id-IsSound ws db _ sound λ w there.
      elim (Bool-cases (t.name == team_everyone)) [
        | inl n ↦ rw n sound
        | inr n ↦ elim (Option-cases (find? (is_row w.id t.name) db.teams)) [
          | inl e ↦ elim (Bool-cases (any (has_row_id (env.uuid 0)) db.teams)) [
            | inl f ↦ rw (n, e, f) sound
            | inr f ↦
                rw (n, e, f) (inserted-IsSound w (HasWorkspace-found ws db.workspaces there) f e n)
          ]
          | inr (row, e) ↦ rw (n, e) (updated-IsSound w)
        ]
      ]
