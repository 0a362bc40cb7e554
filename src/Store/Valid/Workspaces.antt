-- ===== src/Store/Valid/Workspaces.antt =====
-- The methods on workspaces and the invariant of the store.
use shpyrd.Common.{
  String, ◌≡◌, refl, sym, ◌∙◌, eq_refl, Bool, true, false, ◌&&◌, some, List, [], ◌∷◌, ◌++◌, arith,
  ◌==◌, eq_iff, inl, inr, Bool-cases, any, All, All-map, All-snoc, All-update_first, IsUnique-snoc,
  IsUnique-update_first, any-append, any-update_first, update_first, lookup, lookup-none, any-never,
  Option-cases, All-lookup,
}
use mathlib.Core.Bool.{false≢true}
use mathlib.Core.Path.{subst}
use shpyrd.Store.Types.{Workspace, WorkspaceSettings, Team, Grant, team_everyone, default_workspace}
use shpyrd.Store.State.{Memory, empty_memory, Env, with_ws-after}
use shpyrd.Store.Teams.{is_team}
use shpyrd.Store.Workspaces.{
  everyone_team, is_everyone_of, address_taken, created_workspace, create_workspace,
  write_workspace, set_workspace_status, update_workspace, update_workspace_settings,
  implicit_workspace, migrate, new_memory,
}
use shpyrd.Store.Valid.{Entry, has_id, WorkspacesValid, TeamsValid, same_team, team_known, IsValid}

-- A write that leaves alone what identifies a workspace.
pub record IsQuiet (f : Workspace → Workspace) : Type 0 where
  pub id : (w : Workspace) → (f w).id ≡ w.id
  pub slug : (w : Workspace) → (f w).slug ≡ w.slug
  pub address : (w : Workspace) → (f w).address ≡ w.address

module _ (f : Workspace → Workspace) (q : IsQuiet f) (slug : String) where
  written : Entry → Entry
  written e = (e.0, f e.1)

  any-id-written :
      (id : String) (ws : List Entry)
      → any (has_id id) (update_first (λ e. e.0 == slug) (λ e. (e.0, f e.1)) ws)
        ≡ any (has_id id) ws
  any-id-written id ws =
      any-update_first (λ e. e.0 == slug) (has_id id) (λ e. (e.0, f e.1)) (λ e. rw (q.id e.1)) ws

  write-WorkspacesValid :
      (ws : List Entry)
      → WorkspacesValid ws
      → WorkspacesValid (update_first (λ e. e.0 == slug) (λ e. (e.0, f e.1)) ws)
  write-WorkspacesValid ws v = record {
    keyed =
        All-update_first (λ (e : Entry). e.0 ≡ e.1.slug) (λ e. e.0 == slug) (λ e. (e.0, f e.1))
          (λ e _ h. rw (q.slug e.1) h) ws v.keyed;
    slugs =
        IsUnique-update_first (λ (a b : Entry). a.0 == b.0) (λ e. e.0 == slug) (λ e. (e.0, f e.1))
          (λ a b. refl) (λ a b. refl) ws v.slugs;
    ids =
        IsUnique-update_first (λ (a b : Entry). has_id b.1.id a) (λ e. e.0 == slug)
          (λ e. (e.0, f e.1)) (λ a b. rw (q.id a.1)) (λ a b. rw (q.id b.1)) ws v.ids;
    addresses =
        IsUnique-update_first (λ (a b : Entry). address_taken b.1.address a) (λ e. e.0 == slug)
          (λ e. (e.0, f e.1)) (λ a b. rw (q.address a.1)) (λ a b. rw (q.address b.1)) ws
          v.addresses;
  }

  pub write_workspace-IsValid : (m : Memory) → IsValid m → IsValid (write_workspace slug f m)
  write_workspace-IsValid m v = record {
    workspaces = write-WorkspacesValid m.workspaces v.workspaces;
    teams = record {
      names = v.teams.names;
      homes =
          All-map (λ (t : Team). any (has_id t.workspace_id) m.workspaces ≡ true) _
            (λ t h. rw (any-id-written t.workspace_id m.workspaces) h) m.teams v.teams.homes;
      reserved = v.teams.reserved;
      present =
          All-update_first (λ (e : Entry). any (is_everyone_of e.1.id) m.teams ≡ true)
            (λ e. e.0 == slug) (λ e. (e.0, f e.1)) (λ e _ h. rw (q.id e.1) h) m.workspaces
            v.teams.present;
    };
    grants = v.grants;
    people = v.people;
    claims = v.claims;
    tokens = v.tokens;
    sessions = v.sessions;
  }

module _ (env : Env) (slug : String) (m : Memory) (v : IsValid m) where
  pub set_workspace_status-IsValid :
      (status : String) → IsValid (set_workspace_status env slug status m).1
  unfolding set_workspace_status
  set_workspace_status-IsValid status = with_ws-after IsValid slug m _ v λ w _.
      write_workspace-IsValid (λ x. record x { status = status; updated_at = env.now })
        (record { id = λ _. refl; slug = λ _. refl; address = λ _. refl }) slug m v

  pub update_workspace-IsValid : (name : String) → IsValid (update_workspace env slug name m).1
  unfolding update_workspace
  update_workspace-IsValid name = with_ws-after IsValid slug m _ v λ w _.
      write_workspace-IsValid (λ x. record x { name = name; updated_at = env.now })
        (record { id = λ _. refl; slug = λ _. refl; address = λ _. refl }) slug m v

  pub update_workspace_settings-IsValid :
      (s : WorkspaceSettings) → IsValid (update_workspace_settings env slug s m).1
  unfolding update_workspace_settings
  update_workspace_settings-IsValid s = with_ws-after IsValid slug m _ v λ w _.
      write_workspace-IsValid (λ x. record x { settings = s; updated_at = env.now })
        (record { id = λ _. refl; slug = λ _. refl; address = λ _. refl }) slug m v

-- No team belongs to an identifier that no workspace has.
no_team_of_fresh :
    (r : Team → Bool) (id : String) (ws : List Entry) (teams : List Team)
    → any (has_id id) ws ≡ false
    → All (λ (t : Team). any (has_id t.workspace_id) ws ≡ true) teams
    → any (λ t. t.workspace_id == id && r t) teams ≡ false
unfolding any
no_team_of_fresh r id ws [] h k = refl
no_team_of_fresh r id ws (t ∷ ts) h k = elim (Bool-cases (t.workspace_id == id)) [
  | inl e ↦
      absurd (false≢true (sym h ∙ subst (λ x. any (has_id x) ws ≡ true) ((eq_iff _ _).0 e) k.0))
  | inr e ↦ rw (e, no_team_of_fresh r id ws ts h k.1)
]

-- A new workspace with its built-in team, as Migrate and CreateWorkspace add them.
module _ (env : Env) (m : Memory) (v : IsValid m) (c : Workspace) (team_id : String) where
  abbrev extended : Memory
  extended = record m {
    workspaces = m.workspaces ++ (c.slug, c) ∷ [];
    teams = m.teams ++ everyone_team team_id c.id env.now ∷ [];
  }

  module _ (fresh : any (has_id c.id) m.workspaces ≡ false)
      (new_slug : any (λ (e : Entry). e.0 == c.slug) m.workspaces ≡ false)
      (new_address : any (address_taken c.address) m.workspaces ≡ false) where
    extended-teams : TeamsValid extended.workspaces extended.teams
    extended-teams = record {
      names =
          IsUnique-snoc same_team m.teams _
            (no_team_of_fresh (λ t. t.name == team_everyone) c.id m.workspaces m.teams fresh
              v.teams.homes)
            v.teams.names;
      homes =
          All-snoc (λ (t : Team). any (has_id t.workspace_id) extended.workspaces ≡ true) m.teams _
            (All-map (λ (t : Team). any (has_id t.workspace_id) m.workspaces ≡ true) _
              (λ t h.
                ground (arith, any-append (has_id t.workspace_id) m.workspaces ((c.slug, c) ∷ [])))
              m.teams v.teams.homes)
            (unfold any in
              ground
                (arith, eq_refl c.id, any-append (has_id c.id) m.workspaces ((c.slug, c) ∷ [])));
      reserved =
          All-snoc (λ (t : Team). t.everyone ≡ (t.name == team_everyone)) m.teams _ v.teams.reserved
            refl;
      present =
          All-snoc (λ (e : Entry). any (is_everyone_of e.1.id) extended.teams ≡ true) m.workspaces _
            (All-map (λ (e : Entry). any (is_everyone_of e.1.id) m.teams ≡ true) _
              (λ e h. ground (
                arith,
                any-append (is_everyone_of e.1.id) m.teams
                    (everyone_team team_id c.id env.now ∷ []),
              ))
              m.workspaces v.teams.present)
            (unfold any in
              ground (
                arith,
                eq_refl c.id,
                any-append (is_everyone_of c.id) m.teams (everyone_team team_id c.id env.now ∷ []),
              ));
    }

    known-extended : (g : Grant) → team_known m.teams g ≡ true → team_known extended.teams g ≡ true
    known-extended g h = ground (
      arith,
      any-append (is_team g.workspace_id g.team) m.teams (everyone_team team_id c.id env.now ∷ []),
    )

    extended-IsValid : IsValid extended
    extended-IsValid = record {
      workspaces = record {
        keyed = All-snoc (λ (e : Entry). e.0 ≡ e.1.slug) m.workspaces _ v.workspaces.keyed refl;
        slugs =
            IsUnique-snoc (λ (a b : Entry). a.0 == b.0) m.workspaces _ new_slug v.workspaces.slugs;
        ids =
            IsUnique-snoc (λ (a b : Entry). has_id b.1.id a) m.workspaces _ fresh v.workspaces.ids;
        addresses =
            IsUnique-snoc (λ (a b : Entry). address_taken b.1.address a) m.workspaces _ new_address
              v.workspaces.addresses;
      };
      teams = extended-teams;
      grants = record {
        distinct = v.grants.distinct;
        known =
            All-map (λ (g : Grant). team_known m.teams g ≡ true) _ known-extended m.grants
              v.grants.known;
      };
      people = v.people;
      claims = v.claims;
      tokens = v.tokens;
      sessions = v.sessions;
    }

module _ (env : Env) (m : Memory) (v : IsValid m) where
  -- CreateWorkspace keeps the store valid, if the identifier that it draws is not in use.
  pub create_workspace-IsValid :
      (w : Workspace)
      → any (has_id (env.uuid 0)) m.workspaces ≡ false
      → IsValid (create_workspace env w m).1
  unfolding create_workspace
  create_workspace-IsValid w fresh =
      elim (Bool-cases (any (λ (e : Entry). e.0 == w.slug) m.workspaces)) [
        | inl e ↦ rw e v
        | inr e ↦
            elim (Bool-cases (any (address_taken (created_workspace env w).address) m.workspaces)) [
              | inl f ↦ rw (e, f) v
              | inr f ↦
                  rw (e, f)
                    (extended-IsValid env m v (created_workspace env w) (env.uuid 1) fresh e f)
            ]
      ]

  implicit_present :
      (w : Workspace)
      → lookup default_workspace m.workspaces ≡ some w
      → any (is_everyone_of w.id) m.teams ≡ true
  implicit_present w e =
      (All-lookup (λ (x : Entry). any (is_everyone_of x.1.id) m.teams ≡ true) default_workspace
        m.workspaces v.teams.present e).2

  -- Migrate keeps the store valid, if the identifier that it draws is not in use.
  pub migrate-IsValid :
      (name : String)
      → any (has_id (env.uuid 0)) m.workspaces ≡ false
      → IsValid (migrate env name m)
  unfolding migrate
  migrate-IsValid name fresh = elim (Option-cases (lookup default_workspace m.workspaces)) [
    | inl e ↦
        rw
          (
            e,
            no_team_of_fresh (λ t. t.everyone) (env.uuid 0) m.workspaces m.teams fresh
                v.teams.homes,
          )
          (extended-IsValid env m v (implicit_workspace env name) (env.uuid 1) fresh
            (lookup-none default_workspace m.workspaces e)
            (any-never (address_taken "") (λ _. refl) m.workspaces))
    | inr (w, e) ↦ rw (e, implicit_present w e) v
  ]

  -- On a store that has its implicit workspace, Migrate changes nothing.
  pub migrate_again :
      (name : String) (w : Workspace)
      → lookup default_workspace m.workspaces ≡ some w
      → migrate env name m ≡ m
  unfolding migrate
  migrate_again name w e = rw (e, implicit_present w e)

-- An empty store satisfies the invariant, so the store that NewMemory returns does.
pub new_memory-IsValid : (env : Env) → IsValid (new_memory env)
unfolding new_memory any
new_memory-IsValid env =
    migrate-IsValid env empty_memory
      (record {
        workspaces = record { keyed = tt; slugs = tt; ids = tt; addresses = tt };
        teams = record { names = tt; homes = tt; reserved = tt; present = tt };
        grants = record { distinct = tt; known = tt };
        people = record { distinct = tt; lower = tt };
        claims = tt;
        tokens = tt;
        sessions = tt;
      })
      "shpyrd" refl
