-- ===== src/Store/Dump/Restore.antt =====
-- importDump on coherent dumps.
use mathlib.Core.Path.{subst}
use shpyrd.Common.{
  ℕ, String, ◌≡◌, refl, sym, ◌∙◌, Bool, true, not, ◌&&◌, ◌||◌, none, List, [], ◌∷◌, arith, ◌==◌,
  eq_iff, inl, inr, Bool-cases, Option-cases, any, find?, find?-some-any, find?-passes, All,
  All-map, All-Unit, All-lookup,
}
use shpyrd.Store.Types.{Team, Grant, team_everyone}
use shpyrd.Store.State.{Memory, Env, Result, ok, err, with_ws}
use shpyrd.Store.Workspaces.{is_everyone_of}
use shpyrd.Store.Teams.{is_team, get_team, put_team}
use shpyrd.Store.Valid.{Entry}
use shpyrd.Store.Valid.Teams.{everyone_by_name, put_team-IsValid}
use shpyrd.Store.Dump.{
  Dump, ImportResult, State, Progress, for_each, after_team, is_ok, import_domain, import_team,
  import_grant, import_identity, import_workspace, nothing_yet, in_turn, import_dump,
}
use shpyrd.Store.Dump.Loops.{Succeeds, and_then-Succeeds, for_each-Succeeds, for_each-establishes}
use shpyrd.Store.Dump.Steps
use shpyrd.Store.Dump.Steps.{Ready, Ready-same}
use shpyrd.Store.Dump.Total.{
  ReadyState, ReadyWith, Known, after_team_lem, import_domain-Succeeds, import_grant-Succeeds,
  import_identity-Succeeds, import_workspace-Succeeds,
}

-- The teams called "everyone" are the built-in ones; each grant to a team names a team of the dump.
pub record IsCoherent (d : Dump) : Type 0 where
  pub reserved : All (λ t. t.everyone ≡ (t.name == team_everyone)) d.teams
  pub known :
      All (λ (g : Grant). (g.team == "" || any (λ t. t.name == g.team) d.teams) ≡ true) d.grants

after_team-state :
    (r : ImportResult) (o : Result (Team × Bool) × Memory) → (after_team r o).1.1 ≡ o.1
after_team-state r (ok t, m) = refl
after_team-state r (err e, m) = refl

module _ (ws wid : String) where
  -- A team of this name is there.
  abbrev Present : Team → State → Type 0
  Present t s = any (is_team wid t.name) s.1.teams ≡ true

  everyone_present : (m : Memory) → Ready ws wid m → any (is_team wid team_everyone) m.teams ≡ true
  everyone_present m r =
      subst (λ i. any (is_team i team_everyone) m.teams ≡ true) r.id
        (sym (everyone_by_name r.home.id m.teams r.valid.teams.reserved)
          ∙ (All-lookup (λ (e : Entry). any (is_everyone_of e.1.id) m.teams ≡ true) ws m.workspaces
              r.valid.teams.present r.there).2)

  got_team :
      (m : Memory) (name : String)
      → Ready ws wid m
      → is_ok (get_team ws name m).0 ≡ true
      → any (is_team wid name) m.teams ≡ true
  unfolding get_team with_ws
  got_team m name r h = elim (Option-cases (find? (is_team r.home.id name) m.teams)) [
    | inl e ↦ absurd (ground (arith, r.there))
    | inr (t, e) ↦
        subst (λ i. any (is_team i name) m.teams ≡ true) r.id
          (find?-some-any _ _ m.teams e (find?-passes _ m.teams e))
  ]

  import_team-keeps :
      (envs : ℕ → Env) (overwrite : Bool) (i : ℕ) (t u : Team) (s : State)
      → Present u s
      → Present u (import_team envs ws overwrite i t s).1
  unfolding import_team
  import_team-keeps envs overwrite i t u s h =
      elim (Bool-cases (t.everyone || t.name == team_everyone)) [
        | inl e ↦ rw e h
        | inr e ↦ elim (Bool-cases (not overwrite && is_ok (get_team ws t.name s.1).0)) [
          | inl f ↦ rw (e, f) h
          | inr f ↦
              rw (e, f, after_team-state s.0 (put_team (envs i) ws t s.1))
                (Steps.put_team-keeps ws s.1 (envs i) t wid u.name h)
        ]
      ]

  -- A round of the loop over teams goes through and leaves a team of that name.
  pub record Restored (t : Team) (p : Progress) : Type 0 where
    pub no_error : p.0 ≡ none
    pub workspaces : Ready ws wid p.1.1
    pub present : Present t p.1

  import_team-Restored :
      (envs : ℕ → Env) (overwrite : Bool) (i : ℕ) (t : Team) (s : State)
      → t.everyone ≡ (t.name == team_everyone)
      → Ready ws wid s.1
      → Restored t (import_team envs ws overwrite i t s)
  unfolding import_team
  import_team-Restored envs overwrite i t s g r =
      elim (Bool-cases (t.everyone || t.name == team_everyone)) [
        | inl e ↦ rw e (record {
          no_error = refl;
          workspaces = r;
          present = rw ((eq_iff t.name team_everyone).0 (ground arith)) (everyone_present s.1 r);
        })
        | inr e ↦ elim (Bool-cases (not overwrite && is_ok (get_team ws t.name s.1).0)) [
          | inl f ↦
              rw (e, f)
                (record {
                  no_error = refl;
                  workspaces = r;
                  present = got_team s.1 t.name r (ground arith);
                })
          | inr f ↦
              let o = put_team (envs i) ws t s.1 in
              let p = Steps.put_team-ok ws wid s.1 r (envs i) t (ground arith) in
              let a = after_team_lem s.0 o p.0 in
              rw (e, f)
                (record {
                  no_error = a.0;
                  workspaces = subst (Ready ws wid) (sym a.1) (
                      Ready-same r (put_team-IsValid (envs i) ws t s.1 r.valid)
                        (Steps.put_team-workspaces ws s.1 (envs i) t));
                  present = rw a.1 p.1;
                })
        ]
      ]

  abbrev Plain : Team → Type 0
  Plain t = t.everyone ≡ (t.name == team_everyone)

  import_team-Succeeds :
      (envs : ℕ → Env) (overwrite : Bool) (i : ℕ) (t : Team) (s : State)
      → Plain t
      → ReadyState ws wid s
      → Succeeds (ReadyState ws wid) (import_team envs ws overwrite i t s)
  import_team-Succeeds envs overwrite i t s g r =
      let x = import_team-Restored envs overwrite i t s g r in
      record { no_error = x.no_error; state = x.workspaces }

  -- A team that is present under the name of a grant's team makes the grant known.
  known_by_name :
      (name : String) (s : State) (teams : List Team)
      → All (λ t. Present t s) teams
      → any (λ t. t.name == name) teams ≡ true
      → any (is_team wid name) s.1.teams ≡ true
  unfolding any
  known_by_name name s [] h k = ground arith
  known_by_name name s (t ∷ ts) h k = elim (Bool-cases (t.name == name)) [
    | inl e ↦ subst (λ n. any (is_team wid n) s.1.teams ≡ true) ((eq_iff _ _).0 e) h.0
    | inr e ↦ known_by_name name s ts h.1 (rw e at k)
  ]

  Known-of_Present :
      (s : State) (teams : List Team) (g : Grant)
      → All (λ t. Present t s) teams
      → (g.team == "" || any (λ t. t.name == g.team) teams) ≡ true
      → Known ws wid s.1.teams g
  Known-of_Present s teams g h k = elim (Bool-cases (g.team == "")) [
    | inl e ↦ rw e refl
    | inr e ↦ rw e (known_by_name g.team s teams h (rw e at k))
  ]

  -- What an import into this workspace has done when it ends.
  pub record Complete (d : Dump) (s : State) : Type 0 where
    pub ready : Ready ws wid s.1
    pub teams : All (λ t. any (is_team wid t.name) s.1.teams ≡ true) d.teams

  module _ (envs : ℕ → ℕ → Env) (d : Dump) (overwrite : Bool) (c : IsCoherent d) where
    abbrev domains_part : State → Progress
    domains_part = for_each (import_domain (envs 1) ws) 0 d.domains

    abbrev teams_part : State → Progress
    teams_part = for_each (import_team (envs 2) ws overwrite) 0 d.teams

    abbrev grants_part : State → Progress
    grants_part = for_each (import_grant (envs 3) ws) 0 d.grants

    abbrev people_part : State → Progress
    people_part = for_each (import_identity (envs 4) ws) 0 d.identities

    teams_part-Succeeds : (s : State) → ReadyState ws wid s → Succeeds (Complete d) (teams_part s)
    teams_part-Succeeds s r =
        let body = import_team (envs 2) ws overwrite in
        let a =
          for_each-Succeeds (ReadyState ws wid) body Plain (import_team-Succeeds (envs 2) overwrite)
            0 d.teams s c.reserved r in
        record {
          no_error = a.no_error;
          state = record {
            ready = a.state;
            teams =
                for_each-establishes body Present (import_team-keeps (envs 2) overwrite) Plain
                  (ReadyState ws wid) (import_team-Succeeds (envs 2) overwrite)
                  (λ i t u g h. (import_team-Restored (envs 2) overwrite i t u g h).present) 0
                  d.teams s c.reserved r;
          };
        }

    after_teams :
        (s : State)
        → Complete d s
        → Succeeds (Complete d) (in_turn (grants_part ∷ people_part ∷ []) s)
    unfolding in_turn
    after_teams s h =
        let W = ReadyWith ws wid s.1.teams in
        let g =
          for_each-Succeeds W (import_grant (envs 3) ws) (Known ws wid s.1.teams)
            (import_grant-Succeeds ws wid (envs 3) s.1.teams) 0 d.grants s
            (All-map _ _ (λ x. Known-of_Present s d.teams x h.teams) d.grants c.known)
            (record { ready = h.ready; teams_are = refl }) in
        and_then-Succeeds W (Complete d) (grants_part s) (in_turn (people_part ∷ [])) g (λ t w.
          and_then-Succeeds W (Complete d) (people_part t) (in_turn [])
            (for_each-Succeeds W (import_identity (envs 4) ws) (λ _. Unit {0})
              (λ i x u _ q. import_identity-Succeeds ws wid (envs 4) s.1.teams i x u q) 0
              d.identities t (All-Unit d.identities) w)
            (λ u q. record {
              no_error = refl;
              state = record {
                ready = q.ready;
                teams =
                    subst (λ ts. All (λ x. any (is_team wid x.name) ts ≡ true) d.teams)
                      (sym q.teams_are) h.teams;
              };
            }))

    -- Into a valid store, a coherent dump is imported without an error.
    pub import_dump-Complete :
        (m : Memory) → Ready ws wid m → Succeeds (Complete d) (import_dump envs ws d overwrite m)
    unfolding import_dump in_turn
    import_dump-Complete m r =
        let R = ReadyState ws wid in
        and_then-Succeeds R (Complete d) (import_workspace (envs 0) ws d overwrite (nothing_yet, m))
          (in_turn (domains_part ∷ teams_part ∷ grants_part ∷ people_part ∷ []))
          (import_workspace-Succeeds ws wid (envs 0) d overwrite (nothing_yet, m) r)
          (λ s rs.
            and_then-Succeeds R (Complete d) (domains_part s)
              (in_turn (teams_part ∷ grants_part ∷ people_part ∷ []))
              (for_each-Succeeds R (import_domain (envs 1) ws) (λ _. Unit {0})
                (λ i x u _ q. import_domain-Succeeds ws wid (envs 1) i x u q) 0 d.domains s
                (All-Unit d.domains) rs)
              (λ t rt.
                and_then-Succeeds (Complete d) (Complete d) (teams_part t)
                  (in_turn (grants_part ∷ people_part ∷ [])) (teams_part-Succeeds t rt)
                  after_teams))
