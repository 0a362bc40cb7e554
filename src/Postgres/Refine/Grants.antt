-- ===== src/Postgres/Refine/Grants.antt =====
-- AddGrant, DeleteGrant, DeleteProjectGrants and ListGrants of pkg/store/postgres.go, against those of
-- pkg/store/memory.go.
use shpyrd.Common.{
  String, ◌≡◌, refl, sym, ap, ◌∙◌, Bool, true, false, not, ◌&&◌, Option, none, some, List, [], ◌∷◌,
  ◌++◌, arith, inl, inr, ◌==◌, eq_iff, eq_refl, eq_comm, All-Unit, any, find?, find?-none,
  find?-passes, find?-some-any, Bool-cases, Option-cases, if◌then◌else◌, IsUnique,
  IsUnique-find_only, any-map, any_same, find?-map, keep-map, map-append, delete_first-map,
  delete_first-eq-keep, to_lower, trim_space,
}
use shpyrd.Store.Types.{Grant, conflict}
use shpyrd.Store.State.{Env, Memory, Result}
use shpyrd.Store.State
use shpyrd.Store.Teams.{is_team}
use shpyrd.Store.Grants
use shpyrd.Store.Grants.{same_grant, is_grant, on_project, new_grant}
use shpyrd.Postgres.Tables.{
  TeamRow, GrantRow, Database, ok, is_row, has_row_id, team_name, scan_team, scan_grant,
}
use shpyrd.Postgres.Grants.{
  insert_row, has_one_subject, add_grant, delete_grant, delete_project_grants, has_grant_id,
  same_row, new_row,
}
use shpyrd.Postgres.Refine.{view, Refines, RefersTo, HasSubject, IsSound, with_id-Refines}

module _ (ws : String) (db : Database) where
  -- DeleteProjectGrants of Postgres refines that of Memory.
  pub delete_project_grants-Refines :
      (project : String)
      → Refines
          (delete_project_grants ws project db)
          (Grants.delete_project_grants ws project (view db))
  unfolding delete_project_grants Grants.delete_project_grants
  delete_project_grants-Refines project = with_id-Refines ws db _ _ λ w there.
      rw (keep-map (scan_grant db.teams) (λ g. not (on_project w.id project g)) db.grants)
        (refl, refl)

  -- DeleteGrant of Postgres refines that of Memory, where identifiers are distinct.
  pub delete_grant-Refines :
      (id : String)
      → IsSound db
      → Refines (delete_grant ws id db) (Grants.delete_grant ws id (view db))
  unfolding delete_grant Grants.delete_grant
  delete_grant-Refines id sound = with_id-Refines ws db _ _ λ w there.
      let seen = find?-map (scan_grant db.teams) (is_grant w.id id) db.grants in
      elim (Option-cases (find? (has_grant_id w.id id) db.grants)) [
        | inl e ↦ rw (find?-none (has_grant_id w.id id) db.grants e, seen, e) (refl, refl)
        | inr (g, e) ↦
            let found =
              find?-some-any (has_grant_id w.id id) (has_grant_id w.id id) db.grants e
                (find?-passes (has_grant_id w.id id) db.grants e) in
            let only =
              IsUnique-find_only (λ a b. a.id == b.id) (has_grant_id w.id id)
                (λ a b p q. ground (arith, eq_iff a.id id, eq_iff b.id id, eq_iff a.id b.id))
                db.grants sound.grant_ids e in
            rw (found, seen, e)
              (
                refl,
                ground (
                  arith,
                  delete_first-map (scan_grant db.teams) (is_grant w.id id) db.grants,
                  delete_first-eq-keep (has_grant_id w.id id) db.grants only,
                ),
              )
      ]

none_behind {ℓ} :
    {A : Type ℓ} (same : A → A → Bool) (p q : A → Bool)
    → ((a b : A) → p a ≡ true → p b ≡ true → same a b ≡ true)
    → (x : A) (xs : List A) → p x ≡ true
    → any (same x) xs ≡ false
    → any (λ a. q a && p a) xs ≡ false
unfolding any
none_behind same p q f x [] h k = refl
none_behind same p q f x (y ∷ ys) h k = ground (arith, f x y h, none_behind same p q f x ys h)

-- A test holds of the one entry with a key exactly if it holds of some entry with it.
any-by_key {ℓ} :
    {A : Type ℓ} (same : A → A → Bool) (p q : A → Bool)
    → ((a b : A) → p a ≡ true → p b ≡ true → same a b ≡ true)
    → (xs : List A) {t : A} → find? p xs ≡ some t
    → IsUnique same xs
    → any (λ a. q a && p a) xs ≡ q t
unfolding any find?
any-by_key same p q f [] h u = absurd (ground (arith, h))
any-by_key same p q f (x ∷ xs) {t} h u = elim (Bool-cases (p x)) [
  | inl e ↦ ground (arith, e, none_behind same p q f x xs e u.0)
  | inr e ↦ ground (arith, e, any-by_key same p q f xs {t = t})
]

module _ (env : Env) (ws : String) (g : Grant) (db : Database) (sound : IsSound db) where
  -- The row with an identifier has the name looked up exactly if it is the row found by the name.
  pub row_by_name :
      (wid i : String) {t u : TeamRow}
      → find? (is_row wid g.team) db.teams ≡ some t
      → find? (has_row_id i) db.teams ≡ some u
      → is_row wid g.team u ≡ (t.id == i)
  row_by_name wid i {t} {u} e f =
      sym (
        any-by_key (λ a b. a.id == b.id) (has_row_id i) (is_row wid g.team)
          (λ a b p q. ground (arith, eq_iff a.id i, eq_iff b.id i, eq_iff a.id b.id)) db.teams f
          sound.team_ids)
      ∙ any_same (λ a. Unit {0}) _ _ (λ a h. ground arith) db.teams (All-Unit db.teams)
      ∙ any-by_key (λ a b. is_row b.workspace_id b.name a) (is_row wid g.team) (has_row_id i) both
          db.teams e sound.team_names
    where
      both :
          (a b : TeamRow)
          → is_row wid g.team a ≡ true
          → is_row wid g.team b ≡ true
          → is_row b.workspace_id b.name a ≡ true
      both a b p q = ground (
        arith,
        eq_iff a.workspace_id wid,
        eq_iff b.workspace_id wid,
        eq_iff a.name g.team,
        eq_iff b.name g.team,
        eq_iff a.workspace_id b.workspace_id,
        eq_iff a.name b.name,
      )

  found_name :
      (wid : String) {t : TeamRow}
      → find? (is_row wid g.team) db.teams ≡ some t
      → team_name db.teams (some t.id) ≡ g.team
  found_name wid {t} e = elim (Option-cases (find? (has_row_id t.id) db.teams)) [
    | inl f ↦ absurd (
        ground (
          arith,
          find?-none (has_row_id t.id) db.teams f,
          eq_refl t.id,
          find?-some-any (is_row wid g.team) (has_row_id t.id) db.teams e,
        ))
    | inr (u, f) ↦
        rw f ((eq_iff u.name g.team).0 (ground (arith, row_by_name wid t.id e f, eq_refl t.id)))
  ]

  -- The unique index refuses a grant to a user exactly where AddGrant of Memory does.
  same_user :
      (wid : String) (e : GrantRow)
      → (g.team == "") ≡ true
      → (to_lower (trim_space g.user) == "") ≡ false
      → HasSubject db.teams e
      → same_row e (new_row env wid g none)
        ≡ same_grant (scan_grant db.teams e) (new_grant env wid g)
  same_user wid e k u h = by_reference e.team_id h
    where
      by_reference :
          (r : Option String)
          → RefersTo db.teams e.workspace_id e.user_email r
          → same_row (record e { team_id = r }) (new_row env wid g none)
            ≡ same_grant (scan_grant db.teams (record e { team_id = r })) (new_grant env wid g)
      by_reference none h = ground (arith, eq_iff g.team "", eq_iff "" g.team)
      by_reference (some i) h = ground (
        arith,
        eq_iff e.user_email "",
        eq_iff e.user_email (to_lower (trim_space g.user)),
        eq_iff (to_lower (trim_space g.user)) "",
      )

  same_team_grant :
      (wid : String) (t : TeamRow) (e : GrantRow)
      → find? (is_row wid g.team) db.teams ≡ some t
      → (to_lower (trim_space g.user) == "") ≡ true
      → HasSubject db.teams e
      → same_row e (new_row env wid g (some t.id))
        ≡ same_grant (scan_grant db.teams e) (new_grant env wid g)
  same_team_grant wid t e f u h = by_reference e.team_id h
    where
      by_reference :
          (r : Option String)
          → RefersTo db.teams e.workspace_id e.user_email r
          → same_row (record e { team_id = r }) (new_row env wid g (some t.id))
            ≡ same_grant (scan_grant db.teams (record e { team_id = r })) (new_grant env wid g)
      by_reference none h = ground (
        arith,
        eq_iff e.user_email (to_lower (trim_space g.user)),
        eq_iff (to_lower (trim_space g.user)) "",
        eq_iff e.user_email "",
      )
      by_reference (some i) h =
          rw h.1.1 (ground (arith, row_by_name wid i f h.1.1, h.1.2, eq_comm t.id i))

  abbrev insert_grant : Grant → Memory → Result Grant × Memory
  insert_grant n m =
      if any (λ e. same_grant e n) m.grants
      then (State.err conflict, m)
      else (State.ok n, record m { grants = m.grants ++ n ∷ [] })

  -- A row that the database takes is in the state that the tables stand for.
  added-view :
      (wid : String) (r : Option String)
      → team_name db.teams r ≡ g.team
      → (scan_grant db.teams (new_row env wid g r) ≡ new_grant env wid g)
        × (view (record db { grants = db.grants ++ new_row env wid g r ∷ [] })
            ≡ record (view db) { grants = (view db).grants ++ new_grant env wid g ∷ [] })
  added-view wid r h =
      let scanned : scan_grant db.teams (new_row env wid g r) ≡ new_grant env wid g =
        ap (λ n. record (new_grant env wid g) { team = n }) h in
      (
        scanned,
        ground
            (arith, scanned, map-append (scan_grant db.teams) db.grants (new_row env wid g r ∷ [])),
      )

  -- The INSERT refines the end of AddGrant of Memory, where the row stands for the grant.
  insert_row-Refines :
      (wid : String) (r : Option String)
      → any (λ e. e.id == env.uuid 0) db.grants ≡ false
      → has_one_subject (new_row env wid g r) ≡ true
      → team_name db.teams r ≡ g.team
      → ((e : GrantRow)
          → HasSubject db.teams e
          → same_row e (new_row env wid g r)
            ≡ same_grant (scan_grant db.teams e) (new_grant env wid g))
      → Refines (insert_row (new_row env wid g r) db) (insert_grant (new_grant env wid g) (view db))
  insert_row-Refines wid r fresh one name same =
      let there =
        any-map (scan_grant db.teams) (λ e. same_grant e (new_grant env wid g)) db.grants in
      let agree = any_same (HasSubject db.teams) _ _ same db.grants sound.subjects in
      let (scanned, viewed) = added-view wid r name in
      elim (Bool-cases (any (λ e. same_row e (new_row env wid g r)) db.grants)) [
        | inl c ↦ rw (one, fresh, c, there, sym agree, c) (refl, refl)
        | inr c ↦ rw (one, fresh, c, there, sym agree, c) (ap ok scanned, viewed)
      ]

  -- AddGrant of Postgres refines AddGrant of Memory, for a grant to a user or to a team and not
  -- both, if the identifier drawn is new.
  pub add_grant-Refines :
      any (λ e. e.id == env.uuid 0) db.grants ≡ false
      → (to_lower (trim_space g.user) == "") ≡ not (g.team == "")
      → Refines (add_grant env ws g db) (Grants.add_grant env ws g (view db))
  unfolding add_grant Grants.add_grant
  add_grant-Refines fresh one = with_id-Refines ws db _ _ λ w there.
      let teams = any-map scan_team (is_team w.id g.team) db.teams in
      elim (Bool-cases (g.team == "")) [
        | inl k ↦ rw k (
            insert_row-Refines w.id none fresh (ap not (one ∙ ap not k))
              (sym ((eq_iff g.team "").0 k)) (λ e h. same_user w.id e k (one ∙ ap not k) h))
        | inr k ↦ elim (Option-cases (find? (is_row w.id g.team) db.teams)) [
          | inl e ↦ rw (k, e, teams, find?-none (is_row w.id g.team) db.teams e) (refl, refl)
          | inr (t, e) ↦
              let found =
                find?-some-any (is_row w.id g.team) (is_row w.id g.team) db.teams e
                  (find?-passes (is_row w.id g.team) db.teams e) in
              rw (k, e, teams, found)
                (insert_row-Refines w.id (some t.id) fresh (one ∙ ap not k) (found_name w.id e)
                  (λ a h. same_team_grant w.id t a e (one ∙ ap not k) h))
        ]
      ]
