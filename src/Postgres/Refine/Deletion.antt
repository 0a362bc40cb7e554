-- ===== src/Postgres/Refine/Deletion.antt =====
-- DeleteTeam of pkg/store/postgres.go, whose grants go by ON DELETE CASCADE, against that of
-- pkg/store/memory.go, which looks for the name.
use shpyrd.Common.{
  String, ◌≡◌, refl, sym, ap, ◌∙◌, Bool, true, false, not, ◌&&◌, Option, none, some, List, [], ◌∷◌,
  map, arith, inl, inr, ◌==◌, eq_iff, eq_comm, any, keep, find?, find?-none, find?-passes,
  find?-some-any, Bool-cases, Option-cases, All-find?, IsUnique, IsUnique-find_only, any-keep,
  any-never, delete_first, find?-map, keep-map, map-keep_same, delete_first-map, find?-keep,
  delete_first-eq-keep,
}
use shpyrd.Store.Types.{team_everyone}
use shpyrd.Store.Teams
use shpyrd.Store.Teams.{is_team, given_to}
use shpyrd.Postgres.Tables.{
  TeamRow, GrantRow, Database, is_row, has_row_id, team_name, scan_team, scan_grant,
}
use shpyrd.Postgres.Teams.{delete_team, falls_with, refers}
use shpyrd.Postgres.Refine.{view, Refines, RefersTo, HasSubject, IsSound, with_id-Refines}
use shpyrd.Postgres.Refine.Teams.{find?-is_row}

abbrev same_id : TeamRow → TeamRow → Bool
same_id a b = a.id == b.id

no_such_id :
    (x : TeamRow) (i : String) (q : TeamRow → Bool) (xs : List TeamRow)
    → (x.id == i) ≡ true
    → any (same_id x) xs ≡ false
    → any (λ a. q a && i == a.id) xs ≡ false
unfolding any
no_such_id x i q [] h k = refl
no_such_id x i q (y ∷ ys) h k =
    ground (arith, no_such_id x i q ys h, eq_iff x.id i, eq_iff x.id y.id, eq_iff i y.id)

-- A test holds of the row with an identifier exactly if it holds of some row with it.
any-by_id :
    (i : String) (q : TeamRow → Bool) (xs : List TeamRow) {t : TeamRow}
    → find? (has_row_id i) xs ≡ some t
    → IsUnique same_id xs
    → any (λ a. q a && i == a.id) xs ≡ q t
unfolding any find?
any-by_id i q [] h u = absurd (ground (arith, h))
any-by_id i q (x ∷ xs) {t} h u = elim (Bool-cases (x.id == i)) [
  | inl e ↦ ground (arith, e, no_such_id x i q xs e u.0, eq_comm x.id i)
  | inr e ↦ ground (arith, e, any-by_id i q xs {t = t}, eq_comm x.id i)
]

module _ (wid name : String) (teams : List TeamRow) (ids : IsUnique same_id teams)
    (named : (name == "") ≡ false) where
  abbrev gone : List TeamRow
  gone = keep (is_row wid name) teams

  abbrev left : List TeamRow
  left = keep (λ t. not (is_row wid name t)) teams

  -- The cascade takes a grant exactly where its team's name is the one deleted.
  falls-eq-given :
      (g : GrantRow)
      → HasSubject teams g
      → falls_with gone g ≡ given_to wid name (scan_grant teams g)
  falls-eq-given g h = by_reference g.team_id h
    where
      by_reference :
          (r : Option String)
          → RefersTo teams g.workspace_id g.user_email r
          → any (λ t. refers t.id r) gone ≡ (g.workspace_id == wid && team_name teams r == name)
      by_reference none k =
          any-never (λ t. false) (λ t. refl) gone ∙ ground (arith, eq_comm "" name)
      by_reference (some i) k =
          any-keep (is_row wid name) (λ t. i == t.id) teams
          ∙ any-by_id i (is_row wid name) teams k.1.1 ids
          ∙ rw (k.1.1, k.1.2) refl

  -- The team of a grant that the cascade leaves is left.
  pub team_stays :
      (i : String) {t : TeamRow}
      → find? (has_row_id i) teams ≡ some t
      → not (any (λ t. i == t.id) gone) ≡ true
      → find? (has_row_id i) left ≡ some t
  team_stays i {t} e m =
      find?-keep (has_row_id i) (λ t. not (is_row wid name t)) teams e
        (ground (
          arith,
          m,
          any-keep (is_row wid name) (λ t. i == t.id) teams,
          any-by_id i (is_row wid name) teams e ids,
        ))

  kept-scan :
      (g : GrantRow)
      → HasSubject teams g
      → not (falls_with gone g) ≡ true
      → scan_grant left g ≡ scan_grant teams g
  kept-scan g h k = ap (λ n. record (scan_grant [] g) { team = n }) (by_reference g.team_id h k)
    where
      by_reference :
          (r : Option String)
          → RefersTo teams g.workspace_id g.user_email r
          → not (any (λ t. refers t.id r) gone) ≡ true
          → team_name left r ≡ team_name teams r
      by_reference none k m = refl
      by_reference (some i) k m = rw (team_stays i k.1.1 m, k.1.1) refl

module _ (ws name : String) (db : Database) (sound : IsSound db)
    (named : (name == "") ≡ false) where
  left_teams :
      (wid : String) {row : TeamRow}
      → find? (is_row wid name) db.teams ≡ some row
      → map scan_team (keep (λ t. not (is_row wid name t)) db.teams)
        ≡ delete_first (is_team wid name) (map scan_team db.teams)
  left_teams wid e = sym (
      delete_first-map scan_team (is_team wid name) db.teams
      ∙ ap (map scan_team) (
          delete_first-eq-keep (is_row wid name) db.teams (
            IsUnique-find_only (λ a b. is_row b.workspace_id b.name a) (is_row wid name) both
              db.teams sound.team_names e)))
    where
      both :
          (a b : TeamRow)
          → is_row wid name a ≡ true
          → is_row wid name b ≡ true
          → is_row b.workspace_id b.name a ≡ true
      both a b p q = ground (
        arith,
        eq_iff a.workspace_id wid,
        eq_iff b.workspace_id wid,
        eq_iff a.name name,
        eq_iff b.name name,
        eq_iff a.workspace_id b.workspace_id,
        eq_iff a.name b.name,
      )

  left_grants :
      (wid : String)
      → map
          (scan_grant (left wid name db.teams sound.team_ids named))
          (keep (λ g. not (falls_with (gone wid name db.teams sound.team_ids named) g)) db.grants)
        ≡ keep (λ g. not (given_to wid name g)) (map (scan_grant db.teams) db.grants)
  left_grants wid =
      map-keep_same (HasSubject db.teams) _ (scan_grant db.teams) _
        (λ g. not (given_to wid name (scan_grant db.teams g)))
        (λ g h. ap not (falls-eq-given wid name db.teams sound.team_ids named g h))
        (kept-scan wid name db.teams sound.team_ids named) db.grants sound.subjects
      ∙ sym (keep-map (scan_grant db.teams) (λ g. not (given_to wid name g)) db.grants)

  -- DeleteTeam of Postgres refines DeleteTeam of Memory, for a name that is not empty.
  pub delete_team-Refines : Refines (delete_team ws name db) (Teams.delete_team ws name (view db))
  unfolding delete_team Teams.delete_team
  delete_team-Refines = with_id-Refines ws db _ _ λ w there.
      let seen = find?-map scan_team (is_team w.id name) db.teams in
      let present =
        All-find? (λ w. any (is_row w.id team_everyone) db.teams ≡ true) _ db.workspaces
          sound.built_in there in
      elim (Option-cases (find? (is_row w.id name) db.teams)) [
        | inl e ↦
            let nobody = find?-none (is_row w.id name) db.teams e in
            elim (Bool-cases (name == team_everyone)) [
              | inl n ↦ absurd (ground (arith, nobody, present, (eq_iff name team_everyone).0 n))
              | inr n ↦ rw (n, nobody, seen, e) (refl, refl)
            ]
        | inr (row, e) ↦
            let kind =
              All-find? (λ t. (t.kind == "everyone") ≡ (t.name == team_everyone)) _ db.teams
                sound.kinds e in
            let same = (eq_iff row.name name).0 (find?-is_row w.id name db.teams e).1 in
            let some_row =
              find?-some-any (is_row w.id name) (is_row w.id name) db.teams e
                (find?-passes (is_row w.id name) db.teams e) in
            elim (Bool-cases (name == team_everyone)) [
              | inl n ↦
                  let k : (row.kind == "everyone") ≡ true =
                    kind ∙ ap (λ s. s == team_everyone) same ∙ n in
                  rw (n, seen, e, k) (refl, refl)
              | inr n ↦
                  let k : (row.kind == "everyone") ≡ false =
                    kind ∙ ap (λ s. s == team_everyone) same ∙ n in
                  rw (n, some_row, seen, e, k)
                    (refl, ground (arith, left_teams w.id e, left_grants w.id))
            ]
      ]
