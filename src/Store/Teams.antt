-- ===== src/Store/Teams.antt =====
-- The methods of Memory on teams, pkg/store/memory.go. `cloneTeam` is the identity on values.
use shpyrd.Common.{
  String, Bool, true, false, not, ◌&&◌, ◌||◌, Option, none, some, List, [], ◌∷◌, ◌++◌, ◌==◌,
  if◌then◌else◌, any, keep, find?, update_first, delete_first, sort, to_lower, trim_space,
  text_less,
}
use shpyrd.Store.Types.{Team, Grant, not_found, built_in}
use shpyrd.Store.State.{Memory, Env, Result, ok, err, with_ws}

abbrev pub is_team : String → String → Team → Bool
is_team workspace_id name t = t.workspace_id == workspace_id && t.name == name

-- The loop that normalizeEmails and dedupe share: `seen` is the set of the texts put out so far.
unfoldable pub distinct_by : (String → String) → List String → List String → List String
distinct_by clean seen [] = []
distinct_by clean seen (s ∷ rest) =
    let c = clean s in
    let later = distinct_by clean seen rest in
    let later_seen = distinct_by clean (c ∷ seen) rest in
    if c == "" || any (λ x. x == c) seen then later else c ∷ later_seen

abbrev pub clean_email : String → String
clean_email e = to_lower (trim_space e)

-- normalizeEmails
unfoldable pub normalize_emails : List String → List String
unfolding distinct_by
normalize_emails = distinct_by clean_email []

-- dedupe
unfoldable pub dedupe : List String → List String
unfolding distinct_by
dedupe = distinct_by trim_space []

-- Memory.ListTeams
unfoldable pub list_teams : String → Memory → Result (List Team) × Memory
list_teams ws m = with_ws ws m λ w.
    (ok (sort (λ a b. text_less a.name b.name) (keep (λ t. t.workspace_id == w.id) m.teams)), m)

abbrev found_team : Memory → Option Team → Result Team × Memory
found_team m none = (err not_found, m)
found_team m (some t) = (ok t, m)

-- Memory.GetTeam
unfoldable pub get_team : String → String → Memory → Result Team × Memory
get_team ws name m = with_ws ws m λ w. found_team m (find? (is_team w.id name) m.teams)

-- The fields of an existing team that PutTeam writes.
abbrev pub rewritten : Env → Team → Team → Team
rewritten env t e = record e {
  description = t.description;
  members = normalize_emails t.members;
  groups = dedupe t.groups;
  platform_role = t.platform_role;
  updated_at = env.now;
}

abbrev pub new_team : Env → String → Team → Team
new_team env workspace_id t = record t {
  id = env.uuid 0;
  workspace_id = workspace_id;
  members = normalize_emails t.members;
  groups = dedupe t.groups;
  everyone = false;
  created_at = env.now;
  updated_at = env.now;
}

abbrev put_found : Env → String → Team → Memory → Option Team → Result (Team × Bool) × Memory
put_found env wid t m (some e) = if e.everyone then (err built_in, m) else (
  ok (rewritten env t e, false),
  record m { teams = update_first (is_team wid t.name) (rewritten env t) m.teams },
)
put_found env wid t m none =
    let n = new_team env wid t in (ok (n, true), record m { teams = m.teams ++ n ∷ [] })

-- Memory.PutTeam: the team, and whether it is new.
unfoldable pub put_team : Env → String → Team → Memory → Result (Team × Bool) × Memory
put_team env ws t m = with_ws ws m λ w. put_found env w.id t m (find? (is_team w.id t.name) m.teams)

abbrev pub given_to : String → String → Grant → Bool
given_to workspace_id team g = g.workspace_id == workspace_id && g.team == team

abbrev delete_found : String → String → Memory → Option Team → Result (Unit {0}) × Memory
delete_found wid name m none = (err not_found, m)
delete_found wid name m (some t) = if t.everyone then (err built_in, m) else (
  ok tt,
  record m {
    teams = delete_first (is_team wid name) m.teams;
    grants = keep (λ g. not (given_to wid name g)) m.grants;
  },
)

-- Memory.DeleteTeam
unfoldable pub delete_team : String → String → Memory → Result (Unit {0}) × Memory
delete_team ws name m =
    with_ws ws m λ w. delete_found w.id name m (find? (is_team w.id name) m.teams)
