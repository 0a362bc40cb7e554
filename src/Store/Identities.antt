-- ===== src/Store/Identities.antt =====
-- The methods of Memory on the people that a workspace has seen, pkg/store/memory.go.
use shpyrd.Common.{
  String, Bool, ◌&&◌, Option, none, some, List, [], ◌∷◌, ◌++◌, ◌==◌, if◌then◌else◌, keep, find?,
  update_first, delete_first, sort, to_lower, trim_space, text_less, equal_fold,
}
use shpyrd.Store.Types.{Identity, status_active, not_found}
use shpyrd.Store.State.{Memory, Env, Result, ok, err, with_ws}

-- append([]string(nil), groups...), which is nil for no elements
abbrev pub copy_groups : Option (List String) → Option (List String)
copy_groups none = none
copy_groups (some []) = none
copy_groups (some (g ∷ gs)) = some (g ∷ gs)

abbrev pub is_person : String → String → String → Identity → Bool
is_person workspace_id realm email it =
    it.workspace_id == workspace_id && it.realm == realm && it.email == email

abbrev pub has_email : String → String → Identity → Bool
has_email workspace_id email it = it.workspace_id == workspace_id && it.email == email

abbrev pub realm_of : Identity → String
realm_of id = if id.realm == "" then "workspace" else id.realm

abbrev new_groups : Option (List String) → Option (List String) → Option (List String)
new_groups none old = old
new_groups (some gs) old = copy_groups (some gs)

-- What a later sign-in writes over the record of a person.
abbrev pub seen_again : Env → Identity → Identity → Identity
seen_again env id it = record it {
  name = if id.name == "" then it.name else id.name;
  provider = if id.provider == "" then it.provider else id.provider;
  groups = new_groups id.groups it.groups;
  last_seen_at = env.now;
}

-- The record of a first sign-in.
abbrev pub first_seen : Env → String → String → String → Identity → Identity
first_seen env workspace_id realm email id = record {
  id = env.uuid 0;
  workspace_id = workspace_id;
  realm = realm;
  email = email;
  name = id.name;
  provider = id.provider;
  groups = copy_groups id.groups;
  status = status_active;
  first_seen_at = env.now;
  last_seen_at = env.now;
}

abbrev touch_found :
    Env → String → String → String → Identity → Memory → Option Identity → Result Identity × Memory
touch_found env wid realm email id m (some it) = (
  ok (seen_again env id it),
  record m {
    identities = update_first (is_person wid realm email) (seen_again env id) m.identities;
  },
)
touch_found env wid realm email id m none =
    let it = first_seen env wid realm email id in
    (ok it, record m { identities = m.identities ++ it ∷ [] })

-- Memory.TouchIdentity
unfoldable pub touch_identity : Env → String → Identity → Memory → Result Identity × Memory
touch_identity env ws id m = with_ws ws m λ w.
    let email = to_lower (trim_space id.email) in
    let realm = realm_of id in
    touch_found env w.id realm email id m (find? (is_person w.id realm email) m.identities)

-- Memory.ListIdentities
unfoldable pub list_identities : String → Memory → Result (List Identity) × Memory
list_identities ws m = with_ws ws m λ w. (
  ok (sort (λ a b. text_less a.email b.email) (keep (λ it. it.workspace_id == w.id) m.identities)),
  m,
)

abbrev found_identity : Memory → Option Identity → Result Identity × Memory
found_identity m none = (err not_found, m)
found_identity m (some it) = (ok it, m)

-- Memory.GetIdentity
unfoldable pub get_identity : String → String → Memory → Result Identity × Memory
get_identity ws email m = with_ws ws m λ w.
    found_identity m
      (find? (λ it. it.workspace_id == w.id && equal_fold it.email email) m.identities)

abbrev status_found : String → String → String → Memory → Option Identity → Result Identity × Memory
status_found wid email status m none = (err not_found, m)
status_found wid email status m (some it) = (
  ok (record it { status = status }),
  record m {
    identities =
        update_first (has_email wid email) (λ x. record x { status = status }) m.identities;
  },
)

-- Memory.SetIdentityStatus
unfoldable pub set_identity_status : String → String → String → Memory → Result Identity × Memory
set_identity_status ws email status m = with_ws ws m λ w.
    let e = to_lower email in status_found w.id e status m (find? (has_email w.id e) m.identities)

abbrev delete_found : String → String → Memory → Option Identity → Result (Unit {0}) × Memory
delete_found wid email m none = (err not_found, m)
delete_found wid email m (some it) =
    (ok tt, record m { identities = delete_first (has_email wid email) m.identities })

-- Memory.DeleteIdentity
unfoldable pub delete_identity : String → String → Memory → Result (Unit {0}) × Memory
delete_identity ws email m =
    with_ws ws m
      λ w. let e = to_lower email in delete_found w.id e m (find? (has_email w.id e) m.identities)
