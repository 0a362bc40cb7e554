-- ===== src/Store/Tokens.antt =====
-- The methods of Memory on API tokens, pkg/store/memory.go.
use shpyrd.Common.{
  ℕ, ◌-◌, String, Bool, false, ◌&&◌, ◌||◌, Option, none, some, List, [], ◌∷◌, ◌++◌, map, ltb, ◌==◌,
  if◌then◌else◌, any, keep, find?, update_first, delete_first, sort, to_lower, text_less,
  equal_fold,
}
use shpyrd.Store.Types.{ApiToken, not_found, conflict}
use shpyrd.Store.State.{Memory, Env, Result, ok, err, with_ws, TokenEntry}

abbrev pub is_token : String → String → String → TokenEntry → Bool
is_token workspace_id owner name e =
    e.token.workspace_id == workspace_id && e.token.owner_email == owner && e.token.name == name

-- The token that CreateToken stores.
abbrev pub new_token : Env → String → ApiToken → ApiToken
new_token env workspace_id t = record t {
  id = env.uuid 0;
  workspace_id = workspace_id;
  owner_email = to_lower t.owner_email;
  created_at = env.now;
}

-- Memory.CreateToken. `lastUpdated` starts as the zero time.
unfoldable pub create_token : Env → String → ApiToken → String → Memory → Result ApiToken × Memory
create_token env ws t hash m = with_ws ws m λ w.
    let n = new_token env w.id t in
    if any (is_token w.id n.owner_email n.name) m.tokens then (err conflict, m) else (
      ok n,
      record m { tokens = m.tokens ++ record { token = n; hash = hash; last_updated = 0 } ∷ [] },
    )

-- ExpiresAt is set and past.
abbrev pub token_expired : ℕ → ApiToken → Bool
token_expired now t = elim t.expires_at [ none ↦ false | some at ↦ ltb at now ]

-- time.Minute, in nanoseconds
abbrev pub minute : ℕ
minute = 60000000000

-- The use of a token, recorded where the last record is over a minute old. A record ahead of the
-- clock is not: truncated subtraction gives 0 for it.
abbrev pub used_at : ℕ → TokenEntry → TokenEntry
used_at now e =
    if ltb minute (now - e.last_updated)
    then record e { token = record (e.token) { last_used_at = some now }; last_updated = now }
    else e

abbrev lookup_found : Env → String → Memory → Option TokenEntry → Option ApiToken × Memory
lookup_found env hash m none = (none, m)
lookup_found env hash m (some e) = if token_expired env.now e.token then (none, m) else (
  some (used_at env.now e).token,
  record m { tokens = update_first (λ x. x.hash == hash) (used_at env.now) m.tokens },
)

-- Memory.LookupToken, which never fails: nil is `none`.
unfoldable pub lookup_token : Env → String → Memory → Option ApiToken × Memory
lookup_token env hash m = lookup_found env hash m (find? (λ e. e.hash == hash) m.tokens)

abbrev pub is_listed : String → String → TokenEntry → Bool
is_listed workspace_id owner e =
    e.token.workspace_id == workspace_id && (owner == "" || equal_fold e.token.owner_email owner)

-- Memory.ListTokens
unfoldable pub list_tokens : String → String → Memory → Result (List ApiToken) × Memory
list_tokens ws owner m = with_ws ws m λ w. (
  ok (
      sort (λ a b. text_less a.name b.name)
        (map (λ e. e.token) (keep (is_listed w.id owner) m.tokens))),
  m,
)

abbrev pub has_token_id : String → String → TokenEntry → Bool
has_token_id workspace_id id e = e.token.workspace_id == workspace_id && e.token.id == id

abbrev delete_found : String → String → Memory → Option TokenEntry → Result (Unit {0}) × Memory
delete_found wid id m none = (err not_found, m)
delete_found wid id m (some e) =
    (ok tt, record m { tokens = delete_first (has_token_id wid id) m.tokens })

-- Memory.DeleteToken
unfoldable pub delete_token : String → String → Memory → Result (Unit {0}) × Memory
delete_token ws id m =
    with_ws ws m λ w. delete_found w.id id m (find? (has_token_id w.id id) m.tokens)
