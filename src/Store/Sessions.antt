-- ===== src/Store/Sessions.antt =====
-- The methods of Memory on sessions and one-time codes, pkg/store/memory.go.
use shpyrd.Common.{
  ℕ, String, Bool, not, ◌||◌, Option, none, some, ltb, ◌==◌, if◌then◌else◌, length, keep, lookup,
  insert, remove, update_first,
}
use shpyrd.Store.Types.{Session, Code, not_found}
use shpyrd.Store.State.{Memory, Env, Result, ok, err, with_ws}

-- Memory.PutSession
unfoldable pub put_session : String → Session → Memory → Result (Unit {0}) × Memory
put_session ws sess m = with_ws ws m λ w.
    (ok tt, record m { sessions = insert sess.id (record sess { workspace_id = w.id }) m.sessions })

abbrev found_session : Memory → Option Session → Result Session × Memory
found_session m none = (err not_found, m)
found_session m (some s) = (ok s, m)

-- Memory.GetSession
unfoldable pub get_session : String → Memory → Result Session × Memory
get_session id m = found_session m (lookup id m.sessions)

abbrev touch_found : String → ℕ → Memory → Option Session → Result (Unit {0}) × Memory
touch_found id at m none = (err not_found, m)
touch_found id at m (some s) = (
  ok tt,
  record m {
    sessions =
        update_first (λ e. e.0 == id) (λ e. (e.0, record (e.1) { last_seen_at = at })) m.sessions;
  },
)

-- Memory.TouchSession
unfoldable pub touch_session : String → ℕ → Memory → Result (Unit {0}) × Memory
touch_session id at m = touch_found id at m (lookup id m.sessions)

-- Memory.DeleteSession
unfoldable pub delete_session : String → Memory → Memory
delete_session id m = record m { sessions = remove id m.sessions }

-- Created before the first time, or not seen since the second.
abbrev pub is_stale : ℕ → ℕ → String × Session → Bool
is_stale created_before seen_before e =
    ltb e.1.created_at created_before || ltb e.1.last_seen_at seen_before

-- Memory.PurgeSessions: how many went.
unfoldable pub purge_sessions : ℕ → ℕ → Memory → ℕ × Memory
purge_sessions created_before seen_before m = (
  length (keep (is_stale created_before seen_before) m.sessions),
  record m { sessions = keep (λ e. not (is_stale created_before seen_before e)) m.sessions },
)

-- Memory.CountSessions
unfoldable pub count_sessions : String → Memory → Result ℕ × Memory
count_sessions ws m =
    with_ws ws m λ w. (ok (length (keep (λ e. e.1.workspace_id == w.id) m.sessions)), m)

-- now.After(c.ExpiresAt)
abbrev pub is_expired : ℕ → Code → Bool
is_expired now c = ltb c.expires_at now

-- Memory.PutCode, which drops the expired codes first.
unfoldable pub put_code : Env → Code → Memory → Memory
put_code env c m = record m {
  codes = insert c.code c (keep (λ e. not (is_expired env.now e.1)) m.codes);
}

abbrev take_found : Env → String → Memory → Option Code → Result Code × Memory
take_found env code m none = (err not_found, m)
take_found env code m (some c) =
    let after = record m { codes = remove code m.codes } in
    if is_expired env.now c then (err not_found, after) else (ok c, after)

-- Memory.TakeCode. The code is gone afterwards, also where it had expired.
unfoldable pub take_code : Env → String → Memory → Result Code × Memory
take_code env code m = take_found env code m (lookup code m.codes)
