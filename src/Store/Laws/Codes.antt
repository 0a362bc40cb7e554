-- ===== src/Store/Laws/Codes.antt =====
-- PutCode, TakeCode and PurgeSessions.
use shpyrd.Common.{
  ℕ, String, ◌≡◌, refl, false, not, ◌+◌, arith, inl, inr, Bool-cases, Option-cases, any,
  any-keep_refused, length, length-keep, eq_refl, lookup, lookup-insert, lookup-remove,
}
use shpyrd.Store.Types.{Code, not_found}
use shpyrd.Store.State.{Memory, Env, ok, err}
use shpyrd.Store.Sessions.{put_code, take_code, is_expired, purge_sessions, is_stale}

-- Whatever the first TakeCode of a code answers, a second one answers ErrNotFound and changes
-- nothing.
pub take_code_once :
    (env later : Env) (code : String) (m : Memory)
    → take_code later code (take_code env code m).1 ≡ (err not_found, (take_code env code m).1)
unfolding take_code
take_code_once env later code m = elim (Option-cases (lookup code m.codes)) [
  | inl e ↦ rw (e, e) refl
  | inr (c, e) ↦ elim (Bool-cases (is_expired env.now c)) [
    | inl x ↦ rw (e, x, lookup-remove, eq_refl) refl
    | inr x ↦ rw (e, x, lookup-remove, eq_refl) refl
  ]
]

-- A code that was put is what TakeCode under its name returns, if it has not expired by then.
pub take_code-put_code :
    (env later : Env) (c : Code) (m : Memory)
    → is_expired later.now c ≡ false
    → (take_code later c.code (put_code env c m)).0 ≡ ok c
unfolding take_code put_code
take_code-put_code env later c m x = rw (lookup-insert, eq_refl, x) refl

-- PurgeSessions counts what it removes: the count and the sessions left make up the sessions
-- before, and of those left none is stale.
pub purge_sessions-length :
    (created_before seen_before : ℕ) (m : Memory)
    → (length (purge_sessions created_before seen_before m).1.sessions
          + (purge_sessions created_before seen_before m).0
        ≡ length m.sessions)
      × (any
            (is_stale created_before seen_before)
            (purge_sessions created_before seen_before m).1.sessions
          ≡ false)
unfolding purge_sessions
purge_sessions-length created_before seen_before m =
    let stale = is_stale created_before seen_before in
    (
      omega (arith, length-keep stale m.sessions),
      any-keep_refused (λ e. not (stale e)) stale (λ e k. ground arith) m.sessions,
    )
