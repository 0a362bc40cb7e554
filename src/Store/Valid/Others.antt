-- ===== src/Store/Valid/Others.antt =====
-- The methods on domain claims, tokens, sessions and codes, and the invariant of the store.
use shpyrd.Common.{
  ℕ, String, ◌≡◌, refl, some, List, arith, ◌==◌, inl, inr, Bool-cases, any, remove, lookup, All,
  All-insert, All-keep, All-update_first, IsUnique, IsUnique-snoc, IsUnique-update_first,
  IsUnique-delete_first, find?, find?-none, Option-cases, to_lower, trim_space,
}
use shpyrd.Store.Types.{DomainClaim, Session, Code, ApiToken}
use shpyrd.Store.State.{Memory, Env, TokenEntry, with_ws-after}
use shpyrd.Store.Domains.{is_claim, put_domain_claim, mark_domain_verified, delete_domain_claim}
use shpyrd.Store.Tokens.{
  is_token, token_expired, used_at, has_token_id, create_token, lookup_token, delete_token,
}
use shpyrd.Store.Sessions.{
  put_session, touch_session, delete_session, purge_sessions, is_expired, put_code, take_code,
}
use shpyrd.Store.Valid.{same_claim, same_token, IsValid}

abbrev Keyed : String × Session → Type 0
Keyed e = e.0 ≡ e.1.id

module _ (m : Memory) (v : IsValid m) where
  -- The fields of the invariant over other collections are as they were.
  replaced :
      (domains : List DomainClaim) (tokens : List TokenEntry) (sessions : List (String × Session))
      (codes : List (String × Code))
      → IsUnique same_claim domains
      → IsUnique same_token tokens
      → All Keyed sessions
      → IsValid
          (record m { domains = domains; tokens = tokens; sessions = sessions; codes = codes })
  replaced domains tokens sessions codes d t s = record {
    workspaces = v.workspaces;
    teams = v.teams;
    grants = v.grants;
    people = v.people;
    claims = d;
    tokens = t;
    sessions = s;
  }

  abbrev with_domains :
      (domains : List DomainClaim)
      → IsUnique same_claim domains
      → IsValid (record m { domains = domains })
  with_domains domains d = replaced domains m.tokens m.sessions m.codes d v.tokens v.sessions

  abbrev with_tokens :
      (tokens : List TokenEntry)
      → IsUnique same_token tokens
      → IsValid (record m { tokens = tokens })
  with_tokens tokens t = replaced m.domains tokens m.sessions m.codes v.claims t v.sessions

  abbrev with_sessions :
      (sessions : List (String × Session))
      → All Keyed sessions
      → IsValid (record m { sessions = sessions })
  with_sessions sessions s = replaced m.domains m.tokens sessions m.codes v.claims v.tokens s

  abbrev with_codes : (codes : List (String × Code)) → IsValid (record m { codes = codes })
  with_codes codes = replaced m.domains m.tokens m.sessions codes v.claims v.tokens v.sessions

  pub put_domain_claim-IsValid :
      (env : Env) (ws domain connector : String)
      → IsValid (put_domain_claim env ws domain connector m).1
  unfolding put_domain_claim
  put_domain_claim-IsValid env ws domain connector = with_ws-after IsValid ws m _ v λ w _.
      let p = is_claim w.id (to_lower (trim_space domain)) in
      elim (Option-cases (find? p m.domains)) [
        | inl e ↦ rw e (
            with_domains _
              (IsUnique-snoc same_claim m.domains _ (find?-none p m.domains e) v.claims))
        | inr (d, e) ↦ rw e (
            with_domains _ (
              IsUnique-update_first same_claim p (λ x. record x { connector = connector })
                (λ a b. refl) (λ a b. refl) m.domains v.claims))
      ]

  pub mark_domain_verified-IsValid :
      (ws domain : String) (at : ℕ) → IsValid (mark_domain_verified ws domain at m).1
  unfolding mark_domain_verified
  mark_domain_verified-IsValid ws domain at = with_ws-after IsValid ws m _ v λ w _.
      let p = is_claim w.id (to_lower domain) in
      elim (Option-cases (find? p m.domains)) [
        | inl e ↦ rw e v
        | inr (d, e) ↦ rw e (
            with_domains _ (
              IsUnique-update_first same_claim p (λ x. record x { verified_at = some at })
                (λ a b. refl) (λ a b. refl) m.domains v.claims))
      ]

  pub delete_domain_claim-IsValid :
      (ws domain : String) → IsValid (delete_domain_claim ws domain m).1
  unfolding delete_domain_claim
  delete_domain_claim-IsValid ws domain = with_ws-after IsValid ws m _ v λ w _.
      let p = is_claim w.id (to_lower domain) in
      elim (Option-cases (find? p m.domains)) [
        | inl e ↦ rw e v
        | inr (d, e) ↦ rw e (with_domains _ (IsUnique-delete_first same_claim p m.domains v.claims))
      ]

  pub create_token-IsValid :
      (env : Env) (ws : String) (t : ApiToken) (hash : String)
      → IsValid (create_token env ws t hash m).1
  unfolding create_token
  create_token-IsValid env ws t hash = with_ws-after IsValid ws m _ v λ w _.
      elim (Bool-cases (any (is_token w.id (to_lower t.owner_email) t.name) m.tokens)) [
        | inl e ↦ rw e v
        | inr e ↦ rw e (with_tokens _ (IsUnique-snoc same_token m.tokens _ e v.tokens))
      ]

  pub lookup_token-IsValid : (env : Env) (hash : String) → IsValid (lookup_token env hash m).1
  unfolding lookup_token
  lookup_token-IsValid env hash = elim (Option-cases (find? (λ x. x.hash == hash) m.tokens)) [
    | inl e ↦ rw e v
    | inr (t, e) ↦ elim (Bool-cases (token_expired env.now t.token)) [
      | inl b ↦ rw (e, b) v
      | inr b ↦
          rw (e, b)
            (with_tokens _ (
              IsUnique-update_first same_token (λ x. x.hash == hash) (used_at env.now)
                (λ a b. ground arith) (λ a b. ground arith) m.tokens v.tokens))
    ]
  ]

  pub delete_token-IsValid : (ws id : String) → IsValid (delete_token ws id m).1
  unfolding delete_token
  delete_token-IsValid ws id = with_ws-after IsValid ws m _ v λ w _.
      elim (Option-cases (find? (has_token_id w.id id) m.tokens)) [
        | inl e ↦ rw e v
        | inr (t, e) ↦ rw e (
            with_tokens _
              (IsUnique-delete_first same_token (has_token_id w.id id) m.tokens v.tokens))
      ]

  pub put_session-IsValid : (ws : String) (s : Session) → IsValid (put_session ws s m).1
  unfolding put_session
  put_session-IsValid ws s =
      with_ws-after IsValid ws m _ v
        λ w _. with_sessions _ (All-insert Keyed s.id _ m.sessions refl v.sessions)

  pub touch_session-IsValid : (id : String) (at : ℕ) → IsValid (touch_session id at m).1
  unfolding touch_session
  touch_session-IsValid id at = elim (Option-cases (lookup id m.sessions)) [
    | inl e ↦ rw e v
    | inr (s, e) ↦ rw e (
        with_sessions _ (
          All-update_first Keyed (λ e. e.0 == id) (λ e. (e.0, record (e.1) { last_seen_at = at }))
            (λ _ _ h. h) m.sessions v.sessions))
  ]

  pub delete_session-IsValid : (id : String) → IsValid (delete_session id m)
  unfolding delete_session remove
  delete_session-IsValid id = with_sessions _ (All-keep Keyed _ m.sessions v.sessions)

  pub purge_sessions-IsValid : (a b : ℕ) → IsValid (purge_sessions a b m).1
  unfolding purge_sessions
  purge_sessions-IsValid a b = with_sessions _ (All-keep Keyed _ m.sessions v.sessions)

  pub put_code-IsValid : (env : Env) (c : Code) → IsValid (put_code env c m)
  unfolding put_code
  put_code-IsValid env c = with_codes _

  pub take_code-IsValid : (env : Env) (code : String) → IsValid (take_code env code m).1
  unfolding take_code
  take_code-IsValid env code = elim (Option-cases (lookup code m.codes)) [
    | inl e ↦ rw e v
    | inr (c, e) ↦ elim (Bool-cases (is_expired env.now c)) [
      | inl b ↦ rw (e, b) (with_codes (remove code m.codes))
      | inr b ↦ rw (e, b) (with_codes (remove code m.codes))
    ]
  ]
