-- ===== src/Store/Domains.antt =====
-- The methods of Memory on domain claims, pkg/store/memory.go.
use shpyrd.Common.{
  ℕ, String, Bool, ◌&&◌, Option, none, some, List, [], ◌∷◌, ◌++◌, ◌==◌, keep, find?, update_first,
  delete_first, sort, to_lower, trim_space, text_less,
}
use shpyrd.Store.Types.{DomainClaim, not_found}
use shpyrd.Store.State.{Memory, Env, Result, ok, err, with_ws}

abbrev pub is_claim : String → String → DomainClaim → Bool
is_claim workspace_id domain d = d.workspace_id == workspace_id && d.domain == domain

-- Memory.ListDomainClaims
unfoldable pub list_domain_claims : String → Memory → Result (List DomainClaim) × Memory
list_domain_claims ws m = with_ws ws m λ w. (
  ok (sort (λ a b. text_less a.domain b.domain) (keep (λ d. d.workspace_id == w.id) m.domains)),
  m,
)

abbrev new_claim : Env → String → String → String → DomainClaim
new_claim env workspace_id domain connector = record {
  id = env.uuid 0;
  workspace_id = workspace_id;
  domain = domain;
  token = env.uuid 1;
  connector = connector;
  verified_at = none;
  created_at = env.now;
}

abbrev put_found :
    Env → String → String → String → Memory → Option DomainClaim → Result DomainClaim × Memory
put_found env id domain connector m (some d) = (
  ok (record d { connector = connector }),
  record m {
    domains = update_first (is_claim id domain) (λ x. record x { connector = connector }) m.domains;
  },
)
put_found env id domain connector m none =
    let d = new_claim env id domain connector in (ok d, record m { domains = m.domains ++ d ∷ [] })

-- Memory.PutDomainClaim
unfoldable pub put_domain_claim :
    Env → String → String → String → Memory → Result DomainClaim × Memory
put_domain_claim env ws domain connector m = with_ws ws m λ w.
    let name = to_lower (trim_space domain) in
    put_found env w.id name connector m (find? (is_claim w.id name) m.domains)

abbrev mark_found : ℕ → String → String → Memory → Option DomainClaim → Result DomainClaim × Memory
mark_found at id domain m none = (err not_found, m)
mark_found at id domain m (some d) = (
  ok (record d { verified_at = some at }),
  record m {
    domains = update_first (is_claim id domain) (λ x. record x { verified_at = some at }) m.domains;
  },
)

-- Memory.MarkDomainVerified
unfoldable pub mark_domain_verified : String → String → ℕ → Memory → Result DomainClaim × Memory
mark_domain_verified ws domain at m = with_ws ws m λ w.
    let name = to_lower domain in mark_found at w.id name m (find? (is_claim w.id name) m.domains)

abbrev delete_found : String → String → Memory → Option DomainClaim → Result (Unit {0}) × Memory
delete_found id domain m none = (err not_found, m)
delete_found id domain m (some d) =
    (ok tt, record m { domains = delete_first (is_claim id domain) m.domains })

-- Memory.DeleteDomainClaim
unfoldable pub delete_domain_claim : String → String → Memory → Result (Unit {0}) × Memory
delete_domain_claim ws domain m = with_ws ws m λ w.
    let name = to_lower domain in delete_found w.id name m (find? (is_claim w.id name) m.domains)
