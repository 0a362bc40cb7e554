-- ===== src/Store/State.antt =====
-- The struct Memory of pkg/store/memory.go, and what every method begins with: the lock is held
-- for the whole method, so a method is one step from state to state.
use shpyrd.Common.{ℕ, String, ◌≡◌, Option, none, some, List, [], inl, inr, lookup, Option-cases}
use shpyrd.Store.Types.{
  Workspace, DomainClaim, Identity, Team, Grant, Session, Code, ApiToken, Error, not_found,
}

pub record TokenEntry : Type 0 where
  pub token : ApiToken
  pub hash : String
  pub last_updated : ℕ

pub record Memory : Type 0 where
  pub workspaces : List (String × Workspace)
  pub identities : List Identity
  pub teams : List Team
  pub grants : List Grant
  pub sessions : List (String × Session)
  pub codes : List (String × Code)
  pub domains : List DomainClaim
  pub tokens : List TokenEntry

abbrev pub empty_memory : Memory
empty_memory = record {
  workspaces = [];
  identities = [];
  teams = [];
  grants = [];
  sessions = [];
  codes = [];
  domains = [];
  tokens = [];
}

-- What a method draws from outside: the clock, read as one instant, and the identifiers that
-- `uuid.NewString` returns, in the order of the calls.
pub record Env : Type 0 where
  pub now : ℕ
  pub uuid : ℕ → String

pub data Result {ℓ} (A : Type ℓ) : Type ℓ where
  ok : A → Result A
  err : Error → Result A

-- The head of most methods: `w, err := m.ws(slug)`, with a return of ErrNotFound.
abbrev with_found {ℓ} :
    {A : Type ℓ} → Option Workspace → Memory → (Workspace → Result A × Memory) → Result A × Memory
with_found none m body = (err not_found, m)
with_found (some w) m body = body w

unfoldable pub with_ws {ℓ} :
    {A : Type ℓ} → String → Memory → (Workspace → Result A × Memory) → Result A × Memory
with_ws slug m body = with_found (lookup slug m.workspaces) m body

-- Whatever holds of the state before and of the body's state holds after the method.
pub with_ws-after {ℓ κ} :
    {A : Type ℓ} (P : Memory → Type κ) (slug : String) (m : Memory)
    (body : Workspace → Result A × Memory)
    → P m
    → ((w : Workspace) → lookup slug m.workspaces ≡ some w → P (body w).1)
    → P (with_ws slug m body).1
unfolding with_ws
with_ws-after P slug m body h k = elim (Option-cases (lookup slug m.workspaces)) [
  | inl e ↦ rw e h
  | inr (w, e) ↦ rw e (k w e)
]
