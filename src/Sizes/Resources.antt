-- ===== src/Sizes/Resources.antt =====
-- Resources and Resolve of pkg/sizes/sizes.go. A resource list is an association list.
use shpyrd.Common.{
  ℕ, String, Bool, true, false, ◌*◌, ◌&&◌, ◌||◌, Option, none, some, List, [], ◌∷◌, ◌==◌,
  if◌then◌else◌, lookup, insert,
}
use shpyrd.Sizes.Quantities.{Quantities}
use shpyrd.Sizes.Catalog.{Size, Catalog, dedicated, get}

abbrev pub cpu : String
cpu = "cpu"

abbrev pub memory : String
memory = "memory"

-- BurstFactor
abbrev pub burst_factor : ℕ
burst_factor = 4

-- corev1.ResourceRequirements, the fields the program reads
pub record Requirements (q : Quantities) : Type 0 where
  pub requests : List (String × q.Quantity)
  pub limits : List (String × q.Quantity)

module _ (q : Quantities) where
  -- The limits and requests of a size whose quantities parse
  abbrev pub of_size : String → q.Quantity → q.Quantity → Requirements q
  of_size kind c m = record {
    requests = (cpu, c) ∷ (memory, m) ∷ [];
    limits =
        if kind == dedicated
        then (memory, m) ∷ (cpu, c) ∷ []
        else (memory, m) ∷ (cpu, q.new_milli (q.milli_value c * burst_factor)) ∷ [];
  }

  abbrev pub parsed : String → Option (q.Quantity) → Option (q.Quantity) → Option (Requirements q)
  parsed kind none m = none
  parsed kind (some c) none = none
  parsed kind (some c) (some m) = some (of_size kind c m)

  -- Size.Resources; `none` is a panic of MustParse.
  unfoldable pub resources : Size → Option (Requirements q)
  resources s = parsed s.kind (q.parse s.cpu) (q.parse s.memory)

  -- An explicit limit on a resource whose request comes from a shared size
  abbrev pub lowered :
      String
      → q.Quantity
      → List (String × q.Quantity)
      → Option (q.Quantity)
      → List (String × q.Quantity)
  lowered k v requests none = requests
  lowered k v requests (some cur) = if q.more cur v then insert k v requests else requests

  -- One turn of the loop over the explicit limits
  abbrev pub merge_limit : String → String → q.Quantity → Requirements q → Requirements q
  merge_limit kind k v r = record {
    requests =
        if (kind == dedicated) || (k == memory)
        then insert k v r.requests
        else lowered k v r.requests (lookup k r.requests);
    limits = insert k v r.limits;
  }

  unfoldable pub merge_limits :
      String → List (String × q.Quantity) → Requirements q → Requirements q
  merge_limits kind [] r = r
  merge_limits kind ((k, v) ∷ rest) r = merge_limits kind rest (merge_limit kind k v r)

  unfoldable pub merge_requests : List (String × q.Quantity) → Requirements q → Requirements q
  merge_requests [] r = r
  merge_requests ((k, v) ∷ rest) r =
      merge_requests rest (record { requests = insert k v r.requests; limits = r.limits })

  -- What Resolve returns, or the panic of Resources.
  pub data Resolved : Type 0 where
    resolved : Requirements q → String → Resolved
    unknown_size panic : Resolved

  abbrev pub is_empty : List (String × q.Quantity) → Bool
  is_empty [] = true
  is_empty (e ∷ rest) = false

  abbrev pub with_override : Size → Requirements q → Option (Requirements q) → Resolved
  with_override s override none = panic
  with_override s override (some base) =
      if is_empty override.requests && is_empty override.limits
      then resolved base s.name
      else resolved (merge_requests override.requests (merge_limits s.kind override.limits base)) ""

  abbrev pub resolve_found : Requirements q → Option Size → Resolved
  resolve_found override none = unknown_size
  resolve_found override (some s) = with_override s override (resources s)

  -- Catalog.Resolve
  unfoldable pub resolve : String → Requirements q → Catalog → Resolved
  resolve size_name override c =
      resolve_found override (get (if size_name == "" then c.default else size_name) c)
