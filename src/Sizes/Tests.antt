-- ===== src/Sizes/Tests.antt =====
-- Catalogs at concrete inputs, with quantities read as whole numbers by a table.
use shpyrd.Common.{
  ℕ, String, ◌≡◌, refl, true, false, none, some, List, [], ◌∷◌, ltb, ◌+◌, ◌↔◌, inr, any, find?,
  lookup, insert, update_first, delete_first, matches_name,
}
use shpyrd.Sizes.Quantities.{Quantities}
use shpyrd.Sizes.Catalog.{
  Size, Catalog, validate, validate_size, validate_sizes, upsert, remove_size, get,
}
use shpyrd.Sizes.Resources.{
  Requirements, resolve, resolved, unknown_size, resources, merge_limits, merge_requests,
}
use shpyrd.Sizes.Valid.{IsValid, validate-IsValid, named}
use shpyrd.Sizes.Changes.{upsert-IsValid}
use shpyrd.Sizes.Resolve.{resolve-IsValid, resolve-explicit, resolve-dedicated, chosen}

-- In thousandths of a core and in mebibytes
abbrev table : List (String × ℕ)
table = ("0.25", 250) ∷ ("0.5", 500) ∷ ("1", 1000) ∷ ("2", 2000) ∷ ("64Mi", 64) ∷ ("1Gi", 1024) ∷ []

abbrev pub numbers : Quantities
numbers = record {
  Quantity = ℕ;
  parse = λ s. lookup s table;
  is_positive = λ n. ltb 0 n;
  more = λ a b. ltb b a;
  milli_value = λ n. n;
  new_milli = λ n. n;
  add = λ a b. a + b;
  nothing = 0;
}

abbrev size : String → String → String → String → Size
size name kind cpu memory = record {
  name = name;
  kind = kind;
  cpu = cpu;
  memory = memory;
  description = "";
}

abbrev pub catalog : Catalog
catalog = record {
  default = "shared-s";
  sizes = size "shared-s" "shared" "0.5" "64Mi" ∷ size "dedicated-s" "dedicated" "1" "1Gi" ∷ [];
}

accepted : validate numbers catalog ≡ none
unfolding validate validate_sizes validate_size any lookup matches_name
accepted = refl

validate-IsValid_example : (validate numbers catalog ≡ none) ↔ IsValid numbers catalog
validate-IsValid_example = validate-IsValid numbers catalog

catalog-IsValid : IsValid numbers catalog
catalog-IsValid = (validate-IsValid numbers catalog).0 accepted

abbrev bigger : Catalog
bigger = record {
  default = "shared-s";
  sizes = size "shared-s" "shared" "1" "1Gi" ∷ size "dedicated-s" "dedicated" "1" "1Gi" ∷ [];
}

upserts : upsert numbers (size "shared-s" "shared" "1" "1Gi") catalog ≡ inr bigger
unfolding upsert validate_size any lookup matches_name find? update_first
upserts = refl

upsert-IsValid_example : IsValid numbers bigger
upsert-IsValid_example =
    upsert-IsValid numbers (size "shared-s" "shared" "1" "1Gi") catalog bigger catalog-IsValid
      upserts

abbrev smaller : Catalog
smaller = record { default = "shared-s"; sizes = size "shared-s" "shared" "0.5" "64Mi" ∷ [] }

removes : remove_size "dedicated-s" catalog ≡ inr smaller
unfolding remove_size find? delete_first
removes = refl

abbrev no_override : Requirements numbers
no_override = record { requests = []; limits = [] }

resolve-IsValid_example :
    (any (named (chosen "" catalog)) catalog.sizes ≡ true
      → (r : Requirements numbers) × (n : String) × (resolve numbers "" no_override catalog
          ≡ resolved r n))
    × (any (named (chosen "" catalog)) catalog.sizes ≡ false
        → resolve numbers "" no_override catalog ≡ unknown_size)
    × (◌≡◌ {A = String} "" "" → any (named (chosen "" catalog)) catalog.sizes ≡ true)
resolve-IsValid_example = resolve-IsValid numbers "" no_override catalog catalog-IsValid

abbrev double_cpu : Requirements numbers
double_cpu = record { requests = []; limits = ("cpu", 2000) ∷ [] }

abbrev doubled : Requirements numbers
doubled = record {
  requests = ("cpu", 2000) ∷ ("memory", 1024) ∷ [];
  limits = ("memory", 1024) ∷ ("cpu", 2000) ∷ [];
}

doubles : resolve numbers "dedicated-s" double_cpu catalog ≡ resolved doubled ""
unfolding resolve get find? resources lookup merge_limits merge_requests insert
doubles = refl

resolve-explicit_example :
    (lookup "cpu" double_cpu.limits ≡ some 2000 → lookup "cpu" doubled.limits ≡ some 2000)
    × (lookup "cpu" double_cpu.requests ≡ some 2000 → lookup "cpu" doubled.requests ≡ some 2000)
resolve-explicit_example =
    resolve-explicit numbers "dedicated-s" double_cpu doubled "" catalog (unfold any in (refl, tt))
      tt doubles "cpu" 2000

resolve-dedicated_example : lookup "cpu" doubled.requests ≡ lookup "cpu" doubled.limits
resolve-dedicated_example =
    resolve-dedicated numbers "dedicated-s" double_cpu doubled "" catalog
      (size "dedicated-s" "dedicated" "1" "1Gi") (unfold get find? in refl) refl refl doubles "cpu"
