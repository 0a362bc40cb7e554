-- ===== src/Sizes/Catalog.antt =====
-- Size, Catalog, Validate, Get, Upsert and Remove of pkg/sizes/sizes.go.
use shpyrd.Common.{
  String, Bool, false, not, ◌&&◌, Option, none, some, List, [], ◌∷◌, ◌++◌, ◌⊎◌, inl, inr, ◌==◌,
  if◌then◌else◌, any, find?, update_first, delete_first, matches_name,
}
use shpyrd.Sizes.Quantities.{Quantities}

pub record Size : Type 0 where
  pub name : String
  pub kind : String
  pub cpu : String
  pub memory : String
  pub description : String

pub record Catalog : Type 0 where
  pub default : String
  pub sizes : List Size

abbrev pub shared : String
shared = "shared"

abbrev pub dedicated : String
dedicated = "dedicated"

abbrev entry : String → String → String → String → String → Size
entry name kind cpu memory description = record {
  name = name;
  kind = kind;
  cpu = cpu;
  memory = memory;
  description = description;
}

-- Defaults
abbrev pub defaults : Catalog
defaults = record {
  default = "shared-s";
  sizes =
      entry "shared-xs" shared "0.25" "32Mi" "Tiny: static sites, Go services"
      ∷ entry "shared-s" shared "0.5" "64Mi" "Default"
      ∷ entry "shared-m" shared "0.5" "256Mi" "Node.js, Python, Ruby"
      ∷ entry "shared-l" shared "1" "512Mi" "JVM, heavier web apps"
      ∷ entry "shared-xl" shared "2" "1Gi" ""
      ∷ entry "dedicated-s" dedicated "1" "1Gi" "Guaranteed CPU"
      ∷ entry "dedicated-m" dedicated "2" "4Gi" ""
      ∷ entry "dedicated-l" dedicated "4" "8Gi" ""
      ∷ entry "dedicated-xl" dedicated "8" "16Gi" ""
      ∷ entry "dedicated-2xl" dedicated "16" "32Gi" ""
      ∷ [];
}

-- The errors of the package, one for each message.
pub data Problem : Type 0 where
  invalid_name invalid_kind invalid_cpu invalid_memory : Problem
  no_sizes duplicate_size no_default default_not_listed : Problem
  is_default_size size_not_found : Problem

module _ (q : Quantities) where
  abbrev positive : Option (q.Quantity) → Bool
  positive none = false
  positive (some x) = q.is_positive x

  -- Size.Validate; `none` is a nil error.
  unfoldable pub validate_size : Size → Option Problem
  validate_size s =
      if not (matches_name 30 s.name)
      then some invalid_name
      else if not (s.kind == shared) && not (s.kind == dedicated)
      then some invalid_kind
      else if not (positive (q.parse s.cpu))
      then some invalid_cpu
      else if not (positive (q.parse s.memory))
      then some invalid_memory
      else none

  -- One turn of the loop: what the size's own check says, then the look into `seen`.
  abbrev check_size : Option Problem → Bool → Problem ⊎ List String → Problem ⊎ List String
  check_size (some p) is_seen rest = inl p
  check_size none is_seen rest = if is_seen then inl duplicate_size else rest

  -- The loop of Catalog.Validate: the first error, or the names seen.
  unfoldable pub validate_sizes : List String → List Size → Problem ⊎ List String
  validate_sizes seen [] = inr seen
  validate_sizes seen (s ∷ rest) =
      let after = validate_sizes (s.name ∷ seen) rest in
      check_size (validate_size s) (any (λ n. n == s.name) seen) after

  abbrev check_default : String → Problem ⊎ List String → Option Problem
  check_default d (inl p) = some p
  check_default d (inr seen) =
      if d == ""
      then some no_default
      else if not (any (λ n. n == d) seen)
      then some default_not_listed
      else none

  -- Catalog.Validate
  abbrev pub validate_catalog : String → List Size → Option Problem
  validate_catalog d [] = some no_sizes
  validate_catalog d (s ∷ rest) = check_default d (validate_sizes [] (s ∷ rest))

  unfoldable pub validate : Catalog → Option Problem
  validate c = validate_catalog c.default c.sizes

  abbrev pub put_size : Size → Catalog → Option Size → Catalog
  put_size s c none = record c { sizes = c.sizes ++ s ∷ [] }
  put_size s c (some old) = record c {
    sizes = update_first (λ e. e.name == s.name) (λ e. s) c.sizes;
  }

  abbrev upsert_checked : Size → Catalog → Option Problem → Problem ⊎ Catalog
  upsert_checked s c (some p) = inl p
  upsert_checked s c none = inr (put_size s c (find? (λ e. e.name == s.name) c.sizes))

  -- Catalog.Upsert: the error, or the catalog after it.
  unfoldable pub upsert : Size → Catalog → Problem ⊎ Catalog
  upsert s c = upsert_checked s c (validate_size s)

-- Catalog.Get
unfoldable pub get : String → Catalog → Option Size
get name c = find? (λ s. s.name == name) c.sizes

abbrev pub drop_size : String → Catalog → Option Size → Problem ⊎ Catalog
drop_size name c none = inl size_not_found
drop_size name c (some s) = inr (record c { sizes = delete_first (λ e. e.name == name) c.sizes })

-- Catalog.Remove
unfoldable pub remove_size : String → Catalog → Problem ⊎ Catalog
remove_size name c =
    if name == c.default
    then inl is_default_size
    else drop_size name c (find? (λ e. e.name == name) c.sizes)
