-- ===== src/Releases/Sizes.antt =====
-- What a release changed, in words: describeSizeChange and describeConfigChange of
-- internal/controller/status.go. A map of strings is an association list, and `none` is the nil map.
-- How fmt prints a number is a parameter.
use Prim.Native.String.{◌++◌}
use shpyrd.Common.{
  ℕ, ◌-◌, ◌+◌, String, Bool, true, false, not, Option, none, some, List, [], ◌∷◌, map, leb, ◌==◌,
  if◌then◌else◌, length, take, lookup, keep, ◌++◌ as append, sort, text_less,
}

abbrev pub Strings : Type 0
Strings = List (String × String)

-- The keys of a map, sorted.
abbrev pub sorted_keys : Strings → List String
sorted_keys m = sort text_less (map (λ e. e.0) m)

abbrev or_empty : Option String → String
or_empty none = ""
or_empty (some v) = v

-- m[k], which is empty for a key that is not there
abbrev pub value_of : String → Strings → String
value_of k m = or_empty (lookup k m)

-- strings.Join
unfoldable pub join : String → List String → String
join sep [] = ""
join sep (s ∷ []) = s
join sep (s ∷ t ∷ rest) = s ++ sep ++ join sep (t ∷ rest)

abbrev resized : List String → String
resized [] = ""
resized (p ∷ parts) = "Resize " ++ join ", " (p ∷ parts)

abbrev or_nil : Option Strings → Strings
or_nil none = []
or_nil (some m) = m

-- describeSizeChange
unfoldable pub describe_size_change : Option Strings → Option Strings → String
describe_size_change none cur = ""
describe_size_change (some prev) cur =
    let sizes = or_nil cur in
    resized (
      map (λ k. k ++ " to " ++ value_of k sizes)
        (keep (λ k. not (value_of k prev == value_of k sizes)) (sorted_keys sizes)))

abbrev differs : Option String → String → Bool
differs none v = true
differs (some w) v = not (w == v)

abbrev is_missing : Option String → Bool
is_missing none = true
is_missing (some v) = false

-- plural
abbrev pub plural : ℕ → String
plural n = if leb n 1 then (if leb 1 n then "" else "s") else "s"

module _ (print : ℕ → String) where
  -- joinMax
  unfoldable pub join_max : List String → ℕ → String
  join_max items max =
      if leb (length items) max
      then join ", " items
      else join ", " (take max items) ++ " and " ++ print (length items - max) ++ " more"

  abbrev set_part : List String → List String
  set_part [] = []
  set_part (s ∷ set) = ("Set " ++ join_max (s ∷ set) 3) ∷ []

  abbrev removed_part : List String → List String
  removed_part [] = []
  removed_part (s ∷ removed) = ("Remove " ++ join_max (s ∷ removed) 3) ∷ []

  abbrev changes : ℕ → List String → String
  changes n [] = "Config change"
  changes n (p ∷ parts) = join ", " (p ∷ parts) ++ " config var" ++ plural n

  -- describeConfigChange
  unfoldable pub describe_config_change : Strings → Strings → String
  describe_config_change prev cur =
      let set = sort text_less (map (λ e. e.0) (keep (λ e. differs (lookup e.0 prev) e.1) cur)) in
      let removed =
        sort text_less (map (λ e. e.0) (keep (λ e. is_missing (lookup e.0 cur)) prev)) in
      changes (length set + length removed) (append (set_part set) (removed_part removed))
