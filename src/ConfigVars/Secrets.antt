-- ===== src/ConfigVars/Secrets.antt =====
-- The Secret that holds an app's config vars, pkg/configvars/configvars.go: ValidateKey, Apply and
-- List. JSON of the metadata is a parameter, and so is the text of a time.
use Prim.Native.Char.{Char, code}
use Prim.Native.String.{[] as empty, ◌∷◌ as push}
use shpyrd.Common.{
  ℕ, String, Bool, true, false, ◌&&◌, ◌||◌, Option, none, some, List, [], ◌∷◌, map, leb, ◌==◌,
  if◌then◌else◌, lookup, insert, remove, sort, text_less,
}
use shpyrd.Edge.Tokens.{Codec}

abbrev between : ℕ → ℕ → Char → Bool
between a b c = leb a (code c) && leb (code c) b

abbrev pub is_letter : Char → Bool
is_letter c = between 65 90 c || between 97 122 c || between 95 95 c

-- `[A-Za-z0-9_]*`
unfoldable pub is_word : String → Bool
is_word empty = true
is_word (push c s) = let rest = is_word s in (is_letter c || between 48 57 c) && rest

-- ValidateKey, true for a nil error
unfoldable pub validate_key : String → Bool
validate_key empty = false
validate_key (push c s) = is_letter c && is_word s

abbrev pub Texts : Type 0
Texts = List (String × String)

-- Data of the Secret, and the annotation AnnotationMeta where it is there.
pub record Secret : Type 0 where
  pub data_of : Texts
  pub annotation : Option String

pub data ApplyError : Type 0 where
  nothing_to_change invalid_name : ApplyError

pub record Var : Type 0 where
  pub name : String
  pub updated_at : String

abbrev or_empty : Option String → String
or_empty none = ""
or_empty (some s) = s

-- The loop over the keys to set, on the data and the times; it stops at a name that is not valid.
unfoldable pub set_loop : String → Texts → Texts → Texts → Bool × Texts × Texts
set_loop ts [] values times = (true, values, times)
set_loop ts (e ∷ rest) values times =
    let later = set_loop ts rest (insert e.0 e.1 values) (insert e.0 ts times) in
    if validate_key e.0 then later else (false, values, times)

-- The loop over the keys to unset
unfoldable pub unset_loop : List String → Texts → Texts
unset_loop [] m = m
unset_loop (k ∷ rest) m = unset_loop rest (remove k m)

module _ (json : Codec Texts) where
  abbrev decoded : Option Texts → Texts
  decoded none = []
  decoded (some m) = m

  -- readMeta
  unfoldable pub read_meta : Secret → Texts
  read_meta sec =
      if or_empty sec.annotation == "" then [] else decoded (json.decode (or_empty sec.annotation))

  abbrev annotated : Texts → Option String
  annotated [] = none
  annotated (e ∷ m) = some (or_empty (json.encode (e ∷ m)))

  -- writeMeta
  unfoldable pub write_meta : Secret → Texts → Secret
  write_meta sec m = record sec { annotation = annotated m }

  abbrev pub applied : Secret → List String → Bool × Texts × Texts → Option ApplyError × Secret
  applied sec unset (false, values, times) = (some invalid_name, record sec { data_of = values })
  applied sec unset (true, values, times) =
      (none, write_meta (record sec { data_of = unset_loop unset values }) (unset_loop unset times))

  abbrev pub unless_nothing : String → Secret → Texts → List String → Option ApplyError × Secret
  unless_nothing ts sec [] [] = (some nothing_to_change, sec)
  unless_nothing ts sec [] (k ∷ unset) =
      applied sec (k ∷ unset) (set_loop ts [] sec.data_of (read_meta sec))
  unless_nothing ts sec (e ∷ set) unset =
      applied sec unset (set_loop ts (e ∷ set) sec.data_of (read_meta sec))

  -- Apply: the error, if any, and the Secret as it is left.
  unfoldable pub apply : String → Secret → Texts → List String → Option ApplyError × Secret
  apply ts sec set unset = unless_nothing ts sec set unset

  -- List
  unfoldable pub list_vars : Secret → List Var
  list_vars sec =
      let times = read_meta sec in
      sort (λ a b. text_less a.name b.name)
        (map (λ e. record { name = e.0; updated_at = or_empty (lookup e.0 times) }) sec.data_of)
