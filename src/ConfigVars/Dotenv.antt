-- ===== src/ConfigVars/Dotenv.antt =====
-- ParseDotenv of pkg/configvars/configvars.go.
use Prim.Native.Char.{Char, code}
use Prim.Native.String.{[] as empty, ◌∷◌ as push}
use text.Mathlib.Text.{starts_with}
use shpyrd.Common.{
  ℕ, suc, String, Bool, true, false, ◌&&◌, ◌||◌, Option, none, some, List, [], ◌∷◌, leb, ◌==◌,
  if◌then◌else◌, insert, trim_space,
}
use shpyrd.ConfigVars.Secrets.{Texts, validate_key}

abbrev is_char : ℕ → Char → Bool
is_char n c = leb n (code c) && leb (code c) n

abbrev push_first : Char → List String → List String
push_first c [] = push c "" ∷ []
push_first c (p ∷ ps) = push c p ∷ ps

-- strings.Split(text, "\n")
unfoldable pub split_lines : String → List String
split_lines empty = "" ∷ []
split_lines (push c s) =
    let rest = split_lines s in if is_char 10 c then "" ∷ rest else push_first c rest

abbrev after_same : Bool → Option String → Option String
after_same true rest = rest
after_same false rest = none

-- What follows a prefix
unfoldable pub cut_prefix : String → String → Option String
cut_prefix empty s = some s
cut_prefix (push c p) empty = none
cut_prefix (push c p) (push d s) = let rest = cut_prefix p s in after_same (is_char (code c) d) rest

abbrev pub or_whole : String → Option String → String
or_whole s none = s
or_whole s (some t) = t

abbrev put_front : Char → Option (String × String) → Option (String × String)
put_front c none = none
put_front c (some e) = some (push c e.0, e.1)

-- strings.Cut(line, "=")
unfoldable pub cut_equals : String → Option (String × String)
cut_equals empty = none
cut_equals (push c s) =
    let rest = cut_equals s in if is_char 61 c then some ("", s) else put_front c rest

abbrev push_some : Char → Option String → Option String
push_some c none = none
push_some c (some s) = some (push c s)

-- The text without its last character, where that is the one given
unfoldable pub strip_last : ℕ → String → Option String
strip_last n empty = none
strip_last n (push c empty) = if is_char n c then some "" else none
strip_last n (push c (push d s)) = push_some c (strip_last n (push d s))

-- The text inside quotes of the kind given, where it is quoted
abbrev quoted : ℕ → String → Option String
quoted n empty = none
quoted n (push c s) = if is_char n c then strip_last n s else none

abbrev or_else : Option String → Option String → Option String
or_else none o = o
or_else (some s) o = some s

-- The value without its quotes
unfoldable pub unquote : String → String
unquote v = or_whole v (or_else (quoted 34 v) (quoted 39 v))

-- An error names its line.
pub data DotenvError : Type 0 where
  no_equals invalid_key : ℕ → DotenvError

pub data Parsed : Type 0 where
  parsed : Texts → Parsed
  failed : DotenvError → Parsed

abbrev pub add_line : ℕ → Texts → Option (String × String) → (Texts → Parsed) → Parsed
add_line n out none next = failed (no_equals n)
add_line n out (some e) next =
    if validate_key (trim_space e.0)
    then next (insert (trim_space e.0) (unquote (trim_space e.1)) out)
    else failed (invalid_key n)

-- The loop over the lines, from line n on
unfoldable pub parse_lines : ℕ → List String → Texts → Parsed
parse_lines n [] out = parsed out
parse_lines n (raw ∷ rest) out =
    let line = trim_space raw in
    let later : Texts → Parsed = parse_lines (suc n) rest in
    if line == "" || starts_with line "#"
    then later out
    else add_line n out (cut_equals (or_whole line (cut_prefix "export " line))) later

-- ParseDotenv
unfoldable pub parse_dotenv : String → Parsed
parse_dotenv text = parse_lines 1 (split_lines text) []
