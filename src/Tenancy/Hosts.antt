-- ===== src/Tenancy/Hosts.antt =====
-- The tests on host names of pkg/tenancy/tenancy.go, and the functions of Go's package strings that
-- they call. What net.SplitHostPort and net.ParseIP say of a text is a parameter.
use Prim.Native.Char.{Char, code}
use Prim.Native.String.{String, [], ◌∷◌, ◌++◌}
use text.Mathlib.Text.{starts_with}
use shpyrd.Common.{
  ℕ, Bool, false, not, ◌&&◌, ◌||◌, Option, none, some, leb, ◌==◌, if◌then◌else◌, to_lower,
  trim_space,
}

abbrev is_char : ℕ → Char → Bool
is_char n c = leb n (code c) && leb (code c) n

abbrev pub is_dot : Char → Bool
is_dot = is_char 46

-- strings.HasSuffix
unfoldable pub has_suffix : String → String → Bool
has_suffix [] t = t == ""
has_suffix (c ∷ s) t = let rest = has_suffix s t in (c ∷ s) == t || rest

-- strings.Contains
unfoldable pub contains : String → String → Bool
contains [] t = t == ""
contains (c ∷ s) t = let rest = contains s t in starts_with (c ∷ s) t || rest

-- strings.Contains(s, ".")
unfoldable pub has_dot : String → Bool
has_dot [] = false
has_dot (c ∷ s) = let rest = has_dot s in is_dot c || rest

-- What follows the first dot: strings.Cut(s, ".")
unfoldable pub after_dot : String → Option String
after_dot [] = none
after_dot (c ∷ s) = let rest = after_dot s in if is_dot c then some s else rest

abbrev pub put_front : Char → Option String → Option String
put_front c none = none
put_front c (some s) = some (c ∷ s)

-- strings.CutSuffix
unfoldable pub cut_suffix : String → String → Option String
cut_suffix [] t = if t == "" then some "" else none
cut_suffix (c ∷ s) t =
    let rest = cut_suffix s t in if (c ∷ s) == t then some "" else put_front c rest

abbrev or_whole : String → Option String → String
or_whole s none = s
or_whole s (some t) = t

abbrev or_bracket : Char → Option String → Option String
or_bracket c (some t) = some (c ∷ t)
or_bracket c none = if is_char 93 c then some "" else none

-- What stands in front of the last closing bracket.
unfoldable pub before_bracket : String → Option String
before_bracket [] = none
before_bracket (c ∷ s) = or_bracket c (before_bracket s)

abbrev bracketed : String → Option String
bracketed [] = none
bracketed (c ∷ s) = if is_char 91 c then before_bracket s else none

abbrev is_label : Option String → Bool
is_label none = false
is_label (some label) = not (label == "") && not (has_dot label)

-- oneLabelUnder
unfoldable pub one_label_under : String → String → Bool
one_label_under host domain = is_label (cut_suffix host ("." ++ domain))

module _ (split_host_port : String → Option String) (is_ip : String → Bool) where
  abbrev split : String → Option String → Option String → String
  split h (some inner) port = inner
  split h none (some host) = host
  split h none none = or_whole h (cut_suffix h ".")

  -- Host
  unfoldable pub host_of : String → String
  host_of hostport =
      let h = to_lower (trim_space hostport) in
      if h == "" then "" else split h (bracketed h) (split_host_port h)

  -- Internal
  unfoldable pub internal : String → Bool
  internal host =
      host == ""
      || host == "localhost"
      || has_suffix host ".localhost"
      || is_ip host
      || has_suffix host ".svc"
      || contains host ".svc."
