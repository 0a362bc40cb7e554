-- ===== src/ConfigVars/Tests.antt =====
-- Config vars at concrete inputs.
use shpyrd.Common.{
  String, ◌≡◌, refl, none, some, [], ◌∷◌, ◌==◌, if◌then◌else◌, lookup, insert, remove, keep, any,
  trim_space, arith,
}
use shpyrd.Edge.Tokens.{Codec}
use shpyrd.ConfigVars.Secrets.{
  Texts, Secret, apply, set_loop, unset_loop, validate_key, is_word, read_meta, write_meta,
}
use shpyrd.ConfigVars.Dotenv.{
  parsed, failed, no_equals, invalid_key, parse_dotenv, parse_lines, split_lines, cut_equals,
  cut_prefix, unquote, strip_last,
}
use shpyrd.ConfigVars.Changes.{or_else, apply-lookup, apply-parse_dotenv}

-- JSON that forgets
abbrev json : Codec Texts
json = record { encode = λ m. some "{}"; decode = λ s. some [] }

abbrev secret : Secret
secret = record { data_of = ("A", "1") ∷ ("B", "2") ∷ []; annotation = none }

abbrev two : Texts
two = ("C", "3") ∷ ("A", "4") ∷ []

apply-lookup_example : lookup "A" (apply json "now" secret two ("B" ∷ [])).1.data_of ≡ (
    if any (λ x. x == "A") ("B" ∷ [])
    then none
    else or_else (lookup "A" two) (lookup "A" secret.data_of))
apply-lookup_example =
    apply-lookup json "now" secret two ("B" ∷ []) "A" (unfold any in (refl, (refl, tt))) (
      unfold apply set_loop validate_key is_word unset_loop read_meta write_meta insert remove
        keep in
      refl)

abbrev text : String
text = "# settings\nexport A = \"x y\"\n\nB='z'\n"

abbrev settings : Texts
settings = ("A", "x y") ∷ ("B", "z") ∷ []

reads : parse_dotenv text ≡ parsed settings
unfolding parse_dotenv parse_lines split_lines cut_equals cut_prefix unquote strip_last trim_space
    validate_key is_word insert
reads = refl

second_line : parse_dotenv "A=1\nB" ≡ failed (no_equals 2)
unfolding parse_dotenv parse_lines split_lines cut_equals cut_prefix unquote strip_last trim_space
    validate_key is_word insert
second_line = refl

bad_name : parse_dotenv "1A=1" ≡ failed (invalid_key 1)
unfolding parse_dotenv parse_lines split_lines cut_equals cut_prefix unquote strip_last trim_space
    validate_key is_word insert
bad_name = refl

apply-parse_dotenv_example : (apply json "now" secret settings []).0 ≡ none
apply-parse_dotenv_example =
    apply-parse_dotenv json "now" secret text settings [] reads (λ e. ground (arith, e))
