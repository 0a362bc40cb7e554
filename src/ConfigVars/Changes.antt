-- ===== src/ConfigVars/Changes.antt =====
-- What Apply and ParseDotenv do to the config vars, pkg/configvars/configvars.go.
use shpyrd.Common.{
  ℕ, suc, String, ◌≡◌, ◌≢◌, refl, sym, ap, ◌∙◌, Bool, true, false, ◌||◌, Option, none, some, List,
  [], ◌∷◌, ◌==◌, eq_iff, if◌then◌else◌, lookup, insert, remove, lookup-insert, lookup-remove, any,
  arith, inl, inr, Bool-cases, All, All-insert, IsUnique, trim_space,
}
use text.Mathlib.Text.{starts_with}
use shpyrd.Edge.Tokens.{Codec}
use shpyrd.ConfigVars.Secrets.{
  Texts, Secret, validate_key, set_loop, unset_loop, read_meta, write_meta, applied, apply,
}
use shpyrd.ConfigVars.Dotenv.{
  Parsed, parsed, add_line, split_lines, unquote, parse_lines, parse_dotenv,
}

abbrev pub AllValid : Texts → Type 0
AllValid m = All (λ e. validate_key e.0 ≡ true) m

add_line-AllValid :
    (n : ℕ) (out : Texts) (o : Option (String × String)) (next : Texts → Parsed) {m : Texts}
    → AllValid out
    → ((out : Texts) → AllValid out → next out ≡ parsed m → AllValid m)
    → add_line n out o next ≡ parsed m
    → AllValid m
add_line-AllValid n out none next h later e = absurd (ground (arith, e))
add_line-AllValid n out (some l) next h later e =
    elim (Bool-cases (validate_key (trim_space l.0))) [
      | inl f ↦
          later _ (All-insert _ (trim_space l.0) (unquote (trim_space l.1)) out f h) (rw f at e)
      | inr f ↦ absurd (ground (arith, rw f at e))
    ]

parse_lines-AllValid :
    (n : ℕ) (lines : List String) (out : Texts) {m : Texts}
    → AllValid out
    → parse_lines n lines out ≡ parsed m
    → AllValid m
unfolding parse_lines
parse_lines-AllValid n [] out {m} h e = let same : out ≡ m = ground (arith, e) in rw (sym same) h
parse_lines-AllValid n (raw ∷ rest) out {m} h e =
    elim (Bool-cases (trim_space raw == "" || starts_with (trim_space raw) "#")) [
      | inl f ↦ parse_lines-AllValid (suc n) rest out {m = m} h (rw f at e)
      | inr f ↦
          add_line-AllValid n out _ _ {m = m} h
            (λ o k g. parse_lines-AllValid (suc n) rest o {m = m} k g) (rw f at e)
    ]

set_loop-AllValid :
    (ts : String) (set values times : Texts)
    → AllValid set
    → (set_loop ts set values times).0 ≡ true
unfolding set_loop
set_loop-AllValid ts [] values times h = refl
set_loop-AllValid ts (e ∷ rest) values times h = rw (h.0) (set_loop-AllValid ts rest _ _ h.1)

abbrev pub or_else : Option String → Option String → Option String
or_else none o = o
or_else (some s) o = some s

abbrev pub has_key : String → Texts → Bool
has_key k m = any (λ e. e.0 == k) m

abbrev pub same_key : String × String → String × String → Bool
same_key a b = b.0 == a.0

lookup-missing : (k : String) (m : Texts) → has_key k m ≡ false → lookup k m ≡ none
unfolding lookup any
lookup-missing k [] h = refl
lookup-missing k (e ∷ m) h = ground (arith, lookup-missing k m)

set_loop-lookup :
    (ts k : String) (set values times : Texts)
    → IsUnique same_key set
    → (set_loop ts set values times).0 ≡ true
    → lookup k (set_loop ts set values times).1 ≡ or_else (lookup k set) (lookup k values)
unfolding set_loop lookup
set_loop-lookup ts k [] values times u h = refl
set_loop-lookup ts k (e ∷ rest) values times u h = elim (Bool-cases (validate_key e.0)) [
  | inr f ↦ absurd (ground (arith, rw f at h))
  | inl f ↦
      let later =
        set_loop-lookup ts k rest (insert e.0 e.1 values) (insert e.0 ts times) u.1 (rw f at h) in
      rw f (
        later ∙ elim (Bool-cases (e.0 == k)) [
          | inl g ↦
              let fresh : has_key e.0 rest ≡ false = u.0 in
              let missing = lookup-missing k rest (rw ((eq_iff e.0 k).0 g) at fresh) in
              ground (arith, lookup-insert e.0 k e.1 values, missing, g)
          | inr g ↦ ground (arith, lookup-insert e.0 k e.1 values, g)
        ])
]

unset_loop-lookup :
    (k : String) (unset : List String) (m : Texts)
    → lookup k (unset_loop unset m) ≡ (if any (λ x. x == k) unset then none else lookup k m)
unfolding unset_loop any
unset_loop-lookup k [] m = refl
unset_loop-lookup k (x ∷ rest) m =
    ground (arith, unset_loop-lookup k rest (remove x m), lookup-remove x k m)

module _ (json : Codec Texts) (ts : String) (sec : Secret) where
  applied-lookup :
      (k : String) (unset : List String) (o : Bool × Texts × Texts)
      → (applied json sec unset o).0 ≡ none
      → (o.0 ≡ true)
        × (lookup k (applied json sec unset o).1.data_of
            ≡ (if any (λ x. x == k) unset then none else lookup k o.1))
  unfolding write_meta
  applied-lookup k unset (false, values, times) h = absurd (ground (arith, h))
  applied-lookup k unset (true, values, times) h = (refl, unset_loop-lookup k unset values)

  -- After an Apply that succeeds a config var that was to be unset is gone, one that was to be set
  -- and not unset has its new value, and every other one is as it was, in whatever order the distinct names
  -- to set are gone through.
  pub apply-lookup :
      (set : Texts) (unset : List String) (k : String)
      → IsUnique same_key set
      → (apply json ts sec set unset).0 ≡ none
      → lookup k (apply json ts sec set unset).1.data_of
        ≡ (if any (λ x. x == k) unset then none else or_else (lookup k set) (lookup k sec.data_of))
  unfolding apply
  apply-lookup [] [] k u h = absurd (ground (arith, h))
  apply-lookup [] (x ∷ unset) k u h =
      let times = read_meta json sec in
      let (fine, found) = applied-lookup k (x ∷ unset) (set_loop ts [] sec.data_of times) h in
      found
      ∙ ap (λ v. if any (λ x. x == k) (x ∷ unset) then none else v)
          (set_loop-lookup ts k [] sec.data_of times u fine)
  apply-lookup (e ∷ set) unset k u h =
      let times = read_meta json sec in
      let (fine, found) = applied-lookup k unset (set_loop ts (e ∷ set) sec.data_of times) h in
      found
      ∙ ap (λ v. if any (λ x. x == k) unset then none else v)
          (set_loop-lookup ts k (e ∷ set) sec.data_of times u fine)

  applied_fine :
      (unset : List String) (o : Bool × Texts × Texts)
      → o.0 ≡ true
      → (applied json sec unset o).0 ≡ none
  unfolding write_meta
  applied_fine unset (false, values, times) h = absurd (ground (arith, h))
  applied_fine unset (true, values, times) h = refl

  -- What ParseDotenv reads from a text Apply takes, if there is anything.
  pub apply-parse_dotenv :
      (text : String) (set : Texts) (unset : List String)
      → parse_dotenv text ≡ parsed set
      → set ≢ []
      → (apply json ts sec set unset).0 ≡ none
  unfolding parse_dotenv apply
  apply-parse_dotenv text [] unset e some_line = absurd (some_line refl)
  apply-parse_dotenv text (l ∷ set) unset e some_line = applied_fine unset _ (
      set_loop-AllValid ts (l ∷ set) sec.data_of (read_meta json sec)
        (parse_lines-AllValid 1 (split_lines text) [] {m = l ∷ set} tt e))
