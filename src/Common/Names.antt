-- ===== src/Common/Names.antt =====
-- The regular expression `^[a-z0-9]([-a-z0-9]{0,n}[a-z0-9])?$` of size names and slugs.
use Prim.Native.Char.{Char, code}
use Prim.Native.Nat.{ℕ, zero, suc}
use Prim.Native.String.{String, [], ◌∷◌}
use mathlib.Core.Bool.{Bool, true, false, ◌&&◌, ◌||◌}
use mathlib.Core.Path.{◌≡◌, refl}
use shpyrd.Common.Tests.{leb}

is_lower_or_digit : Char → Bool
is_lower_or_digit c = (leb 97 (code c) && leb (code c) 122) || (leb 48 (code c) && leb (code c) 57)

-- `[-a-z0-9]{0,n}[a-z0-9]`
matches_rest : ℕ → String → Bool
unfolding is_lower_or_digit
matches_rest n [] = false
matches_rest n (c ∷ []) = is_lower_or_digit c
matches_rest zero (c ∷ d ∷ s) = false
matches_rest (suc n) (c ∷ d ∷ s) =
    let rest = matches_rest n (d ∷ s) in
    (is_lower_or_digit c || (leb 45 (code c) && leb (code c) 45)) && rest

-- The whole expression, for a bound n
unfoldable pub matches_name : ℕ → String → Bool
unfolding matches_rest is_lower_or_digit
matches_name n [] = false
matches_name n (c ∷ []) = is_lower_or_digit c
matches_name n (c ∷ d ∷ s) = is_lower_or_digit c && matches_rest n (d ∷ s)

a_name_example : matches_name 30 "shared-xs" ≡ true
unfolding matches_name
a_name_example = refl

last_dash_example : matches_name 30 "shared-" ≡ false
unfolding matches_name
last_dash_example = refl

too_long_example : matches_name 2 "abcde" ≡ false
unfolding matches_name
too_long_example = refl
