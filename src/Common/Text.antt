-- ===== src/Common/Text.antt =====
-- The functions of Go's package strings that the program calls: ToLower, TrimSpace, EqualFold and
-- `<`. Case is mapped for A to Z only, and two letters fold together when their lower cases are
-- equal: other scripts are outside the model. White space is unicode.IsSpace.
use Prim.Native.Char.{Char, code}
use Prim.Native.Nat.{ℕ, zero, suc, ◌-◌, ◌<◌, Ordering, compare as compare_ℕ}
use Prim.Native.String.{String, [], ◌∷◌, char_at, compare}
use mathlib.Core.Bool.{Bool, true, false, not, ◌&&◌, ◌||◌}
use mathlib.Core.Path.{◌≡◌, refl}
use native.Mathlib.Omega.{arith}
use text.Mathlib.Text.{◌==◌, is_lt}
use mathlib.Core.Logic.{inl, inr}
use Prim.Native.String.compare as compare_text
use shpyrd.Common.Tests.{leb, Bool-cases, if◌then◌else◌}

abbrev letters : String
letters = "abcdefghijklmnopqrstuvwxyz"

is_upper : Char → Bool
is_upper c = leb 65 (code c) && leb (code c) 90

lower_char : Char → Char
unfolding is_upper
lower_char c = if is_upper c then char_at letters (code c - 65) else c

-- strings.ToLower
unfoldable pub to_lower : String → String
unfolding lower_char
to_lower [] = []
to_lower (c ∷ s) = lower_char c ∷ to_lower s

-- unicode.IsSpace
is_space : Char → Bool
is_space c =
    let n = code c in
    (leb 9 n && leb n 13)
    || (n ≟ 32)
    || (n ≟ 133)
    || (n ≟ 160)
    || (n ≟ 5760)
    || (leb 8192 n && leb n 8202)
    || (n ≟ 8232)
    || (n ≟ 8233)
    || (n ≟ 8239)
    || (n ≟ 8287)
    || (n ≟ 12288)
  where
    infix 50 ◌≟◌
    ◌≟◌ : ℕ → ℕ → Bool
    a ≟ b = leb a b && leb b a

trim_left : String → String
unfolding is_space
trim_left [] = []
trim_left (c ∷ s) = if is_space c then trim_left s else c ∷ s

trim_right : String → String
unfolding is_space
trim_right [] = []
trim_right (c ∷ s) = let r = trim_right s in if is_space c && r == "" then "" else c ∷ r

-- strings.TrimSpace
unfoldable pub trim_space : String → String
unfolding trim_left trim_right
trim_space s = trim_right (trim_left s)

-- strings.EqualFold
unfoldable pub equal_fold : String → String → Bool
unfolding to_lower
equal_fold s t = to_lower s == to_lower t

-- s < t, by the bytes of UTF-8
unfoldable pub text_less : String → String → Bool
text_less s t = is_lt (compare s t)

normal_example : to_lower (trim_space "  Ana@Example.COM\n") ≡ "ana@example.com"
unfolding to_lower trim_space
normal_example = refl

all_space_example : trim_space " \t " ≡ ""
unfolding trim_space
all_space_example = refl

-- Over the 26 letters, by evaluation.
no_upper_below : ℕ → Bool
unfolding is_upper
no_upper_below zero = true
no_upper_below (suc n) = not (is_upper (char_at letters n)) && no_upper_below n

no_upper_at : (m n : ℕ) → no_upper_below m ≡ true → n < m → is_upper (char_at letters n) ≡ false
unfolding no_upper_below
no_upper_at zero n h lt = absurd (omega arith)
no_upper_at (suc m) n h lt = ground (arith, no_upper_at m n)

letter_not_upper : (n : ℕ) → n < 26 → is_upper (char_at letters n) ≡ false
unfolding no_upper_below
letter_not_upper n lt = no_upper_at 26 n refl lt

upper-lt : (c : Char) → is_upper c ≡ true → code c - 65 < 26
unfolding is_upper
upper-lt c h = ground arith

lower_char_idem : (c : Char) → lower_char (lower_char c) ≡ lower_char c
lower_char_idem c = elim (Bool-cases (is_upper c)) [
  | inl e ↦ unfold lower_char in rw (e, letter_not_upper (code c - 65) (upper-lt c e))
  | inr e ↦ unfold lower_char in rw (e, e)
]

-- Lower case is stable.
pub to_lower_idem : (s : String) → to_lower (to_lower s) ≡ to_lower s
unfolding to_lower
to_lower_idem [] = refl
to_lower_idem (c ∷ s) = rw (lower_char_idem c, to_lower_idem s)

compare_codes_asym : (a b : ℕ) → compare_ℕ a b ≡ Ordering.lt → compare_ℕ b a ≡ Ordering.gt
compare_codes_asym a b h = ground arith

compare_codes_eq : (a b : ℕ) → compare_ℕ a b ≡ Ordering.eq → compare_ℕ b a ≡ Ordering.eq
compare_codes_eq a b h = ground arith

compare_asym : (s t : String) → compare s t ≡ Ordering.lt → compare t s ≡ Ordering.gt
compare_asym [] [] h = ground arith
compare_asym [] (d ∷ t) h = compare_text.cons-nil d t
compare_asym (c ∷ s) [] h = ground (arith, compare_text.cons-nil c s)
compare_asym (c ∷ s) (d ∷ t) h = rw compare_text.cons-cons (
    ground (
      arith,
      compare_text.cons-cons c d s t,
      compare_codes_asym (code c) (code d),
      compare_codes_eq (code c) (code d),
      compare_asym s t,
    ))

-- `<` never holds both ways.
pub text_less_asym : (s t : String) → text_less s t ≡ true → text_less t s ≡ false
unfolding text_less
text_less_asym s t h = ground (arith, compare_asym s t)
