-- ===== src/Project/Namespaces.antt =====
-- NamespaceIn of pkg/project/project.go, within a workspace and across workspaces.
use Prim.Native.Char.{Char, code}
use Prim.Native.String.{◌++◌, char_at, [] as empty, ◌∷◌ as push}
use Prim.Native.String.append
use shpyrd.Common.{
  String, ◌≡◌, refl, sym, ap, ◌∙◌, Bool, true, false, ◌&&◌, ◌||◌, none, leb, ◌⊎◌, inl, inr,
  Bool-cases, arith, eq_iff, matches_name, ◌==◌, if◌then◌else◌,
}
use mathlib.Core.Bool.{false≢true}
use text.Mathlib.TextLemmas.{append_assoc, append_cancel_left}
use shpyrd.Store.Types.{default_workspace}
use shpyrd.Project.Names.{namespace_in, validate_workspace_slug}

no_name : validate_workspace_slug "" ≡ none → ⊥
unfolding validate_workspace_slug matches_name
no_name h = ground arith

not_implicit :
    (w : String) → validate_workspace_slug w ≡ none → (w == "" || w == default_workspace) ≡ false
unfolding validate_workspace_slug
not_implicit w h = elim (Bool-cases (w == "")) [
  | inl e ↦ absurd (no_name (rw ((eq_iff w "").0 e) at h))
  | inr e ↦ ground arith
]

-- Across workspaces namespaces can coincide: where `a` and `a-b` are acceptable workspace slugs,
-- the project `b-c` of the first and the project `c` of the second have one namespace.
pub namespace_in_shared :
    (a b c : String)
    → validate_workspace_slug a ≡ none
    → validate_workspace_slug ((a ++ "-") ++ b) ≡ none
    → namespace_in a ((b ++ "-") ++ c) ≡ namespace_in ((a ++ "-") ++ b) c
unfolding namespace_in
namespace_in_shared a b c h k =
    rw (not_implicit a h, not_implicit ((a ++ "-") ++ b) k) (simp append_assoc)

abbrev is_dash : Char → Bool
is_dash c = leb 45 (code c) && leb (code c) 45

-- strings.Contains(s, "-")
unfoldable pub has_dash : String → Bool
has_dash empty = false
has_dash (push c s) = is_dash c || has_dash s

-- What stands before the first dash
unfoldable before_dash : String → String
before_dash empty = empty
before_dash (push c s) = let rest = before_dash s in if is_dash c then empty else push c rest

dash_next : (t : String) → "-" ++ t ≡ push (char_at "-" 0) t
dash_next t = append.cons (char_at "-" 0) "" t ∙ ap (push (char_at "-" 0)) (append.nil t)

before_dash_lem : (s t : String) → has_dash s ≡ false → before_dash (s ++ "-" ++ t) ≡ s
unfolding before_dash has_dash
before_dash_lem empty t h = ap before_dash (append.nil ("-" ++ t) ∙ dash_next t)
before_dash_lem (push c s) t h = elim (Bool-cases (is_dash c)) [
  | inl e ↦ absurd (ground (arith, h, e))
  | inr e ↦ rw (append.cons, e, before_dash_lem s t (rw e at h)) refl
]

has_dash_lem : (s t : String) → has_dash (s ++ "-" ++ t) ≡ true
unfolding has_dash
has_dash_lem empty t = ap has_dash (append.nil ("-" ++ t) ∙ dash_next t)
has_dash_lem (push c s) t = rw (append.cons, has_dash_lem s t) (ground arith)

same_parts :
    (v w s t : String)
    → has_dash v ≡ false
    → has_dash w ≡ false
    → v ++ "-" ++ s ≡ w ++ "-" ++ t
    → (v ≡ w) × (s ≡ t)
same_parts v w s t h k e =
    let same : v ≡ w = sym (before_dash_lem v s h) ∙ ap before_dash e ∙ before_dash_lem w t k in
    (
      same,
      append_cancel_left "-" s t
          (append_cancel_left v ("-" ++ s) ("-" ++ t) (e ∙ ap (λ x. x ++ "-" ++ t) (sym same))),
    )

-- A project of the implicit workspace whose slug has no dash, or one of a workspace with an
-- acceptable slug that has none
abbrev pub IsPlain : String → String → Type 0
IsPlain workspace slug =
    ((workspace ≡ default_workspace) × (has_dash slug ≡ false))
    ⊎ ((validate_workspace_slug workspace ≡ none) × (has_dash workspace ≡ false))

namespace_in_implicit : (slug : String) → namespace_in default_workspace slug ≡ "app-" ++ slug
unfolding namespace_in
namespace_in_implicit slug = refl

namespace_in_explicit :
    (w slug : String)
    → validate_workspace_slug w ≡ none
    → namespace_in w slug ≡ "app-" ++ w ++ "-" ++ slug
unfolding namespace_in
namespace_in_explicit w slug h = rw (not_implicit w h) (simp append_assoc)

not_plain :
    (w s t : String)
    → validate_workspace_slug w ≡ none
    → has_dash s ≡ false
    → namespace_in default_workspace s ≡ namespace_in w t
    → ⊥
not_plain w s t h k e =
    let same =
      append_cancel_left "app-" s (w ++ "-" ++ t)
        (sym (namespace_in_implicit s) ∙ e ∙ namespace_in_explicit w t h) in
    false≢true (sym k ∙ ap has_dash same ∙ has_dash_lem w t)

-- Two projects with one namespace are the same project of the same workspace, if each is of the
-- implicit workspace and its slug has no dash, or of a workspace whose slug is acceptable and has no
-- dash.
pub namespace_in_injective :
    (v w s t : String)
    → IsPlain v s
    → IsPlain w t
    → namespace_in v s ≡ namespace_in w t
    → (v ≡ w) × (s ≡ t)
namespace_in_injective v w s t (inl (h, a)) (inl (k, b)) e = (
  h ∙ sym k,
  append_cancel_left "app-" s t (
      sym (namespace_in_implicit s)
      ∙ ap (λ x. namespace_in x s) (sym h)
      ∙ e
      ∙ ap (λ x. namespace_in x t) k
      ∙ namespace_in_implicit t),
)
namespace_in_injective v w s t (inl (h, a)) (inr (k, b)) e =
    absurd (not_plain w s t k a (ap (λ x. namespace_in x s) (sym h) ∙ e))
namespace_in_injective v w s t (inr (h, a)) (inl (k, b)) e =
    absurd (not_plain v t s h b (ap (λ x. namespace_in x t) (sym k) ∙ sym e))
namespace_in_injective v w s t (inr (h, a)) (inr (k, b)) e = same_parts v w s t a b (
    append_cancel_left "app-" _ _
      (sym (namespace_in_explicit v s h) ∙ e ∙ namespace_in_explicit w t k))
