-- ===== src/Releases/Prune.antt =====
-- The deletion of stale images, pruneImages of internal/controller/registry.go, and SplitReference of
-- pkg/registry/client.go. The registry is a parameter: whether it deletes, the host of its client
-- where there is one, and whether DeleteManifest succeeds.
use Prim.Native.Char.{Char, code}
use Prim.Native.String.{[] as empty, ◌∷◌ as push}
use shpyrd.Common.{
  ℕ, ◌≡◌, refl, String, Bool, false, not, ◌&&◌, ◌||◌, Option, none, some, List, [], ◌∷◌, leb, ◌==◌,
  if◌then◌else◌,
}
use shpyrd.Releases.History.{App}

abbrev is_char : ℕ → Char → Bool
is_char n c = leb n (code c) && leb (code c) n

-- strings.Cut at a character, and `ref[:i]`, `ref[i+1:]` at its first place
unfoldable pub before : ℕ → String → String
before n empty = ""
before n (push c s) = let rest = before n s in if is_char n c then "" else push c rest

unfoldable pub after : ℕ → String → String
after n empty = ""
after n (push c s) = let rest = after n s in if is_char n c then s else rest

unfoldable pub has_char : ℕ → String → Bool
has_char n empty = false
has_char n (push c s) = let rest = has_char n s in is_char n c || rest

-- The last colon and what follows go, unless a slash follows.
unfoldable pub drop_tag : String → String
drop_tag empty = ""
drop_tag (push c s) =
    let rest = drop_tag s in
    if is_char 58 c && not (has_char 58 s) && not (has_char 47 s) then "" else push c rest

pub record Reference : Type 0 where
  pub host : String
  pub repo : String
  pub digest : String

-- SplitReference
unfoldable pub split_reference : String → Reference
split_reference ref =
    let name = before 64 ref in
    record { host = before 47 name; repo = drop_tag (after 47 name); digest = after 64 ref }

pub record Registry : Type 0 where
  pub deletes : Bool
  pub client : Option String
  pub delete_manifest : String → String → Bool

-- The images that DeleteManifest is called for, and the images that remain.
unfoldable pub prune_loop : Registry → String → List String → List String × List String
prune_loop reg host [] = ([], [])
prune_loop reg host (img ∷ rest) =
    let (asked, remaining) = prune_loop reg host rest in
    let ref = split_reference img in
    if not (ref.host == host) || ref.digest == ""
    then (asked, remaining)
    else if reg.delete_manifest ref.repo ref.digest
    then (img ∷ asked, remaining)
    else (img ∷ asked, img ∷ remaining)

abbrev pub with_client : Registry → App → Option String → List String × App
with_client reg app none = ([], app)
with_client reg app (some host) =
    let (asked, remaining) = prune_loop reg host app.stale_images in
    (asked, record app { stale_images = remaining })

abbrev pub unless_empty : Registry → App → List String → List String × App
unless_empty reg app [] = ([], app)
unless_empty reg app (img ∷ stale) =
    if not reg.deletes
    then ([], record app { stale_images = [] })
    else with_client reg app reg.client

-- pruneImages
unfoldable pub prune_images : Registry → App → List String × App
prune_images reg app = unless_empty reg app app.stale_images

example :
    split_reference "registry:5000/a/b:v1@sha256:ab"
    ≡ record { host = "registry:5000"; repo = "a/b"; digest = "sha256:ab" }
unfolding split_reference before after drop_tag has_char
example = refl
