-- ===== src/Releases/History.antt =====
-- The release history of an app, internal/controller/status.go, and the status that it is kept in,
-- api/v1alpha1/app_types.go.
use Prim.Native.String.{◌++◌ as text_append}
use shpyrd.Common.{
  ℕ, ◌+◌, ◌-◌, String, Bool, true, false, not, ◌&&◌, ◌||◌, Option, none, some, List, [], ◌∷◌, ◌++◌,
  ltb, ◌==◌, if◌then◌else◌, any, length, take, drop,
}
use shpyrd.Releases.Sizes.{Strings, describe_size_change}

pub record Binding : Type 0 where
  pub kind : String
  pub name : String
  pub prefix : String

pub record Release : Type 0 where
  pub number : ℕ
  pub image : String
  pub source : String
  pub config_hash : String
  pub global_hash : String
  pub description : String
  pub created_at : ℕ
  pub processes : List String
  pub sizes : Option Strings
  pub bindings : List Binding

-- The parts of an App that a release reads and writes: the annotation of the release note, and
-- Status.Releases and Status.StaleImages.
pub record App : Type 0 where
  pub note : String
  pub releases : List Release
  pub stale_images : List String

-- What recordRelease is called with.
pub record Target : Type 0 where
  pub image : String
  pub hash : String
  pub global_hash : String
  pub source : String
  pub now : ℕ
  pub config_desc : String
  pub sizes : Option Strings

-- maxReleases
abbrev pub max_releases : ℕ
max_releases = 20

-- App.CurrentRelease
abbrev pub last_of : List Release → Option Release
last_of [] = none
last_of (r ∷ []) = some r
last_of (r ∷ s ∷ rest) = last_of (s ∷ rest)

-- unreferencedImages: `seen` is the set of the images put out so far.
unfoldable pub unreferenced_images : List String → List Release → List Release → List String
unreferenced_images seen [] kept = []
unreferenced_images seen (r ∷ dropped) kept =
    let later = unreferenced_images seen dropped kept in
    let later_seen = unreferenced_images (r.image ∷ seen) dropped kept in
    if r.image == "" || any (λ k. k.image == r.image) kept || any (λ i. i == r.image) seen
    then later
    else r.image ∷ later_seen

abbrev pub has_target : Target → Option Release → Bool
has_target t none = false
has_target t (some cur) = cur.image == t.image && cur.config_hash == t.hash

abbrev with_source : Target → String → String
with_source t desc = if t.source == "" then desc else text_append desc (text_append " " t.source)

abbrev resize_or_config : Target → String → String
resize_or_config t resize =
    if not (resize == "")
    then resize
    else if not (t.config_desc == "")
    then t.config_desc
    else "Config change"

abbrev described : Target → Option Release → String
described t none = with_source t "Initial deploy"
described t (some cur) =
    if not (cur.image == t.image)
    then with_source t "Deploy"
    else resize_or_config t (describe_size_change cur.sizes t.sizes)

abbrev pub next_number : Option Release → ℕ
next_number none = 1
next_number (some cur) = cur.number + 1

abbrev pub new_release : App → Target → Release
new_release app t = record {
  number = next_number (last_of app.releases);
  image = t.image;
  source = t.source;
  config_hash = t.hash;
  global_hash = t.global_hash;
  description = if app.note == "" then described t (last_of app.releases) else app.note;
  created_at = t.now;
  processes = [];
  sizes = t.sizes;
  bindings = [];
}

-- The end of recordRelease: the oldest releases go where there are too many.
abbrev pub trim_history : List Release → App → App
trim_history all app =
    let n = length all - max_releases in
    if ltb max_releases (length all)
    then record app {
      releases = drop n all;
      stale_images = app.stale_images ++ unreferenced_images [] (take n all) (drop n all);
    }
    else record app { releases = all }

-- recordRelease
unfoldable pub record_release : Target → App → Bool × App
record_release t app =
    if has_target t (last_of app.releases)
    then (false, app)
    else (true, trim_history (app.releases ++ new_release app t ∷ []) app)
