-- ===== src/Releases/Tests.antt =====
-- The release history at concrete inputs.
use Prim.Native.String.{◌++◌ as text_append}
use shpyrd.Common.{
  ℕ, arith, zero, suc, String, ◌≡◌, refl, true, false, ◌||◌, none, some, List, [], ◌∷◌, length, any,
  ◌==◌, keep, lookup, sort, text_less,
}
use shpyrd.Releases.Sizes.{describe_config_change, describe_size_change, join, join_max}
use shpyrd.Releases.History.{Release, App, Target, last_of, record_release, unreferenced_images}
use shpyrd.Releases.Runs.{IsHistory, run, run-IsHistory, record_release-current}
use shpyrd.Releases.Images.{is_tracked, run-tracks}
use shpyrd.Releases.Prune.{
  Registry, prune_images, prune_loop, split_reference, before, after, drop_tag, has_char,
}
use shpyrd.Releases.Unused.{Step, release, prune}

abbrev new_app : App
new_app = record { note = ""; releases = []; stale_images = [] }

abbrev image_of : ℕ → String
image_of zero = "registry:5000/shop@sha256:0"
image_of (suc n) = text_append (image_of n) "1"

abbrev deploy : ℕ → Target
deploy n = record {
  image = image_of n;
  hash = "cfg";
  global_hash = "";
  source = "";
  now = n;
  config_desc = "";
  sizes = none;
}

-- Deploys of the images n, n - 1, …, 1
abbrev deploys : ℕ → List (String × Target)
deploys zero = []
deploys (suc n) = ("", deploy (suc n)) ∷ deploys n

one_leaves : (run (deploys 21) new_app).stale_images ≡ image_of 21 ∷ []
unfolding run record_release unreferenced_images any
one_leaves = refl

twenty_stay : length (run (deploys 21) new_app).releases ≡ 20
unfolding run record_release unreferenced_images any
twenty_stay = refl

run-IsHistory_example : IsHistory (run (deploys 21) new_app)
run-IsHistory_example = run-IsHistory (deploys 21) new_app (omega arith, tt)

record_release-current_example :
    ((r : Release) × (last_of (record_release (deploy 3) new_app).1.releases ≡ some r)
      × (r.image ≡ (deploy 3).image)
      × (r.config_hash ≡ (deploy 3).hash))
    × (record_release (deploy 3) (record_release (deploy 3) new_app).1
        ≡ (false, (record_release (deploy 3) new_app).1))
record_release-current_example = record_release-current (deploy 3) new_app

run-tracks_example :
    is_tracked (image_of 21) (run (deploys 21) new_app)
    ≡ (is_tracked (image_of 21) new_app || any (λ c. c.1.image == image_of 21) (deploys 21))
run-tracks_example = run-tracks (deploys 21) new_app (image_of 21) refl

abbrev release_of : ℕ → Release
release_of n = record {
  number = n;
  image = image_of n;
  source = "";
  config_hash = "cfg";
  global_hash = "";
  description = "Deploy";
  created_at = n;
  processes = [];
  sizes = none;
  bindings = [];
}

abbrev registry : Registry
registry = record {
  deletes = true;
  client = some "registry:5000";
  delete_manifest = λ repo digest. true;
}

abbrev waiting : App
waiting = record { note = ""; releases = release_of 2 ∷ []; stale_images = image_of 1 ∷ [] }

abbrev steps : List Step
steps = release "" (deploy 3) ∷ prune registry ∷ []

is_deleted : (prune_images registry waiting).0 ≡ image_of 1 ∷ []
unfolding prune_images prune_loop split_reference before after drop_tag has_char
is_deleted = refl

-- An image that waits for its deletion is deleted even if it was released again.
current_deleted : (prune_images registry (record_release (deploy 1) waiting).1).0 ≡ image_of 1 ∷ []
unfolding prune_images prune_loop split_reference before after drop_tag has_char record_release
current_deleted = refl

config_in_words :
    describe_config_change (λ n. "n") (("A", "1") ∷ ("B", "2") ∷ []) (("A", "3") ∷ ("C", "4") ∷ [])
    ≡ "Set A, C, Remove B config vars"
unfolding describe_config_change join_max join keep lookup sort text_less
config_in_words = refl

size_in_words :
    describe_size_change (some (("web", "xs") ∷ [])) (some (("worker", "m") ∷ ("web", "m") ∷ []))
    ≡ "Resize web to m, worker to m"
unfolding describe_size_change join keep lookup sort text_less
size_in_words = refl
