-- ===== src/Releases/Unused.antt =====
-- Which images pruneImages asks the registry to delete, internal/controller/registry.go, over any
-- sequence of calls of recordRelease and pruneImages.
use shpyrd.Common.{String, ◌≡◌, false, List, [], ◌∷◌, All}
use shpyrd.Releases.History.{Release, App, Target, record_release}
use shpyrd.Releases.Images.{uses, lists}
use shpyrd.Releases.Prune.{Registry, prune_images}

-- No image of the list is that of a release.
abbrev pub AreUnused : List Release → List String → Type 0
AreUnused rs images = All (λ i. uses i rs ≡ false) images

pub data Step : Type 0 where
  release : String → Target → Step
  prune : Registry → Step

abbrev pub step : Step → App → App
step (release note t) app = (record_release t (record app { note = note })).1
step (prune reg) app = (prune_images reg app).1

-- No call of the run releases an image that waits for its deletion.
abbrev pub NoneStale : List Step → App → Type 0
NoneStale [] app = Unit
NoneStale (release note t ∷ rest) app =
    (lists t.image app.stale_images ≡ false) × NoneStale rest (step (release note t) app)
NoneStale (prune reg ∷ rest) app = NoneStale rest (step (prune reg) app)

-- Each pruneImages of the run asks for the deletion of images that no release uses.
abbrev pub AllUnused : List Step → App → Type 0
AllUnused [] app = Unit
AllUnused (release note t ∷ rest) app = AllUnused rest (step (release note t) app)
AllUnused (prune reg ∷ rest) app =
    AreUnused app.releases (prune_images reg app).0 × AllUnused rest (step (prune reg) app)
