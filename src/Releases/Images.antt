-- ===== src/Releases/Images.antt =====
-- The images of releases that leave the history, internal/controller/status.go.
use shpyrd.Common.{
  ◌-◌, String, ◌≡◌, Bool, true, false, not, ◌&&◌, ◌||◌, List, [], ◌∷◌, ◌++◌, ltb, ◌==◌, eq_iff,
  eq_refl, any, any-append, any-take-drop, length, take, drop, arith, inl, inr, Bool-cases,
}
use shpyrd.Releases.History.{
  Release, App, Target, last_of, new_release, has_target, record_release, unreferenced_images,
  max_releases,
}
use shpyrd.Releases.Runs.{run}

abbrev pub uses : String → List Release → Bool
uses img rs = any (λ r. r.image == img) rs

abbrev pub lists : String → List String → Bool
lists img xs = any (λ i. i == img) xs

unreferenced_images_after :
    (img : String) (seen : List String) (dropped kept : List Release)
    → lists img (unreferenced_images seen dropped kept)
      ≡ (not (img == "") && uses img dropped && not (uses img kept) && not (lists img seen))
unfolding unreferenced_images any
unreferenced_images_after img seen [] kept = ground arith
unreferenced_images_after img seen (r ∷ dropped) kept = elim (Bool-cases (r.image == img)) [
  | inl e ↦ rw ((eq_iff r.image img).0 e) (
      ground (
        arith,
        eq_refl img,
        unreferenced_images_after img seen dropped kept,
        unreferenced_images_after img (img ∷ seen) dropped kept,
      ))
  | inr e ↦ ground (
    arith,
    e,
    unreferenced_images_after img seen dropped kept,
    unreferenced_images_after img (r.image ∷ seen) dropped kept,
  )
]

-- unreferencedImages lists an image exactly if it is not empty, a dropped release uses it and no
-- kept release does.
pub unreferenced_images-uses :
    (img : String) (dropped kept : List Release)
    → lists img (unreferenced_images [] dropped kept)
      ≡ (not (img == "") && uses img dropped && not (uses img kept))
unfolding any
unreferenced_images-uses img dropped kept =
    ground (arith, unreferenced_images_after img [] dropped kept)

-- Where an image is known of: in the history or in the list of stale images.
abbrev pub is_tracked : String → App → Bool
is_tracked img app = uses img app.releases || lists img app.stale_images

pub uses-snoc :
    (img : String) (rs : List Release) (r : Release)
    → uses img (rs ++ r ∷ []) ≡ (uses img rs || r.image == img)
unfolding any
uses-snoc img rs r = ground (arith, any-append (λ q. q.image == img) rs (r ∷ []))

-- The current release is one of the history.
has_target-uses :
    (t : Target) (img : String) (rs : List Release)
    → has_target t (last_of rs) ≡ true
    → (t.image == img) ≡ true
    → uses img rs ≡ true
unfolding any
has_target-uses t img [] h k = absurd (ground (arith, h))
has_target-uses t img (r ∷ []) h k =
    ground (arith, h, k, eq_iff r.image t.image, eq_iff t.image img, eq_iff r.image img)
has_target-uses t img (r ∷ s ∷ rest) h k = ground (arith, has_target-uses t img (s ∷ rest) h k)

-- recordRelease tracks the images tracked before, and the one called for.
record_release-tracks :
    (t : Target) (app : App) (img : String)
    → (img == "") ≡ false
    → is_tracked img (record_release t app).1 ≡ (is_tracked img app || t.image == img)
unfolding record_release
record_release-tracks t app img h =
    let all = app.releases ++ new_release app t ∷ [] in
    let n = length all - 20 in
    let snoc : uses img all ≡ (uses img app.releases || t.image == img) =
      uses-snoc img app.releases (new_release app t) in
    elim (Bool-cases (has_target t (last_of app.releases))) [
      | inl e ↦ rw e (ground (arith, has_target-uses t img app.releases e))
      | inr e ↦ elim (Bool-cases (ltb max_releases (length all))) [
        | inl f ↦
            rw (e, f)
              (ground (
                arith,
                snoc,
                h,
                any-take-drop (λ r. r.image == img) n all,
                any-append (λ i. i == img) app.stale_images
                    (unreferenced_images [] (take n all) (drop n all)),
                unreferenced_images-uses img (take n all) (drop n all),
              ))
        | inr f ↦ rw (e, f) (ground (arith, snoc))
      ]
    ]

-- After any number of calls of recordRelease the images in the history or in the list of stale ones
-- are those of before and those released, but for the empty name: none that could be deleted is lost
-- track of.
pub run-tracks :
    (calls : List (String × Target)) (app : App) (img : String)
    → (img == "") ≡ false
    → is_tracked img (run calls app) ≡ (is_tracked img app || any (λ c. c.1.image == img) calls)
unfolding run any
run-tracks [] app img h = ground arith
run-tracks ((note, t) ∷ rest) app img h = ground (
  arith,
  run-tracks rest (record_release t (record app { note = note })).1 img h,
  record_release-tracks t (record app { note = note }) img h,
)
