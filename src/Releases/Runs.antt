-- ===== src/Releases/Runs.antt =====
-- The release history over any number of calls of recordRelease, internal/controller/status.go.
use shpyrd.Common.{
  ℕ, zero, suc, ◌+◌, ◌-◌, ◌≤◌, ◌<◌, String, ◌≡◌, refl, ◌∙◌, true, false, some, List, [], ◌∷◌, ◌++◌,
  ltb, ltb→lt, eq_refl, eq_iff, ◌==◌, &&-eq-true, length, length-drop, drop, arith, inl, inr,
  Bool-cases, Option-cases,
}
use shpyrd.Releases.History.{
  Release, App, Target, last_of, next_number, new_release, has_target, record_release, max_releases,
}

-- Each release has the number after the one before it.
abbrev pub Numbered : List Release → Type 0
Numbered [] = Unit
Numbered (r ∷ []) = Unit
Numbered (r ∷ s ∷ rest) = (s.number ≡ r.number + 1) × Numbered (s ∷ rest)

-- At most 20 releases, numbered without a gap.
abbrev pub IsHistory : App → Type 0
IsHistory app = (length app.releases ≤ 20) × Numbered app.releases

Numbered-drop : (n : ℕ) (rs : List Release) → Numbered rs → Numbered (drop n rs)
Numbered-drop zero rs h = h
Numbered-drop (suc n) [] h = tt
Numbered-drop (suc n) (r ∷ []) h = Numbered-drop n [] tt
Numbered-drop (suc n) (r ∷ s ∷ rest) h = Numbered-drop n (s ∷ rest) h.1

Numbered-snoc :
    (rs : List Release) (r : Release)
    → Numbered rs
    → r.number ≡ next_number (last_of rs)
    → Numbered (rs ++ r ∷ [])
Numbered-snoc [] r h e = tt
Numbered-snoc (q ∷ []) r h e = (e, tt)
Numbered-snoc (q ∷ s ∷ rest) r h e = (h.0, Numbered-snoc (s ∷ rest) r h.1 e)

last_of-snoc : (rs : List Release) (r : Release) → last_of (rs ++ r ∷ []) ≡ some r
last_of-snoc [] r = refl
last_of-snoc (q ∷ []) r = refl
last_of-snoc (q ∷ s ∷ rest) r = last_of-snoc (s ∷ rest) r

last_of-drop : (n : ℕ) (rs : List Release) → n < length rs → last_of (drop n rs) ≡ last_of rs
last_of-drop zero rs h = refl
last_of-drop (suc n) [] h = absurd (omega (arith, h))
last_of-drop (suc n) (r ∷ []) h = absurd (omega (arith, h))
last_of-drop (suc n) (r ∷ s ∷ rest) h = last_of-drop n (s ∷ rest) (omega (arith, h))

ltb-false : {m n : ℕ} → ltb m n ≡ false → n ≤ m
ltb-false {m} {n} h = ground (arith, h)

-- recordRelease keeps the history within 20 releases that are numbered without a gap.
record_release-IsHistory :
    (t : Target) (app : App) → IsHistory app → IsHistory (record_release t app).1
unfolding record_release
record_release-IsHistory t app h =
    let all = app.releases ++ new_release app t ∷ [] in
    let numbered : Numbered all = Numbered-snoc app.releases (new_release app t) h.1 refl in
    let shorter = length-drop (length all - 20) all in
    elim (Bool-cases (has_target t (last_of app.releases))) [
      | inl e ↦ rw e h
      | inr e ↦ elim (Bool-cases (ltb max_releases (length all))) [
        | inl f ↦ rw (e, f) (omega (arith, shorter), Numbered-drop (length all - 20) all numbered)
        | inr f ↦ rw (e, f) (ltb-false f, numbered)
      ]
    ]

-- The calls one after the other; the release note may be another one at each.
unfoldable pub run : List (String × Target) → App → App
run [] app = app
run ((note, t) ∷ rest) app = run rest (record_release t (record app { note = note })).1

-- After any number of calls of recordRelease the history has at most 20 releases, numbered without
-- a gap, if it was so at the start.
pub run-IsHistory :
    (calls : List (String × Target)) (app : App) → IsHistory app → IsHistory (run calls app)
unfolding run
run-IsHistory [] app h = h
run-IsHistory ((note, t) ∷ rest) app h =
    run-IsHistory rest _ (record_release-IsHistory t (record app { note = note }) h)

has_target-some :
    (t : Target) (r : Release)
    → has_target t (some r) ≡ true
    → (r.image ≡ t.image) × (r.config_hash ≡ t.hash)
has_target-some t r e =
    let (image, hash) = &&-eq-true (r.image == t.image) (r.config_hash == t.hash) e in
    ((eq_iff r.image t.image).0 image, (eq_iff r.config_hash t.hash).0 hash)

-- The release that recordRelease leaves as the current one has the image and the configuration
-- hash called for, and a further call for them changes nothing.
pub record_release-current :
    (t : Target) (app : App)
    → ((r : Release) × (last_of (record_release t app).1.releases ≡ some r)
        × (r.image ≡ t.image)
        × (r.config_hash ≡ t.hash))
      × (record_release t (record_release t app).1 ≡ (false, (record_release t app).1))
unfolding record_release
record_release-current t app =
    let all = app.releases ++ new_release app t ∷ [] in
    let last = last_of-snoc app.releases (new_release app t) in
    let there : has_target t (some (new_release app t)) ≡ true =
      ground (arith, eq_refl t.image, eq_refl t.hash) in
    elim (Bool-cases (has_target t (last_of app.releases))) [
      | inl e ↦ elim (Option-cases (last_of app.releases)) [
        | inl f ↦ absurd (ground (arith, rw f at e))
        | inr (r, f) ↦
            rw (e, e)
              (let (image, hash) = has_target-some t r (rw f at e) in (r, f, image, hash), refl)
      ]
      | inr e ↦ elim (Bool-cases (ltb max_releases (length all))) [
        | inl f ↦
            let last_kept =
              last_of-drop (length all - 20) all (omega (arith, ltb→lt _ _ f)) ∙ last in
            rw (e, f, last_kept, there) ((new_release app t, refl, refl, refl), refl)
        | inr f ↦ rw (e, f, last, there) ((new_release app t, refl, refl, refl), refl)
      ]
    ]
