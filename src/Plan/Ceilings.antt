-- ===== src/Plan/Ceilings.antt =====
-- The ceilings that exceeds of pkg/api/plan.go finds broken.
use shpyrd.Common.{
  ℕ, ◌≤◌, ◌<◌, String, ◌≡◌, refl, true, false, Option, none, some, List, [], ◌∷◌, ◌↔◌, arith, ◌⊎◌,
  inl, inr, ◌==◌, eq_iff, Bool-cases, Option-cases, All,
}
use shpyrd.Store.Types.{ℤ, pos, negsuc, Limits}
use shpyrd.Sizes.Quantities.{Quantities}
use shpyrd.Plan.Usage.{Usage}
use shpyrd.Plan.Check.{
  Axis, axis_projects, axis_compute, axis_storage, Ceiling, too_many_projects, too_many_instances,
  too_much_cpu, too_much_memory, too_much_storage, above, above_text, exceeds,
}

-- A ceiling counts where it is positive.
abbrev pub IsUnder : ℤ → ℕ → Type 0
IsUnder (pos l) n = 0 < l → n ≤ l
IsUnder (negsuc l) n = Unit

-- The number is above the ceiling, which counts.
abbrev pub IsOver : ℤ → ℕ → Type 0
IsOver (pos l) n = (0 < l) × (l < n)
IsOver (negsuc l) n = ⊥

module _ (q : Quantities) where
  -- What a ceiling written as a text asks for: where it is set and parses, the usage is no more.
  abbrev pub IsUnderText : String → q.Quantity → Type 0
  IsUnderText text used =
      (text ≡ "")
      ⊎ (q.parse text ≡ none)
      ⊎ ((limit : q.Quantity) × (q.parse text ≡ some limit) × (q.more used limit ≡ false))

  abbrev pub IsOverText : String → q.Quantity → Type 0
  IsOverText text used =
      ((text == "") ≡ false)
      × ((limit : q.Quantity) × (q.parse text ≡ some limit) × (q.more used limit ≡ true))

  -- What the plan asks of a usage on an axis
  abbrev pub IsWithin : Limits → Usage q → Axis → Type 0
  IsWithin l u axis_projects = IsUnder l.projects u.projects
  IsWithin l u axis_compute =
      IsUnder l.instances u.instances × IsUnderText l.cpu u.cpu × IsUnderText l.memory u.memory
  IsWithin l u axis_storage = IsUnderText l.storage u.storage

  under : (l : ℤ) (n : ℕ) → above l n ≡ false → IsUnder l n
  under (pos l) n h = λ p. ground arith
  under (negsuc l) n h = tt

  not_above : (l : ℤ) (n : ℕ) → IsUnder l n → above l n ≡ false
  not_above (pos l) n h = ground arith
  not_above (negsuc l) n h = refl

  under_text :
      (text : String) (used : q.Quantity) → above_text q text used ≡ false → IsUnderText text used
  under_text text used h = elim (Bool-cases (text == "")) [
    | inl e ↦ inl ((eq_iff text "").0 e)
    | inr e ↦ elim (Option-cases (q.parse text)) [
      | inl f ↦ inr (inl f)
      | inr (limit, f) ↦ inr (inr (limit, f, rw (e, f) at h))
    ]
  ]

  not_above_text :
      (text : String) (used : q.Quantity) → IsUnderText text used → above_text q text used ≡ false
  not_above_text text used (inl e) = rw ((eq_iff text "").1 e) refl
  not_above_text text used (inr (inl e)) = rw e (ground arith)
  not_above_text text used (inr (inr (limit, e, h))) = rw (e, h) (ground arith)

  exceeds-none :
      (l : Limits) (u : Usage q) (axes : List Axis)
      → exceeds q l u axes ≡ none
      → All (IsWithin l u) axes
  unfolding exceeds
  exceeds-none l u [] h = tt
  exceeds-none l u (axis_projects ∷ rest) h =
      ground (arith, exceeds-none l u rest, under l.projects u.projects)
  exceeds-none l u (axis_compute ∷ rest) h = ground (
    arith,
    exceeds-none l u rest,
    under l.instances u.instances,
    under_text l.cpu u.cpu,
    under_text l.memory u.memory,
  )
  exceeds-none l u (axis_storage ∷ rest) h =
      ground (arith, exceeds-none l u rest, under_text l.storage u.storage)

  within-exceeds :
      (l : Limits) (u : Usage q) (axes : List Axis)
      → All (IsWithin l u) axes
      → exceeds q l u axes ≡ none
  unfolding exceeds
  within-exceeds l u [] h = refl
  within-exceeds l u (axis_projects ∷ rest) h =
      rw (not_above l.projects u.projects h.0) (within-exceeds l u rest h.1)
  within-exceeds l u (axis_compute ∷ rest) h =
      rw
        (
          not_above l.instances u.instances h.0.0,
          not_above_text l.cpu u.cpu h.0.1,
          not_above_text l.memory u.memory h.0.2,
        )
        (within-exceeds l u rest h.1)
  within-exceeds l u (axis_storage ∷ rest) h =
      rw (not_above_text l.storage u.storage h.0) (within-exceeds l u rest h.1)

  -- What the plan says of the usage where this ceiling is broken
  abbrev pub IsBroken : Limits → Usage q → Ceiling → Type 0
  IsBroken l u too_many_projects = IsOver l.projects u.projects
  IsBroken l u too_many_instances = IsOver l.instances u.instances
  IsBroken l u too_much_cpu = IsOverText l.cpu u.cpu
  IsBroken l u too_much_memory = IsOverText l.memory u.memory
  IsBroken l u too_much_storage = IsOverText l.storage u.storage

  abbrev pub NamesBroken : Limits → Usage q → Option Ceiling → Type 0
  NamesBroken l u none = Unit
  NamesBroken l u (some c) = IsBroken l u c

  over : (l : ℤ) (n : ℕ) → above l n ≡ true → IsOver l n
  over (pos l) n h = (ground arith, ground arith)
  over (negsuc l) n h = absurd (ground (arith, h))

  over_text :
      (text : String) (used : q.Quantity) → above_text q text used ≡ true → IsOverText text used
  over_text text used h = elim (Bool-cases (text == "")) [
    | inl e ↦ absurd (ground (arith, rw e at h))
    | inr e ↦ elim (Option-cases (q.parse text)) [
      | inl f ↦ absurd (ground (arith, rw (e, f) at h))
      | inr (limit, f) ↦ (e, (limit, f, rw (e, f) at h))
    ]
  ]

  exceeds-NamesBroken :
      (l : Limits) (u : Usage q) (axes : List Axis) → NamesBroken l u (exceeds q l u axes)
  unfolding exceeds
  exceeds-NamesBroken l u [] = tt
  exceeds-NamesBroken l u (axis_projects ∷ rest) = elim (Bool-cases (above l.projects u.projects)) [
    | inl e ↦ rw e (over l.projects u.projects e)
    | inr e ↦ rw e (exceeds-NamesBroken l u rest)
  ]
  exceeds-NamesBroken l u (axis_compute ∷ rest) =
      elim (Bool-cases (above l.instances u.instances)) [
        | inl e ↦ rw e (over l.instances u.instances e)
        | inr e ↦ elim (Bool-cases (above_text q l.cpu u.cpu)) [
          | inl f ↦ rw (e, f) (over_text l.cpu u.cpu f)
          | inr f ↦ elim (Bool-cases (above_text q l.memory u.memory)) [
            | inl g ↦ rw (e, f, g) (over_text l.memory u.memory g)
            | inr g ↦ rw (e, f, g) (exceeds-NamesBroken l u rest)
          ]
        ]
      ]
  exceeds-NamesBroken l u (axis_storage ∷ rest) =
      elim (Bool-cases (above_text q l.storage u.storage)) [
        | inl e ↦ rw e (over_text l.storage u.storage e)
        | inr e ↦ rw e (exceeds-NamesBroken l u rest)
      ]

  -- `exceeds` finds nothing exactly where the usage is within the plan on every axis asked about:
  -- no number above a ceiling that is positive, and no quantity more than a ceiling that is set and
  -- parses. A ceiling that it names is broken: the number is above it and it is positive, or the
  -- quantity is more than it and it is set and parses.
  pub exceeds-IsWithin :
      (l : Limits) (u : Usage q) (axes : List Axis)
      → ((exceeds q l u axes ≡ none) ↔ All (IsWithin l u) axes)
        × NamesBroken l u (exceeds q l u axes)
  exceeds-IsWithin l u axes =
      ((exceeds-none l u axes, within-exceeds l u axes), exceeds-NamesBroken l u axes)
