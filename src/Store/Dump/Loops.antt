-- ===== src/Store/Dump/Loops.antt =====
-- Rules for the loops of importDump.
use shpyrd.Common.{ℕ, suc, ◌≡◌, refl, none, some, List, [], ◌∷◌, arith, All}
use shpyrd.Store.Dump.{State, Progress, and_then, for_each, in_turn}

-- The step went through, and left a state that satisfies the predicate.
pub record Succeeds {ℓ} (P : State → Type ℓ) (p : Progress) : Type ℓ where
  pub no_error : p.0 ≡ none
  pub state : P p.1

module _ {ℓ} (P : State → Type ℓ) where
  -- What the first part leaves and the second part keeps holds in the end, error or not.
  pub and_then-keeps :
      (p : Progress) (k : State → Progress)
      → P p.1
      → ((s : State) → P s → P (k s).1)
      → P (and_then p k).1
  and_then-keeps (none, s) k h f = f s h
  and_then-keeps (some e, s) k h f = h

  pub in_turn-keeps :
      (parts : List (State → Progress))
      → All (λ part. (s : State) → P s → P (part s).1) parts
      → (s : State) → P s
      → P (in_turn parts s).1
  unfolding in_turn
  in_turn-keeps [] k s h = h
  in_turn-keeps (part ∷ parts) k s h =
      and_then-keeps (part s) (in_turn parts) (k.0 s h) (in_turn-keeps parts k.1)

  pub and_then-Succeeds {κ} :
      (Q : State → Type κ) (p : Progress) (k : State → Progress)
      → Succeeds P p
      → ((s : State) → P s → Succeeds Q (k s))
      → Succeeds Q (and_then p k)
  and_then-Succeeds Q (none, s) k h f = f s h.state
  and_then-Succeeds Q (some e, s) k h f = absurd (ground (arith, h.no_error))

module _ {ℓ κ} {A : Type κ} (P : State → Type ℓ) (body : ℕ → A → State → Progress) where
  pub for_each-keeps :
      ((i : ℕ) (x : A) (s : State) → P s → P (body i x s).1)
      → (i : ℕ) (xs : List A) (s : State) → P s
      → P (for_each body i xs s).1
  unfolding for_each
  for_each-keeps keep i [] s h = h
  for_each-keeps keep i (x ∷ xs) s h =
      and_then-keeps P (body i x s) (for_each body (suc i) xs) (keep i x s h)
        (for_each-keeps keep (suc i) xs)

  pub for_each-Succeeds {μ} :
      (Good : A → Type μ)
      → ((i : ℕ) (x : A) (s : State) → Good x → P s → Succeeds P (body i x s))
      → (i : ℕ) (xs : List A) (s : State) → All Good xs
      → P s
      → Succeeds P (for_each body i xs s)
  unfolding for_each
  for_each-Succeeds Good go i [] s g h = record { no_error = refl; state = h }
  for_each-Succeeds Good go i (x ∷ xs) s g h =
      and_then-Succeeds P P (body i x s) (for_each body (suc i) xs) (go i x s g.0 h)
        (λ t. for_each-Succeeds Good go (suc i) xs t g.1)

-- A fact about each entry that its own round establishes and every round keeps holds at the end.
module _ {ℓ κ} {A : Type κ} (body : ℕ → A → State → Progress) (R : A → State → Type ℓ)
    (keep : (i : ℕ) (x y : A) (s : State) → R y s → R y (body i x s).1) where
  later : (i : ℕ) (xs : List A) (y : A) (s : State) → R y s → R y (for_each body i xs s).1
  later i xs y s = for_each-keeps (R y) body (λ j x t. keep j x y t) i xs s

  pub for_each-establishes {μ ν} :
      (Good : A → Type μ) (P : State → Type ν)
      → ((i : ℕ) (x : A) (s : State) → Good x → P s → Succeeds P (body i x s))
      → ((i : ℕ) (x : A) (s : State) → Good x → P s → R x (body i x s).1)
      → (i : ℕ) (xs : List A) (s : State) → All Good xs
      → P s
      → All (λ x. R x (for_each body i xs s).1) xs
  unfolding for_each
  for_each-establishes Good P go own i [] s g h = tt
  for_each-establishes Good P go own i (x ∷ xs) s g h =
      both (for_each-establishes Good P go own (suc i) xs) (body i x s) (go i x s g.0 h)
        (own i x s g.0 h)
    where
      both :
          ((t : State) → All Good xs → P t → All (λ y. R y (for_each body (suc i) xs t).1) xs)
          → (p : Progress) → Succeeds P p
          → R x p.1
          → R x (and_then p (for_each body (suc i) xs)).1
            × All (λ y. R y (and_then p (for_each body (suc i) xs)).1) xs
      both rest (none, t) ok r = (later (suc i) xs x t r, rest t g.1 ok.state)
      both rest (some e, t) ok r = absurd (ground (arith, ok.no_error))
