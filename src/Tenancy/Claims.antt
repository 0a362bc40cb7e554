-- ===== src/Tenancy/Claims.antt =====
-- Whose hosts ByAddress answers for, pkg/tenancy/tenancy.go, with the store of pkg/store/memory.go.
use shpyrd.Common.{
  ℕ, String, ◌≡◌, refl, sym, ap, ◌∙◌, Bool, true, Option, none, some, List, ◌==◌, eq_iff, ◌⊎◌, inl,
  inr, lookup, find?, find?-passes, arith, Bool-cases, Option-cases, All-lookup_at, to_lower,
  trim_space,
}
use shpyrd.Store.Types.{Workspace, not_found, default_workspace}
use shpyrd.Store.State.{Memory, Result, with_ws}
use shpyrd.Store.State
use shpyrd.Store.Workspaces.{workspace, workspace_by_address}
use shpyrd.Store.Valid.{WorkspacesValid}
use shpyrd.Tenancy.Hosts.{host_of, after_dot}
use shpyrd.Tenancy.Resolver.{
  Found, found, absent, trouble, Directory, at, Entry, ByAddress, is_platform, of_store, platform,
  or_platform, parent, or_parent, look_up, resolve,
}
use shpyrd.Tenancy.Caches.{with_cache, Reaches, resolve_recent}

-- What the methods of a store promise of the workspaces that they find.
pub record IsLawful (dir : Directory) : Type 0 where
  pub addressed :
      {a : String} {w : Workspace}
      → dir.by_address a ≡ found w
      → w.address ≡ to_lower (trim_space a)
  pub named : {s : String} {w : Workspace} → dir.by_slug s ≡ found w → w.slug ≡ s

abbrev of_result : Result Workspace → Found
of_result (State.ok w) = found w
of_result (State.err not_found) = absent
of_result (State.err e) = trouble

-- The in-memory store as a resolver sees it.
abbrev pub memory_directory : Memory → Directory
memory_directory m = record {
  by_address = λ a. of_result (workspace_by_address a m).0;
  by_slug = λ s. of_result (workspace s m).0;
}

same_found : (v w : Workspace) → found v ≡ found w → v ≡ w
same_found v w e = ground (arith, e)

same_at : (v w : Workspace) → at v ≡ at w → v ≡ w
same_at v w e = ground (arith, e)

-- The in-memory store keeps the promise where its workspaces are keyed by their slugs.
pub memory_directory-IsLawful :
    (m : Memory) → WorkspacesValid m.workspaces → IsLawful (memory_directory m)
unfolding workspace workspace_by_address with_ws
memory_directory-IsLawful m v = record {
  addressed = λ {a} {w} e. by_address a w e;
  named = λ {s} {w} e. by_slug s w e;
}
  where
    by_address :
        (a : String) (w : Workspace)
        → (memory_directory m).by_address a ≡ found w
        → w.address ≡ to_lower (trim_space a)
    by_address a w e = elim (Bool-cases (to_lower (trim_space a) == "")) [
      | inl f ↦ absurd (ground (arith, rw f at e))
      | inr f ↦
          elim (Option-cases (find? (λ e. e.1.address == to_lower (trim_space a)) m.workspaces)) [
            | inl g ↦ absurd (ground (arith, rw (f, g) at e))
            | inr (x, g) ↦
                ap (λ v. v.address) (sym (same_found x.1 w (rw (f, g) at e)))
                ∙ (eq_iff x.1.address (to_lower (trim_space a))).0
                    (find?-passes (λ e. e.1.address == to_lower (trim_space a)) m.workspaces g)
          ]
    ]

    by_slug : (s : String) (w : Workspace) → (memory_directory m).by_slug s ≡ found w → w.slug ≡ s
    by_slug s w e = elim (Option-cases (lookup s m.workspaces)) [
      | inl g ↦ absurd (ground (arith, rw g at e))
      | inr (x, g) ↦
          ap (λ v. v.slug) (sym (same_found x w (rw g at e)))
          ∙ sym (All-lookup_at (λ e. e.0 ≡ e.1.slug) s m.workspaces v.keyed g)
    ]

module _ (split_host_port : String → Option String) (is_ip : String → Bool) where
  -- A workspace answers at its own address, one label under it, or, if it is the implicit one, at
  -- a name of the platform.
  abbrev pub Claims : ByAddress → String → Workspace → Type 0
  Claims r host w =
      (w.address ≡ to_lower (trim_space host))
      ⊎ ((p : String) × (after_dot host ≡ some p) × (w.address ≡ to_lower (trim_space p)))
      ⊎ ((is_platform split_host_port is_ip r host ≡ true) × (w.slug ≡ default_workspace))

  module _ (dir : Directory) (r : ByAddress) (host : String) {w : Workspace}
      (lawful : IsLawful dir) where
    by_name : platform split_host_port is_ip dir r host ≡ at w → Claims r host w
    by_name e = elim (Bool-cases (is_platform split_host_port is_ip r host)) [
      | inr f ↦ absurd (ground (arith, rw f at e))
      | inl f ↦ inr (inr (f, of_slug (dir.by_slug default_workspace) refl (rw f at e)))
    ]
      where
        of_slug :
            (x : Found)
            → dir.by_slug default_workspace ≡ x
            → of_store x ≡ at w
            → w.slug ≡ default_workspace
        of_slug (found v) f e = ap (λ v. v.slug) (sym (same_at v w e)) ∙ lawful.named f
        of_slug absent f e = absurd (ground (arith, e))
        of_slug trouble f e = absurd (ground (arith, e))

    by_parent :
        (o : Option String)
        → after_dot host ≡ o
        → parent split_host_port is_ip dir r host o ≡ at w
        → Claims r host w
    by_parent none f e = by_name e
    by_parent (some p) f e = elim (Bool-cases (p == "")) [
      | inl g ↦ by_name (rw g at e)
      | inr g ↦ of_address (dir.by_address p) refl (rw g at e)
    ]
      where
        of_address :
            (x : Found)
            → dir.by_address p ≡ x
            → or_platform split_host_port is_ip dir r host x ≡ at w
            → Claims r host w
        of_address (found v) g e =
            inr (inl (p, f, ap (λ v. v.address) (sym (same_at v w e)) ∙ lawful.addressed g))
        of_address absent g e = by_name e
        of_address trouble g e = absurd (ground (arith, e))

    by_host :
        (x : Found)
        → dir.by_address host ≡ x
        → or_parent split_host_port is_ip dir r host x ≡ at w
        → Claims r host w
    by_host (found v) f e = inl (ap (λ v. v.address) (sym (same_at v w e)) ∙ lawful.addressed f)
    by_host absent f e = by_parent (after_dot host) refl e
    by_host trouble f e = absurd (ground (arith, e))

    -- A lookup lands in no workspace but one that claims the host.
    look_up-Claims : look_up split_host_port is_ip dir r host ≡ at w → Claims r host w
    unfolding look_up
    look_up-Claims e = by_host (dir.by_address host) refl e

  -- Whatever calls came before and however they interleaved, Resolve lands in no workspace but one
  -- that claims the host, if the store finds workspaces by the address and the slug they have.
  pub resolve-Claims :
      (seen : ℕ → Directory) (r : ByAddress) {c : List (String × Entry)} (now : ℕ)
      (hostport : String) {w : Workspace}
      → ((t : ℕ) → IsLawful (seen t))
      → Reaches split_host_port is_ip seen r c
      → (resolve split_host_port is_ip now
          (seen now)
          hostport
          (with_cache split_host_port is_ip seen r c)).0
        ≡ at w
      → Claims r (host_of split_host_port is_ip hostport) w
  resolve-Claims seen r now hostport lawful h e =
      let (t, early, same) = resolve_recent split_host_port is_ip seen r now hostport h in
      look_up-Claims (seen t) r (host_of split_host_port is_ip hostport) (lawful t) (sym same ∙ e)
