-- ===== src/Store/Valid/People.antt =====
-- The methods on people and the invariant of the store.
use shpyrd.Common.{
  String, ◌≡◌, refl, List, inl, inr, All-snoc, All-update_first, All-delete_first, IsUnique-snoc,
  IsUnique-update_first, IsUnique-delete_first, find?, find?-none, Option-cases, to_lower,
  to_lower_idem, trim_space,
}
use shpyrd.Store.Types.{Identity}
use shpyrd.Store.State.{Memory, Env, with_ws-after}
use shpyrd.Store.Identities.{
  is_person, has_email, realm_of, seen_again, touch_identity, set_identity_status, delete_identity,
}
use shpyrd.Store.Valid.{PeopleValid, same_person, IsValid}

module _ (m : Memory) (v : IsValid m) where
  with_people :
      (people : List Identity) → PeopleValid people → IsValid (record m { identities = people })
  with_people people p = record {
    workspaces = v.workspaces;
    teams = v.teams;
    grants = v.grants;
    people = p;
    claims = v.claims;
    tokens = v.tokens;
    sessions = v.sessions;
  }

  -- TouchIdentity keeps the store valid, whatever the person.
  pub touch_identity-IsValid :
      (env : Env) (ws : String) (id : Identity) → IsValid (touch_identity env ws id m).1
  unfolding touch_identity
  touch_identity-IsValid env ws id = with_ws-after IsValid ws m _ v λ w _.
      let p = is_person w.id (realm_of id) (to_lower (trim_space id.email)) in
      elim (Option-cases (find? p m.identities)) [
        | inl e ↦ rw e (
            with_people _ (record {
              distinct =
                  IsUnique-snoc same_person m.identities _ (find?-none p m.identities e)
                    v.people.distinct;
              lower =
                  All-snoc (λ (x : Identity). to_lower x.email ≡ x.email) m.identities _
                    v.people.lower (to_lower_idem (trim_space id.email));
            }))
        | inr (it, e) ↦ rw e (
            with_people _ (record {
              distinct =
                  IsUnique-update_first same_person p (seen_again env id) (λ a b. refl)
                    (λ a b. refl) m.identities v.people.distinct;
              lower =
                  All-update_first (λ (x : Identity). to_lower x.email ≡ x.email) p
                    (seen_again env id) (λ a _ h. h) m.identities v.people.lower;
            }))
      ]

  -- SetIdentityStatus keeps the store valid.
  pub set_identity_status-IsValid :
      (ws email status : String) → IsValid (set_identity_status ws email status m).1
  unfolding set_identity_status
  set_identity_status-IsValid ws email status = with_ws-after IsValid ws m _ v λ w _.
      let p = has_email w.id (to_lower email) in
      let f = λ (x : Identity). record x { status = status } in
      elim (Option-cases (find? p m.identities)) [
        | inl e ↦ rw e v
        | inr (it, e) ↦ rw e (
            with_people _ (record {
              distinct =
                  IsUnique-update_first same_person p f (λ a b. refl) (λ a b. refl) m.identities
                    v.people.distinct;
              lower =
                  All-update_first (λ (x : Identity). to_lower x.email ≡ x.email) p f (λ a _ h. h)
                    m.identities v.people.lower;
            }))
      ]

  -- DeleteIdentity keeps the store valid.
  pub delete_identity-IsValid : (ws email : String) → IsValid (delete_identity ws email m).1
  unfolding delete_identity
  delete_identity-IsValid ws email = with_ws-after IsValid ws m _ v λ w _.
      let p = has_email w.id (to_lower email) in
      elim (Option-cases (find? p m.identities)) [
        | inl e ↦ rw e v
        | inr (it, e) ↦ rw e (
            with_people _ (record {
              distinct = IsUnique-delete_first same_person p m.identities v.people.distinct;
              lower =
                  All-delete_first (λ (x : Identity). to_lower x.email ≡ x.email) p m.identities
                    v.people.lower;
            }))
      ]
