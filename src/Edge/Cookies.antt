-- ===== src/Edge/Cookies.antt =====
-- Signing and verifying, pkg/edge/edge.go.
use Prim.Native.String.{◌++◌, char_at, [] as empty, ◌∷◌ as push}
use Prim.Native.String.append
use shpyrd.Common.{
  ℕ, ◌<◌, String, ◌≡◌, refl, sym, ap, ◌∙◌, true, false, not, ◌||◌, Option, none, some, List, [],
  ◌∷◌, leb, ◌==◌, eq_iff, eq_refl, arith, inl, inr, Bool-cases, Option-cases,
}
use shpyrd.Tenancy.Hosts.{is_dot, has_dot}
use shpyrd.Edge.Tokens.{
  on_header, on_signature, Keys, Header, CookieClaims, Codec, Crypto, Verified, valid, invalid,
  cookie_typ, split_dots, signing_text, sign_token, on_parts, verify, filled, sign_cookie,
  for_project, verify_cookie,
}

-- What is encoded is decoded again.
abbrev pub RoundTrips {ℓ} : {A : Type ℓ} → Codec A → Type ℓ
RoundTrips {A = A} c = (a : A) (s : String) → c.encode a ≡ some s → c.decode s ≡ some a

-- What the libraries promise for a key pair: base64 has no dot and is decoded again, and a signature
-- of the private key is accepted by the public key.
pub record IsSound (x : Crypto) (k : Keys) : Type 0 where
  pub headers : RoundTrips x.headers
  pub base64 : (s : String) → x.of_base64 (x.to_base64 s) ≡ some s
  pub no_dot : (s : String) → has_dot (x.to_base64 s) ≡ false
  pub signs : (text : String) → x.is_signed k.public text (x.sign k.private text) ≡ true

-- A dot ends a part.
split_dots_next : (t : String) → split_dots ("." ++ t) ≡ "" ∷ split_dots t
unfolding split_dots
split_dots_next t =
    ap split_dots (append.cons (char_at "." 0) "" t ∙ ap (push (char_at "." 0)) (append.nil t))

split_dots_part : (s t : String) → has_dot s ≡ false → split_dots (s ++ "." ++ t) ≡ s ∷ split_dots t
unfolding split_dots has_dot
split_dots_part empty t h = ap split_dots (append.nil ("." ++ t)) ∙ split_dots_next t
split_dots_part (push c s) t h = elim (Bool-cases (is_dot c)) [
  | inl e ↦ absurd (ground (arith, h, e))
  | inr e ↦ rw (append.cons, e, split_dots_part s t (rw e at h)) refl
]

split_dots_whole : (s : String) → has_dot s ≡ false → split_dots s ≡ s ∷ []
unfolding split_dots has_dot
split_dots_whole empty h = refl
split_dots_whole (push c s) h = elim (Bool-cases (is_dot c)) [
  | inl e ↦ absurd (ground (arith, h, e))
  | inr e ↦ rw (e, split_dots_whole s (rw e at h)) refl
]

module _ {ℓ} {A : Type ℓ} (x : Crypto) (claims : Codec A) (k : Keys) (sound : IsSound x k)
    (codec : RoundTrips claims) where
  split-token :
      (a b c : String)
      → split_dots (x.to_base64 a ++ "." ++ x.to_base64 b ++ "." ++ x.to_base64 c)
        ≡ x.to_base64 a ∷ x.to_base64 b ∷ x.to_base64 c ∷ []
  split-token a b c =
      split_dots_part (x.to_base64 a) _ (sound.no_dot a)
      ∙ ap (λ r. x.to_base64 a ∷ r) (split_dots_part (x.to_base64 b) _ (sound.no_dot b))
      ∙ ap (λ r. x.to_base64 a ∷ x.to_base64 b ∷ r)
          (split_dots_whole (x.to_base64 c) (sound.no_dot c))

  -- A token that was signed verifies with the same type, and yields the claims.
  verify-sign_token :
      (typ : String) (a : A) (token : String)
      → sign_token x claims k typ a ≡ some token
      → verify x claims k token typ ≡ valid a
  unfolding sign_token verify
  verify-sign_token typ a token e =
      let header : Header = record { alg = "EdDSA"; typ = typ; kid = k.kid } in
      elim (Option-cases (x.headers.encode header)) [
        | inl f ↦ absurd (ground (arith, rw f at e))
        | inr (h, f) ↦ elim (Option-cases (claims.encode a)) [
          | inl g ↦ absurd (ground (arith, rw (f, g) at e))
          | inr (b, g) ↦
              let same : x.to_base64 h
                    ++ "."
                    ++ x.to_base64 b
                    ++ "."
                    ++ x.to_base64 (x.sign k.private (signing_text x claims h b))
                  ≡ token =
                ground (arith, rw (f, g) at e) in
              rw
                (
                  sym same,
                  split-token h b (x.sign k.private (signing_text x claims h b)),
                  sound.base64 h,
                  sound.headers header h f,
                  eq_refl typ,
                  eq_refl k.kid,
                  sound.base64 (x.sign k.private (signing_text x claims h b)),
                  sound.signs (signing_text x claims h b),
                  sound.base64 b,
                  codec a b g,
                )
                refl
        ]
      ]

module _ (x : Crypto) (claims : Codec CookieClaims) (k : Keys) where
  -- A cookie that SignCookie mints is accepted for its project until it expires, with the times
  -- filled in, if base64, JSON and the signature keep their promises.
  pub verify_cookie-sign_cookie :
      (now later : ℕ) (c : CookieClaims) (cookie : String)
      → IsSound x k
      → RoundTrips claims
      → sign_cookie x claims k now c ≡ some cookie
      → later < (filled now c).expires_at
      → verify_cookie x claims k later cookie c.project ≡ valid (filled now c)
  unfolding sign_cookie verify_cookie
  verify_cookie-sign_cookie now later c cookie sound codec e lt =
      rw
        (
          verify-sign_token x claims k sound codec cookie_typ (filled now c) cookie e,
          eq_refl c.project,
        )
        (ground (arith, lt))

  -- Three parts, the last of which is a signature of the first two that the public key accepts.
  abbrev pub IsSigned : List String → Type 0
  IsSigned ps =
      (h : String) × (b : String) × (s : String) × (sig : String) × (ps ≡ h ∷ b ∷ s ∷ [])
      × (x.of_base64 s ≡ some sig)
      × (x.is_signed k.public (h ++ "." ++ b) sig ≡ true)

  signature_holds :
      (h b s : String) {c : CookieClaims}
      → on_signature x claims k h b (x.of_base64 s) ≡ valid c
      → IsSigned (h ∷ b ∷ s ∷ [])
  signature_holds h b s {c} e = elim (Option-cases (x.of_base64 s)) [
    | inl f ↦ absurd (ground (arith, rw f at e))
    | inr (sig, f) ↦ elim (Bool-cases (x.is_signed k.public (h ++ "." ++ b) sig)) [
      | inl g ↦ (h, b, s, sig, refl, f, g)
      | inr g ↦ absurd (ground (arith, rw (f, g) at e))
    ]
  ]

  header_holds :
      (typ h b s : String) (o : Option Header) {c : CookieClaims}
      → on_header x claims k typ h b s o ≡ valid c
      → IsSigned (h ∷ b ∷ s ∷ [])
  header_holds typ h b s none e = absurd (ground (arith, e))
  header_holds typ h b s (some header) {c} e =
      elim (Bool-cases (not (header.alg == "EdDSA") || not (header.typ == typ))) [
        | inl f ↦ absurd (ground (arith, rw f at e))
        | inr f ↦ elim (Bool-cases (header.kid == k.kid)) [
          | inl g ↦ signature_holds h b s {c = c} (rw (f, g) at e)
          | inr g ↦ absurd (ground (arith, rw (f, g) at e))
        ]
      ]

  parts_hold :
      (typ : String) (ps : List String) {c : CookieClaims}
      → on_parts x claims k typ ps ≡ valid c
      → IsSigned ps
  parts_hold typ [] e = absurd (ground (arith, e))
  parts_hold typ (h ∷ []) e = absurd (ground (arith, e))
  parts_hold typ (h ∷ b ∷ []) e = absurd (ground (arith, e))
  parts_hold typ (h ∷ b ∷ s ∷ t ∷ rest) e = absurd (ground (arith, e))
  parts_hold typ (h ∷ b ∷ s ∷ []) {c} e = elim (Option-cases (x.of_base64 h)) [
    | inl f ↦ absurd (ground (arith, rw f at e))
    | inr (raw, f) ↦ header_holds typ h b s (x.headers.decode raw) {c = c} (rw f at e)
  ]

  project_holds :
      (now : ℕ) (project : String) (v : Verified CookieClaims) {c : CookieClaims}
      → for_project x claims now project v ≡ valid c
      → (v ≡ valid c) × (c.project ≡ project) × (now < c.expires_at)
  project_holds now project (invalid f) e = absurd (ground (arith, e))
  project_holds now project (valid d) {c} e = elim (Bool-cases (d.project == project)) [
    | inr f ↦ absurd (ground (arith, rw f at e))
    | inl f ↦ elim (Bool-cases (leb d.expires_at now)) [
      | inl g ↦ absurd (ground (arith, rw (f, g) at e))
      | inr g ↦
          let same : d ≡ c = ground (arith, rw (f, g) at e) in
          rw (sym same) (refl, (eq_iff d.project project).0 f, ground (arith, g))
    ]
  ]

  -- A cookie that VerifyCookie accepts is for the project and has not expired, and its parts are a
  -- text and a signature of it that the public key accepts.
  pub verify_cookie_accepts :
      (now : ℕ) (cookie project : String) {c : CookieClaims}
      → verify_cookie x claims k now cookie project ≡ valid c
      → (c.project ≡ project) × (now < c.expires_at) × IsSigned (split_dots cookie)
  unfolding verify_cookie verify
  verify_cookie_accepts now cookie project {c} e =
      let (verified, named, early) = project_holds now project _ e in
      (named, early, parts_hold cookie_typ (split_dots cookie) {c = c} verified)
