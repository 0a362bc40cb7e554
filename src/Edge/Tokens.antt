-- ===== src/Edge/Tokens.antt =====
-- Sign, Verify and the cookies of pkg/edge/edge.go. JSON, base64 and Ed25519 are parameters, as the
-- record Crypto; bytes are texts. Times are Unix times, in seconds.
use Prim.Native.Char.{Char}
use Prim.Native.String.{◌++◌, [] as empty, ◌∷◌ as push}
use shpyrd.Common.{
  ℕ, ◌+◌, String, Bool, not, ◌||◌, Option, none, some, List, [], ◌∷◌, leb, ◌==◌, if◌then◌else◌,
}
use shpyrd.Tenancy.Hosts.{is_dot}

pub record Keys : Type 0 where
  pub kid : String
  pub private : String
  pub public : String

pub record Header : Type 0 where
  pub alg : String
  pub typ : String
  pub kid : String

pub record Preview : Type 0 where
  pub teams : List String
  pub anonymous : Bool

pub record CookieClaims : Type 0 where
  pub session_id : String
  pub project : String
  pub issued_at : ℕ
  pub expires_at : ℕ
  pub preview : Option Preview

-- json.Marshal, whose failure is `none`, and json.Unmarshal into a value of the type
pub record Codec {ℓ} (A : Type ℓ) : Type ℓ where
  pub encode : A → Option String
  pub decode : String → Option A

-- encoding/base64 and crypto/ed25519
pub record Crypto : Type 0 where
  pub headers : Codec Header
  pub to_base64 : String → String
  pub of_base64 : String → Option String
  pub sign : String → String → String
  pub is_signed : String → String → String → Bool

pub data TokenError : Type 0 where
  malformed unexpected_header unknown_key bad_signature bad_claims other_app expired : TokenError

pub data Verified {ℓ} (A : Type ℓ) : Type ℓ where
  valid : A → Verified A
  invalid : TokenError → Verified A

-- CookieTTL
abbrev pub cookie_ttl : ℕ
cookie_ttl = 43200

abbrev pub cookie_typ : String
cookie_typ = "shpyrd-edge"

abbrev push_first : Char → List String → List String
push_first c [] = push c "" ∷ []
push_first c (p ∷ ps) = push c p ∷ ps

-- strings.Split(s, ".")
unfoldable pub split_dots : String → List String
split_dots empty = "" ∷ []
split_dots (push c s) = let rest = split_dots s in if is_dot c then "" ∷ rest else push_first c rest

module _ {ℓ} {A : Type ℓ} (x : Crypto) (claims : Codec A) where
  abbrev pub signing_text : String → String → String
  signing_text header body = x.to_base64 header ++ "." ++ x.to_base64 body

  abbrev pub with_body : Keys → Option String → Option String → Option String
  with_body k none body = none
  with_body k (some header) none = none
  with_body k (some header) (some body) = some (
      x.to_base64 header
      ++ "."
      ++ x.to_base64 body
      ++ "."
      ++ x.to_base64 (x.sign k.private (signing_text header body)))

  -- Keys.Sign
  unfoldable pub sign_token : Keys → String → A → Option String
  sign_token k typ a =
      with_body k (x.headers.encode (record { alg = "EdDSA"; typ = typ; kid = k.kid }))
        (claims.encode a)

  abbrev or_bad_claims : Option A → Verified A
  or_bad_claims none = invalid bad_claims
  or_bad_claims (some a) = valid a

  abbrev on_body : Option String → Verified A
  on_body none = invalid malformed
  on_body (some body) = or_bad_claims (claims.decode body)

  abbrev pub on_signature : Keys → String → String → Option String → Verified A
  on_signature k h b none = invalid bad_signature
  on_signature k h b (some sig) =
      if x.is_signed k.public (h ++ "." ++ b) sig
      then on_body (x.of_base64 b)
      else invalid bad_signature

  abbrev pub on_header : Keys → String → String → String → String → Option Header → Verified A
  on_header k typ h b s none = invalid unexpected_header
  on_header k typ h b s (some header) =
      if not (header.alg == "EdDSA") || not (header.typ == typ)
      then invalid unexpected_header
      else if not (header.kid == k.kid)
      then invalid unknown_key
      else on_signature k h b (x.of_base64 s)

  abbrev pub on_raw_header : Keys → String → String → String → String → Option String → Verified A
  on_raw_header k typ h b s none = invalid malformed
  on_raw_header k typ h b s (some raw) = on_header k typ h b s (x.headers.decode raw)

  abbrev pub on_parts : Keys → String → List String → Verified A
  on_parts k typ (h ∷ b ∷ s ∷ []) = on_raw_header k typ h b s (x.of_base64 h)
  on_parts k typ [] = invalid malformed
  on_parts k typ (h ∷ []) = invalid malformed
  on_parts k typ (h ∷ b ∷ []) = invalid malformed
  on_parts k typ (h ∷ b ∷ s ∷ t ∷ rest) = invalid malformed

  -- Keys.Verify
  unfoldable pub verify : Keys → String → String → Verified A
  verify k token typ = on_parts k typ (split_dots token)

abbrev pub filled : ℕ → CookieClaims → CookieClaims
filled now c = record c {
  issued_at = if leb c.issued_at 0 then now else c.issued_at;
  expires_at = if leb c.expires_at 0 then now + cookie_ttl else c.expires_at;
}

module _ (x : Crypto) (claims : Codec CookieClaims) where
  -- Keys.SignCookie
  unfoldable pub sign_cookie : Keys → ℕ → CookieClaims → Option String
  sign_cookie k now c = sign_token x claims k cookie_typ (filled now c)

  abbrev pub for_project : ℕ → String → Verified CookieClaims → Verified CookieClaims
  for_project now project (invalid e) = invalid e
  for_project now project (valid c) =
      if not (c.project == project)
      then invalid other_app
      else if leb c.expires_at now
      then invalid expired
      else valid c

  -- Keys.VerifyCookie
  unfoldable pub verify_cookie : Keys → ℕ → String → String → Verified CookieClaims
  verify_cookie k now value project = for_project now project (verify x claims k value cookie_typ)
