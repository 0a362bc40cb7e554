-- ===== src/Edge/Tests.antt =====
-- Cookies and codes at concrete inputs. The libraries are stood in for by small functions: JSON that
-- knows one value of each type, base64 that escapes dots, and a signature that is the text itself.
use Prim.Native.Char.{Char}
use Prim.Native.String.{char_at, [] as empty, ◌∷◌ as push}
use Prim.Native.String.compare as compare_text
use shpyrd.Common.{
  ℕ, ◌<◌, String, ◌≡◌, refl, sym, ap, true, false, ◌&&◌, Option, none, some, leb, ◌==◌, eq_iff,
  eq_refl, if◌then◌else◌, arith, inl, inr, Bool-cases, to_lower,
}
use shpyrd.Tenancy.Hosts.{is_dot, has_dot, put_front}
use shpyrd.Edge.Tokens.{
  Preview, Keys, Header, CookieClaims, Codec, Crypto, valid, cookie_typ, split_dots, sign_cookie,
  sign_token, verify, verify_cookie,
}
use shpyrd.Edge.Cookies.{
  RoundTrips, IsSound, IsSigned, verify_cookie-sign_cookie, verify_cookie_accepts,
}
use shpyrd.Edge.Codes.{Envelope, kind_edge, mint_json, redeem_json, redeemed, refused, unknown_code}
use shpyrd.Edge.Redeem.{redeem_json-mint_json, redeem_json_once}
use shpyrd.Store.State.{Memory, Env, empty_memory}

abbrev first_of : String → Char
first_of empty = char_at "." 0
first_of (push c s) = c

-- A dot as two marks, another character behind a mark
escape : String → String
escape empty = ""
escape (push c s) =
    let rest = escape s in
    if push c "" == "."
    then push (char_at "d" 0) (push (char_at "d" 0) rest)
    else push (char_at "x" 0) (push c rest)

unescape : String → Option String
unescape empty = some ""
unescape (push m empty) = none
unescape (push m (push c s)) =
    let rest = unescape s in
    if push m "" == "d" then put_front (char_at "." 0) rest else put_front c rest

unescape-escape : (s : String) → unescape (escape s) ≡ some s
unfolding escape unescape
unescape-escape empty = refl
unescape-escape (push c s) = elim (Bool-cases (push c "" == ".")) [
  | inl e ↦ rw (e, unescape-escape s) (ap some (sym (joined c s ((eq_iff (push c "") ".").0 e))))
  | inr e ↦ rw (e, unescape-escape s) refl
]
  where
    joined : (c : Char) (s : String) → push c "" ≡ "." → push c s ≡ push (char_at "." 0) s
    joined c s e = ap (λ t. push (first_of t) s) e

dot_text : (c : Char) → is_dot c ≡ true → (push c "" == ".") ≡ true
dot_text c h = ground (arith, h, compare_text.cons-cons c (char_at "." 0) "" "")

has_dot-escape : (s : String) → has_dot (escape s) ≡ false
unfolding has_dot escape
has_dot-escape empty = refl
has_dot-escape (push c s) = elim (Bool-cases (push c "" == ".")) [
  | inl e ↦ rw e (has_dot-escape s)
  | inr e ↦ rw e (ground (arith, e, dot_text c, has_dot-escape s))
]

abbrev keys : Keys
keys = record { kid = "k"; private = "secret"; public = "public" }

abbrev the_header : Header
the_header = record { alg = "EdDSA"; typ = cookie_typ; kid = "k" }

abbrev headers : Codec Header
headers = record {
  encode = λ h. if h.alg == "EdDSA" && h.typ == cookie_typ && h.kid == "k" then some "h" else none;
  decode = λ s. some the_header;
}

headers-RoundTrips : RoundTrips headers
headers-RoundTrips h s e = known h.alg h.typ h.kid (ground (arith, e))
  where
    known :
        (alg typ kid : String)
        → (alg == "EdDSA" && typ == cookie_typ && kid == "k") ≡ true
        → some the_header ≡ some (record { alg = alg; typ = typ; kid = kid })
    known alg typ kid e =
        let a : alg ≡ "EdDSA" = (eq_iff alg "EdDSA").0 (ground (arith, e)) in
        let t : typ ≡ cookie_typ = (eq_iff typ cookie_typ).0 (ground (arith, e)) in
        let k : kid ≡ "k" = (eq_iff kid "k").0 (ground (arith, e)) in rw (a, t, k) refl

abbrev crypto : Crypto
crypto = record {
  headers = headers;
  to_base64 = escape;
  of_base64 = unescape;
  sign = λ private text. text;
  is_signed = λ public text sig. text == sig;
}

crypto-IsSound : IsSound crypto keys
crypto-IsSound = record {
  headers = headers-RoundTrips;
  base64 = unescape-escape;
  no_dot = has_dot-escape;
  signs = eq_refl;
}

abbrev ana : CookieClaims
ana = record {
  session_id = "s1";
  project = "shop";
  issued_at = 100;
  expires_at = 200;
  preview = none;
}

-- JSON that knows the claims `ana` only
abbrev knows : CookieClaims → Option String
knows c = by_preview c.preview
  where
    by_preview : Option Preview → Option String
    by_preview none =
        if c.session_id == "s1"
          && c.project == "shop"
          && leb c.issued_at 100
          && leb 100 c.issued_at
          && leb c.expires_at 200
          && leb 200 c.expires_at
        then some "c"
        else none
    by_preview (some p) = none

abbrev cookies : Codec CookieClaims
cookies = record { encode = knows; decode = λ s. some ana }

cookies-RoundTrips : RoundTrips cookies
cookies-RoundTrips c s e = known c.preview c.session_id c.project c.issued_at c.expires_at e
  where
    known :
        (preview : Option Preview) (session_id project : String) (issued_at expires_at : ℕ)
        → knows (record {
          session_id = session_id;
          project = project;
          issued_at = issued_at;
          expires_at = expires_at;
          preview = preview;
        })
          ≡ some s
        → some ana
          ≡ some (record {
            session_id = session_id;
            project = project;
            issued_at = issued_at;
            expires_at = expires_at;
            preview = preview;
          })
    known (some p) session_id project issued_at expires_at e = absurd (ground (arith, e))
    known none session_id project issued_at expires_at e =
        let a : session_id ≡ "s1" = (eq_iff session_id "s1").0 (ground (arith, e)) in
        let p : project ≡ "shop" = (eq_iff project "shop").0 (ground (arith, e)) in
        let i : issued_at ≡ 100 = ground (arith, e) in
        let x : expires_at ≡ 200 = ground (arith, e) in rw (a, p, i, x) refl

abbrev or_empty : Option String → String
or_empty none = ""
or_empty (some s) = s

abbrev cookie : String
cookie = or_empty (sign_cookie crypto cookies keys 100 ana)

signs_ana : sign_cookie crypto cookies keys 100 ana ≡ some cookie
unfolding sign_cookie sign_token
signs_ana = refl

verify_cookie-sign_cookie_example : verify_cookie crypto cookies keys 150 cookie "shop" ≡ valid ana
verify_cookie-sign_cookie_example =
    verify_cookie-sign_cookie crypto cookies keys 100 150 ana cookie crypto-IsSound
      cookies-RoundTrips signs_ana (omega arith)

cookie_valid : verify_cookie crypto cookies keys 150 cookie "shop" ≡ valid ana
unfolding verify_cookie verify sign_cookie sign_token split_dots escape unescape
cookie_valid = refl

verify_cookie_accepts_example :
    (ana.project ≡ "shop")
    × (150 < ana.expires_at)
    × IsSigned crypto cookies keys (split_dots cookie)
verify_cookie_accepts_example =
    verify_cookie_accepts crypto cookies keys 150 cookie "shop" cookie_valid

abbrev env_at : ℕ → Env
env_at now = record { now = now; uuid = λ n. "" }

abbrev envelopes : Codec Envelope
envelopes = record {
  encode = λ e. if e.kind == kind_edge then some e.claims else none;
  decode = λ s. some (record { kind = kind_edge; claims = s });
}

envelopes-RoundTrips : RoundTrips envelopes
envelopes-RoundTrips e s h = known e.kind e.claims s h
  where
    known :
        (kind claims s : String)
        → envelopes.encode (record { kind = kind; claims = claims }) ≡ some s
        → envelopes.decode s ≡ some (record { kind = kind; claims = claims })
    known kind claims s h =
        let k : kind ≡ kind_edge = (eq_iff kind kind_edge).0 (ground (arith, h)) in
        let c : claims ≡ s = ground (arith, h) in rw (k, c) refl

-- Claims that are texts
abbrev texts : Codec String
texts = record { encode = λ s. some s; decode = λ s. some s }

texts-RoundTrips : RoundTrips texts
texts-RoundTrips a s e = sym e

abbrev minted : Memory
minted =
    (mint_json envelopes texts (env_at 5) (some "abc") "Shop.example.com" kind_edge "sid"
      empty_memory).1

redeem_json-mint_json_example :
    (redeem_json envelopes texts (env_at 7) "abc" "shop.EXAMPLE.com" kind_edge minted).0
    ≡ redeemed "sid"
redeem_json-mint_json_example =
    redeem_json-mint_json envelopes texts (env_at 5) (env_at 7) (some "abc") "Shop.example.com"
      "shop.EXAMPLE.com" kind_edge "abc" "sid" empty_memory envelopes-RoundTrips texts-RoundTrips
      (unfold to_lower in refl) refl (unfold mint_json in refl) (omega arith)

redeem_json_once_example :
    redeem_json envelopes texts
      (env_at 7)
      "abc"
      "shop.example.com"
      kind_edge
      (redeem_json envelopes texts (env_at 6) "abc" "other.example.com" kind_edge minted).1
    ≡ (
      refused unknown_code,
      (redeem_json envelopes texts (env_at 6) "abc" "other.example.com" kind_edge minted).1,
    )
redeem_json_once_example =
    redeem_json_once envelopes texts (env_at 6) (env_at 7) "abc" "other.example.com" kind_edge
      "shop.example.com" kind_edge minted
