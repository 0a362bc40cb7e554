-- ===== src/Edge/Codes.antt =====
-- The one-time codes of pkg/edge/edge.go over the store of pkg/store/memory.go. The random text of a
-- code is an argument, and the clock is that of the store. Times are in nanoseconds.
use shpyrd.Common.{ℕ, ◌+◌, String, not, Option, none, some, ◌==◌, if◌then◌else◌, to_lower}
use shpyrd.Store.Types.{Code}
use shpyrd.Store.State.{Memory, Env, Result, ok, err}
use shpyrd.Store.Sessions.{put_code, take_code}
use shpyrd.Edge.Tokens.{Codec, CookieClaims}

pub record Envelope : Type 0 where
  pub kind : String
  pub claims : String

-- CodeTTL
abbrev pub code_ttl : ℕ
code_ttl = 60000000000

abbrev pub kind_edge : String
kind_edge = "edge"

abbrev pub kind_session : String
kind_session = "session"

pub data CodeError : Type 0 where
  unknown_code other_host other_kind bad_code_claims : CodeError

pub data Redeemed {ℓ} (A : Type ℓ) : Type ℓ where
  redeemed : A → Redeemed A
  refused : CodeError → Redeemed A

module _ {ℓ} {A : Type ℓ} (envelopes : Codec Envelope) (claims : Codec A) where
  abbrev pub stored : Env → String → String → Memory → Option String → Option String × Memory
  stored env code host m none = (none, m)
  stored env code host m (some body) = (
    some code,
    put_code env
        (record {
          code = code;
          host = to_lower host;
          claims = body;
          expires_at = env.now + code_ttl;
        })
        m,
  )

  abbrev with_inner :
      Env → String → String → String → Memory → Option String → Option String × Memory
  with_inner env code host kind m none = (none, m)
  with_inner env code host kind m (some inner) =
      stored env code host m (envelopes.encode (record { kind = kind; claims = inner }))

  abbrev pub with_random :
      Env → String → String → A → Memory → Option String → Option String × Memory
  with_random env host kind a m none = (none, m)
  with_random env host kind a m (some code) = with_inner env code host kind m (claims.encode a)

  -- Codes.MintJSON; the random text is `none` where rand.Read fails.
  unfoldable pub mint_json :
      Env → Option String → String → String → A → Memory → Option String × Memory
  mint_json env random host kind a m = with_random env host kind a m random

  abbrev or_bad_claims : Option A → Redeemed A
  or_bad_claims none = refused bad_code_claims
  or_bad_claims (some a) = redeemed a

  abbrev bare : String → String → Redeemed A
  bare kind body =
      if not (kind == kind_edge) then refused other_kind else or_bad_claims (claims.decode body)

  abbrev on_envelope : String → String → Option Envelope → Redeemed A
  on_envelope kind body none = bare kind body
  on_envelope kind body (some e) =
      if e.kind == ""
      then bare kind body
      else if not (e.kind == kind)
      then refused other_kind
      else or_bad_claims (claims.decode e.claims)

  abbrev pub on_taken : String → String → Result Code → Redeemed A
  on_taken host kind (err e) = refused unknown_code
  on_taken host kind (ok c) =
      if not (c.host == to_lower host)
      then refused other_host
      else on_envelope kind c.claims (envelopes.decode c.claims)

  -- Codes.RedeemJSON
  unfoldable pub redeem_json : Env → String → String → String → Memory → Redeemed A × Memory
  redeem_json env code host kind m =
      let (taken, after) = take_code env code m in (on_taken host kind taken, after)

module _ (envelopes : Codec Envelope) (claims : Codec CookieClaims) where
  -- Codes.Mint
  unfoldable pub mint :
      Env → Option String → String → CookieClaims → Memory → Option String × Memory
  mint env random host c m = mint_json envelopes claims env random host kind_edge c m

  -- Codes.Redeem
  unfoldable pub redeem : Env → String → String → Memory → Redeemed CookieClaims × Memory
  redeem env code host m = redeem_json envelopes claims env code host kind_edge m
