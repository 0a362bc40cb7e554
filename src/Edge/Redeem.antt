-- ===== src/Edge/Redeem.antt =====
-- Minting and redeeming one-time codes, pkg/edge/edge.go, over the store of pkg/store/memory.go.
use shpyrd.Common.{
  ℕ, ◌+◌, ◌≤◌, String, ◌≡◌, refl, sym, ap, false, Option, none, some, ltb, ◌==◌, eq_refl, to_lower,
  arith, inl, inr, Option-cases,
}
use shpyrd.Store.Types.{Code}
use shpyrd.Store.State.{Memory, Env}
use shpyrd.Store.Laws.Codes.{take_code_once, take_code-put_code}
use shpyrd.Edge.Tokens.{Codec}
use shpyrd.Edge.Cookies.{RoundTrips}
use shpyrd.Edge.Codes.{
  Envelope, code_ttl, unknown_code, redeemed, refused, mint_json, redeem_json, on_taken,
}

module _ {ℓ} {A : Type ℓ} (envelopes : Codec Envelope) (claims : Codec A) where
  -- Any attempt burns a code: whatever a first RedeemJSON of a code answers, for whatever host and
  -- kind, a second one is refused and changes nothing.
  pub redeem_json_once :
      (env later : Env) (code host kind host' kind' : String) (m : Memory)
      → redeem_json envelopes claims later code host' kind'
          (redeem_json envelopes claims env code host kind m).1
        ≡ (refused unknown_code, (redeem_json envelopes claims env code host kind m).1)
  unfolding redeem_json
  redeem_json_once env later code host kind host' kind' m =
      ap (λ r. (on_taken envelopes claims host' kind' r.0, r.1)) (take_code_once env later code m)

  not_late : (t late : ℕ) → late ≤ t → ltb t late ≡ false
  not_late t late h = ground (arith, h)

  -- A code that MintJSON returns is redeemed for its claims, at a host that is the same but for case,
  -- for the same kind, which is not empty, and within a minute, if JSON is decoded as it was encoded.
  pub redeem_json-mint_json :
      (env later : Env) (random : Option String) (host host' kind code : String) (a : A)
      (m : Memory)
      → RoundTrips envelopes
      → RoundTrips claims
      → to_lower host ≡ to_lower host'
      → (kind == "") ≡ false
      → (mint_json envelopes claims env random host kind a m).0 ≡ some code
      → later.now ≤ env.now + code_ttl
      → (redeem_json envelopes claims later code host' kind
          (mint_json envelopes claims env random host kind a m).1).0
        ≡ redeemed a
  unfolding mint_json redeem_json
  redeem_json-mint_json env later none host host' kind code a m es cs same named e within =
      absurd (ground (arith, e))
  redeem_json-mint_json env later (some text) host host' kind code a m es cs same named e within =
      elim (Option-cases (claims.encode a)) [
        | inl f ↦ absurd (ground (arith, rw f at e))
        | inr (inner, f) ↦
            let env' : Envelope = record { kind = kind; claims = inner } in
            elim (Option-cases (envelopes.encode env')) [
              | inl g ↦ absurd (ground (arith, rw (f, g) at e))
              | inr (body, g) ↦
                  let stored : Code = record {
                    code = text;
                    host = to_lower host;
                    claims = body;
                    expires_at = env.now + code_ttl;
                  } in
                  let is_text : text ≡ code = ground (arith, rw (f, g) at e) in
                  rw
                    (
                      f,
                      g,
                      sym is_text,
                      take_code-put_code env later stored m
                          (not_late (env.now + code_ttl) later.now within),
                      same,
                      eq_refl,
                      es env' body g,
                      named,
                      eq_refl kind,
                      cs a inner f,
                    )
                    refl
            ]
      ]
