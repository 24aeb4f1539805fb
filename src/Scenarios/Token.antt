-- ===== src/Scenarios/Token.antt =====
-- Scope Tokens of a small world: minted, verified, narrowed, refreshed and revoked.
use aegisbastion.Common.{
  ℕ, ◌+◌, ◌-◌, ◌≤◌, ◌<◌, ◌≡◌, ◌≢◌, refl, sym, ap, subst, ◌∙◌, Bool, true, false, List, [], ◌∷◌,
  ◌++◌, ◌↔◌, Option, none, some, Text, codes, text_eq, text_eq_refl, map, arith, In, inl, inr,
  Result, ok, err,
}
use aegisbastion.Gatekeeper.Capreg.{RiskClass, r0, r1, parse_risk_class, risk_class_string}
use aegisbastion.Gatekeeper.Scopecanon.{must_canon}
use aegisbastion.Gatekeeper.Types.{Decision, Roe, RoeStatus}
use aegisbastion.Gatekeeper.Policy.{Services, DecisionRow, World, authorize, found}
use aegisbastion.Gatekeeper.Token.Types.{
  Claims, Issued, Header, ExactManifest, Codec, Config, State, Draw, MintSpec, audited_mint,
  broadcast, audited_revocation,
}
use aegisbastion.Gatekeeper.Token.Manifest.{same_target_set, fetch_manifest}
use aegisbastion.Gatekeeper.Token.Terms.{is_required}
use aegisbastion.Gatekeeper.Token.Jwt.{verify, seconds}
use aegisbastion.Gatekeeper.Token.Mint.{MintRequest, mint, mint_token, spec_of}
use aegisbastion.Gatekeeper.Token.Exchange.{ExchangeRequest, exchange_token, verify_and_load}
use aegisbastion.Gatekeeper.Token.Renewal.{refresh_token, authz_request, revoke_token}
use aegisbastion.Gatekeeper.Token.Granted.{mint_token-granted, IsGrant, IsOpen, IsAimed}
use aegisbastion.Gatekeeper.Token.Sets.{occurs, same_target_set_iff}
use aegisbastion.Gatekeeper.Token.Signed.{Without, verify-mint}
use aegisbastion.Gatekeeper.Token.Covered.{IsCovered}
use aegisbastion.Gatekeeper.Token.Narrowed.{IsChild, exchange_token-narrows}
use aegisbastion.Gatekeeper.Token.Withdrawn.{Use, exchanges, outcome, presented, revoke_token-final}
use aegisbastion.Gatekeeper.Token.Refreshed.{IsFit, refresh_token-reauthorized}
use aegisbastion.Scenarios.World.{net, host, roe, services, clock, world}

abbrev config : Config
config = record {
  issuer = codes "gk";
  audience = codes "pep";
  ttl = 900000000000;
  uri_prefix = codes "blob://";
  kid = codes "k1";
  private_key = [];
  public_key = [];
}

abbrev header : Header
header = record { alg = codes "EdDSA"; typ = codes "JWT"; kid = codes "k1" }

-- The claims of the one token of this world.
abbrev minted_claims : Claims
minted_claims = record {
  iss = codes "gk";
  aud = codes "pep";
  jti = codes "t1";
  sub = codes "planner";
  task_id = codes "tsk_1";
  roe_id = codes "roe_1";
  roe_version = 2;
  risk_class = codes "R1";
  capabilities = codes "recon.dns" ∷ [];
  targets = record {
    hash_alg = codes "sha256";
    manifest_uri = codes "blob://tokens/t1/targets.json";
    manifest_sha256 = codes "m";
    count = 1;
  };
  scope_bound = false;
  rate_caps = some (record { max_rps = 100; max_concurrent = 0 });
  approval_id = [];
  iat = 0;
  nbf = 0;
  exp = 900;
}

abbrev exact : ExactManifest
exact = record { jti = codes "t1"; task_id = codes "tsk_1"; targets = host ∷ [] }

abbrev shift : ℕ → Text → Text
shift n t = map (λ c. c + n) t

-- The codec knows one header, one token and one manifest; base64 is a shift past the dot.
abbrev codec : Codec
codec = record {
  exact_json = λ m. some (codes "m");
  scope_json = λ m. none;
  is_json = λ t. true;
  exact_of = λ t. some exact;
  scope_of = λ t. none;
  digest = λ t. t;
  encode = shift 47;
  decode = λ t. some (map (λ c. c - 47) t);
  header_json = λ h. some (codes "h");
  header_of = λ t. some header;
  claims_json = λ c. some (codes "c");
  claims_of = λ t. some minted_claims;
  sign = λ key t. t;
  is_signed = λ key t s. text_eq t s;
  resolved = λ t. [];
}

abbrev draw : Text → Draw
draw jti = record { now = 12; jti = jti; puts = true; registers = true; looks_up = true }

abbrev empty : State
empty = record { objects = []; issued = []; effects = [] }

abbrev grant : DecisionRow
grant = record {
  decision_id = codes "dec_1";
  task_id = codes "tsk_1";
  capability = codes "recon.dns";
  targets = host ∷ [];
  roe_id = codes "roe_1";
  roe_version = 2;
  risk_class = r1;
  decision = Decision.allow;
}

abbrev mint_request : MintRequest
mint_request = record {
  decision_id = codes "dec_1";
  task_id = codes "tsk_1";
  subject = codes "planner";
  targets = host ∷ [];
  scope_bound = false;
}

abbrev signed_part : Text
signed_part = shift 47 (codes "h") ++ b'.' ∷ shift 47 (codes "c")

abbrev token : Text
token = shift 47 (codes "h") ++ b'.' ∷ (shift 47 (codes "c") ++ b'.' ∷ shift 47 signed_part)

abbrev svc : Services
svc = services true

abbrev after : State
after = record {
  objects = (codes "tokens/t1/targets.json", codes "m") ∷ [];
  issued =
      record {
        claims = minted_claims;
        decision_id = codes "dec_1";
        kid = codes "k1";
        revoked_at = none;
      }
      ∷ [];
  effects = audited_mint minted_claims ∷ [];
}

minted_once :
    mint_token svc codec config (draw (codes "t1")) (grant ∷ []) mint_request empty
    ≡ (after, ok (token, minted_claims))
unfolding mint_token text_eq parse_risk_class aegisbastion.Common.to_upper
    aegisbastion.Common.trim_space risk_class_string same_target_set
    aegisbastion.Gatekeeper.Token.Manifest.count_of aegisbastion.Common.find aegisbastion.Common.put
    must_canon aegisbastion.Gatekeeper.Scopecanon.canonical aegisbastion.Common.contains
    aegisbastion.Common.to_lower aegisbastion.Common.trim_suffix aegisbastion.Common.trim_prefix
    aegisbastion.Common.after_last
minted_once = refl

mint_token-granted_example :
    (d : DecisionRow) × (r : Roe) × (risk : RiskClass) × IsGrant (grant ∷ []) mint_request d
    × (parse_risk_class (risk_class_string d.risk_class) ≡ some risk)
    × (risk ≢ r0)
    × IsOpen svc 12 d.roe_id r
    × IsAimed svc mint_request d risk
    × (is_required risk d.capability r ≡ true
        → svc.find_valid_approval r.roe_id r.version d.capability d.targets ≡ some (some []))
    × (codes "tsk_1" ≡ codes "tsk_1")
    × (codes "recon.dns" ∷ [] ≡ d.capability ∷ [])
    × (codes "R1" ≡ risk_class_string d.risk_class)
    × (minted_claims.roe_id ≡ r.roe_id)
    × (minted_claims.roe_version ≡ r.version)
    × (900 ≤ 0 + 900)
mint_token-granted_example =
    mint_token-granted svc codec config (draw (codes "t1")) (grant ∷ []) mint_request empty after
      token minted_claims minted_once

same_target_set_iff_example :
    (same_target_set net (host ∷ codes "b.com" ∷ []) (codes "b.com" ∷ host ∷ []) ≡ true) ↔ (
      (c : Text)
      → occurs c (map (must_canon net) (host ∷ codes "b.com" ∷ []))
        ≡ occurs c (map (must_canon net) (codes "b.com" ∷ host ∷ [])))
same_target_set_iff_example =
    same_target_set_iff net (host ∷ codes "b.com" ∷ []) (codes "b.com" ∷ host ∷ [])

decodes : (t : Text) → codec.decode (codec.encode t) ≡ some t
decodes t = ap some (back t)
  where
    the_same : (c : ℕ) → (c + 47) - 47 ≡ c
    the_same c = omega arith

    back : (u : Text) → map (λ c. c - 47) (shift 47 u) ≡ u
    back [] = refl
    back (c ∷ u) = cc (back u, the_same c)

no_dot : (t : Text) → Without b'.' (codec.encode t)
no_dot [] d m e = absurd m
no_dot (c ∷ t) d (inl s) e = absurd (omega (arith, s, e))
no_dot (c ∷ t) d (inr m) e = no_dot t d m e

abbrev spec : MintSpec
spec = spec_of svc codec config mint_request grant r1 roe []

verify-mint_example : verify codec config 30 token false ≡ ok minted_claims
unfolding mint spec_of aegisbastion.Common.put risk_class_string aegisbastion.Common.find
verify-mint_example =
    verify-mint codec config decodes no_dot (λ t h. refl) text_eq_refl (draw (codes "t1")) spec 0
      empty after token minted_claims 30 (λ t h. refl) refl (λ e. cc) (λ e. cc) (λ e. cc) (λ e. cc)
      (ground arith) (ground arith)

abbrev exchange_request : ExchangeRequest
exchange_request = record {
  parent_token = token;
  worker_task_id = codes "tsk_2";
  worker_subject = codes "worker";
  narrowed_targets = host ∷ [];
}

abbrev child_claims : Claims
child_claims = record minted_claims {
  jti = codes "t2";
  sub = codes "worker";
  task_id = codes "tsk_2";
  targets = record {
    hash_alg = codes "sha256";
    manifest_uri = codes "blob://tokens/t2/targets.json";
    manifest_sha256 = codes "m";
    count = 1;
  };
}

-- The state with one more token, of a decision.
abbrev with_token : Claims → Text → Text → State
with_token c key decision_id = record {
  objects = (codes "tokens/t1/targets.json", codes "m") ∷ (key, codes "m") ∷ [];
  issued =
      after.issued
      ++ record { claims = c; decision_id = decision_id; kid = codes "k1"; revoked_at = none } ∷ [];
  effects = audited_mint minted_claims ∷ audited_mint c ∷ [];
}

exchanged_once : exchange_token svc codec config (draw (codes "t2")) exchange_request after ≡ (
  with_token child_claims (codes "tokens/t2/targets.json") (codes "dec_1"),
  ok (token, child_claims),
)
unfolding exchange_token aegisbastion.Gatekeeper.Token.Jwt.parse_jwt aegisbastion.Common.split_on
    text_eq aegisbastion.Common.has_prefix aegisbastion.Common.trim_prefix
    aegisbastion.Common.contains aegisbastion.Common.find aegisbastion.Common.all
    aegisbastion.Common.any must_canon aegisbastion.Gatekeeper.Scopecanon.canonical
    aegisbastion.Common.trim_space aegisbastion.Common.to_lower aegisbastion.Common.trim_suffix
    aegisbastion.Common.after_last parse_risk_class aegisbastion.Common.to_upper
    aegisbastion.Common.put
exchanged_once = refl

exchange_token-narrows_example :
    (parent : Claims) × (id : Text) × (manifest : Text) × (r : Roe) × (verify_and_load codec config
        (draw (codes "t2"))
        token
        false
        after.issued
      ≡ ok (parent, id))
    × (fetch_manifest codec after.objects parent.targets.manifest_uri parent.targets.manifest_sha256
        ≡ ok manifest)
    × ((t : Text) → In t (host ∷ []) → IsCovered svc codec parent manifest t)
    × (svc.load_roe parent.roe_id 0 ≡ found r)
    × (r.status ≡ RoeStatus.active)
    × IsChild svc codec config exchange_request
        (draw (codes "t2"))
        parent
        (with_token child_claims (codes "tokens/t2/targets.json") (codes "dec_1"))
        child_claims
exchange_token-narrows_example =
    exchange_token-narrows svc codec config (draw (codes "t2")) exchange_request after
      (with_token child_claims (codes "tokens/t2/targets.json") (codes "dec_1")) token child_claims
      exchanged_once

abbrev next_claims : Claims
next_claims = record minted_claims {
  jti = codes "t3";
  targets = record {
    hash_alg = codes "sha256";
    manifest_uri = codes "blob://tokens/t3/targets.json";
    manifest_sha256 = codes "m";
    count = 1;
  };
}

refreshed_once :
    refresh_token svc codec config clock (draw (codes "t3")) (codes "req_9") token world after ≡ (
      (authorize svc clock
          (authz_request (codes "req_9") minted_claims (codes "recon.dns") (host ∷ []))
          world).0,
      (
        with_token next_claims (codes "tokens/t3/targets.json") (codes "dec_1"),
        ok (token, next_claims),
      ),
    )
unfolding refresh_token aegisbastion.Gatekeeper.Token.Jwt.parse_jwt aegisbastion.Common.split_on
    text_eq aegisbastion.Common.has_prefix aegisbastion.Common.trim_prefix
    aegisbastion.Common.contains aegisbastion.Common.find authorize
    aegisbastion.Gatekeeper.Capreg.lookup aegisbastion.Gatekeeper.Policy.finish
    aegisbastion.Gatekeeper.Policy.step_auth aegisbastion.Gatekeeper.Policy.check_principal
    aegisbastion.Gatekeeper.Policy.check_role aegisbastion.Gatekeeper.Policy.step_revocation
    aegisbastion.Gatekeeper.Policy.check_revocations aegisbastion.Common.any
    aegisbastion.Gatekeeper.Policy.target_revoked aegisbastion.Gatekeeper.Policy.step_roe_active
    aegisbastion.Gatekeeper.Policy.check_roe aegisbastion.Gatekeeper.Policy.step_target_scope
    aegisbastion.Gatekeeper.Policy.check_targets aegisbastion.Gatekeeper.Scopecanon.evaluate
    aegisbastion.Gatekeeper.Scopecanon.canonical aegisbastion.Common.trim_space
    aegisbastion.Common.to_lower aegisbastion.Common.trim_suffix aegisbastion.Common.after_last
    aegisbastion.Gatekeeper.Scopecanon.any_matches
    aegisbastion.Gatekeeper.Scopecanon.match_canonical must_canon
    aegisbastion.Gatekeeper.Policy.check_inventory aegisbastion.Gatekeeper.Policy.step_capability
    aegisbastion.Gatekeeper.Policy.capability_allowed aegisbastion.Gatekeeper.Policy.covers_prefix
    aegisbastion.Gatekeeper.Policy.risk_rank aegisbastion.Gatekeeper.Policy.step_legal
    aegisbastion.Gatekeeper.Policy.step_approval aegisbastion.Gatekeeper.Policy.needs_approval
    aegisbastion.Gatekeeper.Policy.step_window aegisbastion.Gatekeeper.Policy.step_jurisdiction
    aegisbastion.Gatekeeper.Policy.step_rate aegisbastion.Gatekeeper.Policy.matched_cap
    aegisbastion.Gatekeeper.Policy.best_cap aegisbastion.Gatekeeper.Policy.effective_rps
    aegisbastion.Gatekeeper.Policy.take_rate aegisbastion.Common.put fetch_manifest
    aegisbastion.Common.all aegisbastion.Gatekeeper.Ratelimit.allow
refreshed_once = refl

refresh_token-reauthorized_example :
    (c : Claims) × (capability : Text) × (targets : List Text) × (i : Issued) × IsFit svc codec
      config
      (draw (codes "t3"))
      token
      after
      c
      capability
      targets
      i
    × ((authorize svc clock (authz_request (codes "req_9") c capability targets) world).1.decision
        ≡ Decision.allow)
    × ((authorize svc clock
          (authz_request (codes "req_9") minted_claims (codes "recon.dns") (host ∷ []))
          world).0
        ≡ (authorize svc clock (authz_request (codes "req_9") c capability targets) world).0)
    × (codes "tsk_1" ≡ c.task_id)
    × (codes "planner" ≡ c.sub)
    × (codes "recon.dns" ∷ [] ≡ c.capabilities)
    × (codes "R1" ≡ c.risk_class)
    × (900 ≤ 0 + 900)
refresh_token-reauthorized_example =
    refresh_token-reauthorized svc codec config clock (draw (codes "t3")) (codes "req_9") token
      world
      (authorize svc clock
        (authz_request (codes "req_9") minted_claims (codes "recon.dns") (host ∷ [])) world).0
      after (with_token next_claims (codes "tokens/t3/targets.json") (codes "dec_1")) token
      next_claims refreshed_once

-- The worker's token is revoked; its parent's still loads.
abbrev withdrawn : State
withdrawn = record after {
  objects =
      (codes "tokens/t1/targets.json", codes "m")
      ∷ (codes "tokens/t2/targets.json", codes "m")
      ∷ [];
  issued =
      after.issued
      ++ record {
        claims = child_claims;
        decision_id = codes "dec_1";
        kid = codes "k1";
        revoked_at = some 12;
      }
        ∷ [];
  effects =
      audited_mint minted_claims
      ∷ audited_mint child_claims
      ∷ broadcast (codes "t2") (codes "lost")
      ∷ audited_revocation (codes "t2") (codes "lost")
      ∷ [];
}

withdrawn_once :
    revoke_token
      (draw [])
      (codes "t2")
      (codes "lost")
      (with_token child_claims (codes "tokens/t2/targets.json") (codes "dec_1"))
    ≡ (withdrawn, ok true)
unfolding revoke_token text_eq
withdrawn_once = refl

-- The parent still serves.
abbrev late_use : Use
late_use = exchanges (draw (codes "t4")) exchange_request

abbrev late_claims : Claims
late_claims = record child_claims {
  jti = codes "t4";
  targets = record {
    hash_alg = codes "sha256";
    manifest_uri = codes "blob://tokens/t4/targets.json";
    manifest_sha256 = codes "m";
    count = 1;
  };
}

late_once : outcome svc codec config late_use withdrawn ≡ ok (token, late_claims)
unfolding exchange_token aegisbastion.Gatekeeper.Token.Jwt.parse_jwt aegisbastion.Common.split_on
    text_eq aegisbastion.Common.has_prefix aegisbastion.Common.trim_prefix
    aegisbastion.Common.contains aegisbastion.Common.find aegisbastion.Common.all
    aegisbastion.Common.any must_canon aegisbastion.Gatekeeper.Scopecanon.canonical
    aegisbastion.Common.trim_space aegisbastion.Common.to_lower aegisbastion.Common.trim_suffix
    aegisbastion.Common.after_last parse_risk_class aegisbastion.Common.to_upper
    aegisbastion.Common.put
late_once = refl

revoke_token-final_example :
    (c : Claims) × (presented svc codec config late_use ≡ ok c) × (c.jti ≢ codes "t2")
revoke_token-final_example =
    revoke_token-final svc codec config (draw []) (codes "t2") (codes "lost")
      (with_token child_claims (codes "tokens/t2/targets.json") (codes "dec_1")) withdrawn withdrawn
      true [] late_use token late_claims withdrawn_once refl tt late_once
