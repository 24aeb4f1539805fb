-- ===== src/Gatekeeper/Token/Exchange.antt =====
-- token/service.go: `ExchangeToken`, a token narrowed for a worker, and the check of a token in use.
use aegisbastion.Common.{
  ℕ, ◌||◌, Bool, true, false, not, List, [], ◌∷◌, ◌++◌, Option, none, some, Text, text_eq, is_empty,
  all, if◌then◌else◌, Result, ok, ◌>>=◌, ◌>>◌, reject_if,
}
use aegisbastion.Gatekeeper.Capreg.{parse_risk_class}
use aegisbastion.Gatekeeper.Scopecanon.{evaluate}
use aegisbastion.Gatekeeper.Types.{Roe}
use aegisbastion.Gatekeeper.Policy.{Services}
use aegisbastion.Gatekeeper.Token.Types.{
  Claims, MintSpec, Codec, Config, Issued, State, Draw, Error, missing_field, no_risk_class,
  roe_not_active, bad_manifest, unregistered, revoked, lookup_failed, no_narrowed_targets,
  outside_parent,
}
use aegisbastion.Gatekeeper.Token.Manifest.{fetch_manifest, in_target_set, or_error}
use aegisbastion.Gatekeeper.Token.Jwt.{verify}
use aegisbastion.Gatekeeper.Token.Terms.{loaded_roe, is_active, resolve_approval}
use aegisbastion.Gatekeeper.Token.Mint.{mint, then_mint}

pub record ExchangeRequest : Type 0 where
  pub parent_token : Text
  pub worker_task_id : Text
  pub worker_subject : Text
  pub narrowed_targets : List Text

unfoldable pub find_issued : Text → List Issued → Option Issued
find_issued jti [] = none
find_issued jti (i ∷ is) = if text_eq i.claims.jti jti then some i else find_issued jti is

-- The first element of a list that is not empty: Go panics on an empty one.
abbrev pub first : List Text → Option Text
first [] = none
first (t ∷ ts) = some t

abbrev pub is_set : Option ℕ → Bool
is_set none = false
is_set (some t) = true

module _ (k : Codec) (cfg : Config) where
  -- `verifyAndLoad`: a token in the registry that is not revoked, with its decision.
  unfoldable pub verify_and_load : Draw → Text → Bool → List Issued → Result Error (Claims × Text)
  unfolding find_issued verify
  verify_and_load d raw allow_expired issued = do
    c ← verify k cfg d.now raw allow_expired
    reject_if (not d.looks_up) lookup_failed
    i ← or_error unregistered (find_issued c.jti issued)
    reject_if (is_set i.revoked_at) revoked
    ok (c, i.decision_id)

module _ (svc : Services) (k : Codec) (cfg : Config) where
  -- Whether the parent covers a target: by its scope, or by its list.
  unfoldable pub covers_all : Claims → Text → List Text → Result Error Bool
  unfolding in_target_set
  covers_all parent raw targets =
      if parent.scope_bound
      then (do
        sm ← or_error bad_manifest (k.scope_of raw)
        ok (
            all
              (λ t.
                let (in_scope, excluded) =
                  evaluate svc.net (sm.domains ++ sm.cidrs ++ sm.asset_group_ids)
                    sm.explicit_excludes t in
                not (excluded || not in_scope))
              targets))
      else (do
        em ← or_error bad_manifest (k.exact_of raw)
        ok (all (λ t. in_target_set svc.net em.targets t) targets))

  -- The parent, with its decision, once it covers the narrowed targets.
  unfoldable pub checked_parent : Draw → ExchangeRequest → State → Result Error (Claims × Text)
  unfolding verify_and_load covers_all fetch_manifest
  checked_parent d req st = do
    reject_if
        (is_empty req.parent_token || is_empty req.worker_task_id || is_empty req.worker_subject)
        missing_field
    (parent, decision_id) ← verify_and_load k cfg d req.parent_token false st.issued
    reject_if (is_empty req.narrowed_targets) no_narrowed_targets
    raw ← fetch_manifest k st.objects parent.targets.manifest_uri parent.targets.manifest_sha256
    covers ← covers_all parent raw req.narrowed_targets
    reject_if (not covers) outside_parent
    ok (parent, decision_id)

  unfoldable pub narrowed_spec : ExchangeRequest → Claims → Text → Roe → Text → MintSpec
  narrowed_spec req parent decision_id roe approval_id = record {
    sub = req.worker_subject;
    task_id = req.worker_task_id;
    roe = roe;
    risk = parent.risk_class;
    capabilities = parent.capabilities;
    approval_id = approval_id;
    rate_caps = parent.rate_caps;
    scope_bound = false;
    targets = req.narrowed_targets;
    decision_id = decision_id;
  }

  -- What `ExchangeToken` tests, up to `mint`, with the parent's expiry.
  unfoldable pub exchange_spec : Draw → ExchangeRequest → State → Result Error (MintSpec × ℕ)
  unfolding checked_parent narrowed_spec resolve_approval
  exchange_spec d req st = do
    (parent, decision_id) ← checked_parent d req st
    roe ← loaded_roe (svc.load_roe parent.roe_id 0)
    reject_if (not (is_active roe.status)) roe_not_active
    risk ← or_error no_risk_class (parse_risk_class parent.risk_class)
    capability ← or_error no_risk_class (first parent.capabilities)
    approval_id ← resolve_approval svc roe risk capability req.narrowed_targets
    ok (narrowed_spec req parent decision_id roe approval_id, parent.exp)

  -- `ExchangeToken`.
  unfoldable pub exchange_token :
      Draw → ExchangeRequest → State → State × Result Error (Text × Claims)
  unfolding exchange_spec mint
  exchange_token d req st = then_mint st (λ m. mint k cfg d m.0 m.1 st) (exchange_spec d req st)
