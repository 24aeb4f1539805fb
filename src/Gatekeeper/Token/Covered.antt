-- ===== src/Gatekeeper/Token/Covered.antt =====
-- token/service.go, `ExchangeToken`: the parent covers each target that is asked for.
use aegisbastion.Common.{
  ◌≡◌, refl, ap, subst, ◌∙◌, ◌||◌, Bool, true, false, not, List, ◌++◌, some, Text, text_eq,
  text_eq_sound, is_empty, all-In, any-In, In, ok, bind-ok, reject_if-ok, ok-inj,
}
use aegisbastion.Gatekeeper.Scopecanon.{must_canon, evaluate}
use aegisbastion.Gatekeeper.Policy.{Services}
use aegisbastion.Gatekeeper.Token.Types.{
  Claims, ExactManifest, ScopeManifest, Codec, Config, State, Draw, missing_field,
  no_narrowed_targets, outside_parent, bad_manifest,
}
use aegisbastion.Gatekeeper.Token.Manifest.{fetch_manifest, in_target_set, or_error}
use aegisbastion.Gatekeeper.Token.Minted.{or_error-ok}
use aegisbastion.Gatekeeper.Token.Passed.{not-false}
use aegisbastion.Gatekeeper.Token.Exchange.{
  ExchangeRequest, verify_and_load, covers_all, checked_parent,
}

module _ (svc : Services) (k : Codec) where
  -- A target that the parent's list has in another spelling, or that is in the parent's scope and not
  -- excluded from it.
  abbrev pub IsCovered : Claims → Text → Text → Type 0
  IsCovered parent manifest t =
      (parent.scope_bound ≡ false
        → (em : ExactManifest) × (p : Text) × (k.exact_of manifest ≡ some em)
          × In p em.targets
          × (must_canon svc.net p ≡ must_canon svc.net t))
      × (parent.scope_bound ≡ true
          → (sm : ScopeManifest) × (k.scope_of manifest ≡ some sm)
            × (evaluate svc.net (sm.domains ++ sm.cidrs ++ sm.asset_group_ids) sm.explicit_excludes
                  t
                ≡ (true, false)))

module _ (svc : Services) (k : Codec) (cfg : Config) where
  in_scope : (p : Bool × Bool) → not (p.1 || not p.0) ≡ true → p ≡ (true, false)
  in_scope (true, false) h = refl
  in_scope (false, false) h = cc
  in_scope (true, true) h = cc
  in_scope (false, true) h = cc

  covers_all-IsCovered :
      (parent : Claims) (raw : Text) (targets : List Text) (t : Text)
      → covers_all svc k cfg parent raw targets ≡ ok true
      → In t targets
      → IsCovered svc k parent raw t
  unfolding covers_all in_target_set
  covers_all-IsCovered parent raw targets t h m = (exact, scoped)
    where
      exact :
          parent.scope_bound ≡ false
          → (em : ExactManifest) × (p : Text) × (k.exact_of raw ≡ some em)
            × In p em.targets
            × (must_canon svc.net p ≡ must_canon svc.net t)
      exact f =
          let (em, is, last) = bind-ok (or_error bad_manifest (k.exact_of raw)) _ (rw f at h) in
          let (p, n, same) =
            any-In (λ p. text_eq (must_canon svc.net p) (must_canon svc.net t)) em.targets
              (all-In (λ u. in_target_set svc.net em.targets u) targets t (ok-inj refl last) m) in
          (
            em,
            p,
            or_error-ok bad_manifest (k.exact_of raw) is,
            n,
            text_eq_sound (must_canon svc.net p) (must_canon svc.net t) same,
          )

      scoped :
          parent.scope_bound ≡ true
          → (sm : ScopeManifest) × (k.scope_of raw ≡ some sm)
            × (evaluate svc.net
                  (sm.domains ++ sm.cidrs ++ sm.asset_group_ids)
                  sm.explicit_excludes
                  t
                ≡ (true, false))
      scoped y =
          let (sm, is, last) = bind-ok (or_error bad_manifest (k.scope_of raw)) _ (rw y at h) in
          (
            sm,
            or_error-ok bad_manifest (k.scope_of raw) is,
            in_scope
                (evaluate svc.net (sm.domains ++ sm.cidrs ++ sm.asset_group_ids)
                  sm.explicit_excludes t)
                (all-In
                  (λ u.
                    let (inside, excluded) =
                      evaluate svc.net (sm.domains ++ sm.cidrs ++ sm.asset_group_ids)
                        sm.explicit_excludes u in
                    not (excluded || not inside))
                  targets t (ok-inj refl last) m),
          )

  pub checked_parent-IsCovered :
      (d : Draw) (req : ExchangeRequest) (st : State) (parent' : Claims) (id' : Text)
      → checked_parent svc k cfg d req st ≡ ok (parent', id')
      → (verify_and_load k cfg d req.parent_token false st.issued ≡ ok (parent', id'))
        × (manifest : Text) × (fetch_manifest k st.objects parent'.targets.manifest_uri
              parent'.targets.manifest_sha256
            ≡ ok manifest)
        × ((t : Text) → In t req.narrowed_targets → IsCovered svc k parent' manifest t)
  unfolding checked_parent
  checked_parent-IsCovered d req st parent' id' h =
      let (_, h0) =
        reject_if-ok
          (is_empty req.parent_token || is_empty req.worker_task_id || is_empty req.worker_subject)
          missing_field _ h in
      let ((parent, id), loaded, h1) =
        bind-ok (verify_and_load k cfg d req.parent_token false st.issued) _ h0 in
      let (_, h2) = reject_if-ok (is_empty req.narrowed_targets) no_narrowed_targets _ h1 in
      let (raw, fetched, h3) =
        bind-ok
          (fetch_manifest k st.objects parent.targets.manifest_uri parent.targets.manifest_sha256) _
          h2 in
      let (covers, covered, h4) =
        bind-ok (covers_all svc k cfg parent raw req.narrowed_targets) _ h3 in
      let (yes', last) = reject_if-ok (not covers) outside_parent _ h4 in
      subst
        (λ p.
          (verify_and_load k cfg d req.parent_token false st.issued ≡ ok p)
          × (manifest : Text) × (fetch_manifest k st.objects p.0.targets.manifest_uri
                p.0.targets.manifest_sha256
              ≡ ok manifest)
          × ((t : Text) → In t req.narrowed_targets → IsCovered svc k p.0 manifest t))
        (ok-inj refl last)
        (
          loaded,
          raw,
          fetched,
          λ t m.
              covers_all-IsCovered parent raw req.narrowed_targets t
                (covered ∙ ap (λ b. ok b) (not-false covers yes')) m,
        )
