-- ===== src/Scenarios/Gatekeeper.antt =====
-- The gatekeeper's parts at concrete inputs.
use aegisbastion.Common.{
  ℕ, ◌+◌, ◌≡◌, ◌≢◌, ◌↔◌, ◌≤◌, ◌*◌, ◌⊎◌, refl, inl, inr, Bool, true, false, Option, none, some, List,
  [], ◌∷◌, Text, codes, find, Result, ok, err, split_on, In, length,
}
use aegisbastion.Scenarios.World.{net, registry, host}
use aegisbastion.Gatekeeper.Capreg.{RiskClass, r3, lookup, matches}
use aegisbastion.Gatekeeper.Capreg.Lookup.{Decides, lookup-Decides, lookup-none}
use aegisbastion.Gatekeeper.Scopecanon.{canonical, evaluate}
use aegisbastion.Gatekeeper.Scopecanon.Exclusions.{Matches, evaluate-in_scope, evaluate-excluded}
use aegisbastion.Gatekeeper.Rbac.{Binding, Bindings, grant, auditor, human}
use aegisbastion.Gatekeeper.Rbac.Duties.{IsSeparated, grant-IsSeparated}
use aegisbastion.Gatekeeper.Revocation.{Scope, State, Row, RevokeRequest, Works, audited}
use aegisbastion.Gatekeeper.Blackout.{Window, Local, window_active}
use aegisbastion.Gatekeeper.Blackout
use aegisbastion.Gatekeeper.Blackout.FailClosed.{IsOffHours, IsOffDays, window_active-false}

no_exact : find (codes "redteam.c2") registry.exact ≡ none
unfolding find aegisbastion.Common.text_eq
no_exact = refl

looked_up : lookup registry (codes "redteam.c2") ≡ some r3
unfolding lookup find aegisbastion.Common.text_eq aegisbastion.Common.has_prefix
looked_up = refl

lookup-Decides_example : Decides (codes "redteam.c2") registry.pattern r3
lookup-Decides_example = lookup-Decides registry (codes "redteam.c2") no_exact looked_up

unknown : lookup registry (codes "mine") ≡ none
unfolding lookup find aegisbastion.Common.text_eq aegisbastion.Common.has_prefix
unknown = refl

lookup-none_example :
    (find (codes "mine") registry.exact ≡ none)
    × ((q : Text) (c : RiskClass)
        → In (q, c) registry.pattern
        → matches (codes "mine") q ≡ true
        → length q ≡ 0)
lookup-none_example = lookup-none registry (codes "mine") unknown

evaluate-in_scope_example :
    ((evaluate net (host ∷ []) [] host).0 ≡ true)
    ↔ ((t : Text) × (canonical net host ≡ some t) × Matches net (host ∷ []) t × ¬ Matches net [] t)
evaluate-in_scope_example = evaluate-in_scope net (host ∷ []) [] host

evaluate-excluded_example :
    ((evaluate net (host ∷ []) (host ∷ []) host).1 ≡ true)
    ↔ ((t : Text) × (canonical net host ≡ some t) × Matches net (host ∷ []) t)
evaluate-excluded_example = evaluate-excluded net (host ∷ []) (host ∷ []) host

abbrev new_grant : Binding
new_grant = record {
  org_id = codes "org";
  principal = codes "ann@x";
  principal_kind = human;
  role = auditor;
  granted_by = codes "bob@x";
  granted_at = 0;
  expires_at = 0;
  revoked_at = none;
}

abbrev granted : Bindings
granted = record new_grant { granted_at = 5; expires_at = 95 } ∷ []

grants : grant 1 5 [] new_grant ≡ ok granted
unfolding grant aegisbastion.Gatekeeper.Rbac.with_defaults aegisbastion.Common.text_eq
    aegisbastion.Gatekeeper.Rbac.check_sod aegisbastion.Common.any
    aegisbastion.Gatekeeper.Rbac.roles_of aegisbastion.Common.filter
    aegisbastion.Gatekeeper.Rbac.is_write_role aegisbastion.Common.member
    aegisbastion.Gatekeeper.Rbac.upsert
grants = refl

nothing-IsSeparated : IsSeparated 5 []
nothing-IsSeparated org principal b c ne m n hb hc aud = absurd m

grant-IsSeparated_example : IsSeparated 5 granted
grant-IsSeparated_example = grant-IsSeparated 1 5 [] granted new_grant nothing-IsSeparated grants

abbrev officer : Binding
officer = record new_grant { role = codes "operator"; expires_at = 9 }

abbrev may_issue : Text → List Text
may_issue role = codes "revocation:issue" ∷ []

abbrev request : RevokeRequest
request = record {
  scope = Scope.target;
  key = host;
  issued_by = codes "ann@x";
  reason = [];
  expires_at = some 20;
}

abbrev before : State
before = record { rows = []; expiries = []; effects = [] }

abbrev row : Row
row = record {
  revocation_id = codes "rev_1";
  scope = codes "target";
  scope_value = host;
  issued_by = codes "ann@x";
  reason = [];
  issued_at = 5;
  expires_at = some 20;
  lifted = false;
}

abbrev behind : State
behind = record { rows = row ∷ []; expiries = (codes "rev_1", 20) ∷ []; effects = audited row ∷ [] }

abbrev bus_down : Works
bus_down = record { inserts = true; publishes = false; records = true }

abbrev clock : Text → ℕ → Option Local
clock tz t = some (record { weekday = 3; hour = 12 })

abbrev nightly : Window
nightly = record { rrule = codes "FREQ=DAILY;BYHOUR=22-6"; tz = codes "UTC" }

open_now : window_active clock 7 nightly ≡ false
unfolding window_active Blackout.rule_active find Blackout.parts split_on aegisbastion.Common.cut
    aegisbastion.Common.trim_space aegisbastion.Common.put aegisbastion.Common.text_eq
    aegisbastion.Common.to_upper Blackout.hours_active Blackout.hour_in aegisbastion.Common.any
    Blackout.token_covers
open_now = refl

window_active-false_example :
    (l : Local) × (clock nightly.tz 7 ≡ some l)
    × (((find (codes "FREQ") (Blackout.parts [] (split_on b';' nightly.rrule))
            ≡ some (codes "DAILY"))
          × IsOffHours (Blackout.parts [] (split_on b';' nightly.rrule)) l.hour)
        ⊎ ((find (codes "FREQ") (Blackout.parts [] (split_on b';' nightly.rrule))
              ≡ some (codes "WEEKLY"))
            × (IsOffDays (Blackout.parts [] (split_on b';' nightly.rrule)) l.weekday
                ⊎ IsOffHours (Blackout.parts [] (split_on b';' nightly.rrule)) l.hour)))
window_active-false_example = window_active-false clock 7 nightly open_now
