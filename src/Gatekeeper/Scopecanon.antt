-- ===== src/Gatekeeper/Scopecanon.antt =====
-- services/gatekeeper/internal/scopecanon/scope.go: canonical targets against scope entries.
pub mod Exclusions
use aegisbastion.Common.{
  ◌≡◌, ◌&&◌, ◌||◌, Bool, true, false, List, [], ◌∷◌, ◌++◌, Option, none, some, Text, codes, text_eq,
  has_prefix, has_suffix, trim_prefix, trim_suffix, trim_space, to_lower, contains, contains_any,
  after_last, is_empty, any, if◌then◌else◌,
}
use aegisbastion.Net.{Net, masked, prefix_contains}

module _ (net : Net) where
  -- The host of a URL, or the text itself.
  url_host : Text → Option Text
  url_host t =
      if contains t (codes "://")
      then (elim (net.parse_url t) [
        | none ↦ none
        | some u ↦ if is_empty u.host then none else some u.host
      ])
      else some t

  -- Without the port.
  strip_port : Text → Text
  strip_port t = elim (net.split_host_port t) [ none ↦ t | some (h, _) ↦ h ]

  -- Without userinfo, port, brackets and trailing dot, in lower case.
  strip : Text → Text
  unfolding strip_port
  strip t =
      let h = trim_prefix (strip_port (after_last b'@' t)) (codes "[") in
      to_lower (trim_suffix (trim_suffix h (codes "]")) (codes "."))

  wildcard : Text → Option Text
  wildcard rest =
      if is_empty rest || contains_any rest (codes " /") then none else some (codes "*." ++ rest)

  cidr : Text → Option Text
  cidr t = elim (net.parse_prefix t) [ none ↦ none | some p ↦ some (net.prefix_string (masked p)) ]

  -- What is no IP address.
  name_form : Text → Option Text
  unfolding wildcard cidr
  name_form t =
      if has_prefix t (codes "*.")
      then wildcard (trim_prefix t (codes "*."))
      else if contains_any t (codes " /")
      then cidr t
      else some t

  host_form : Text → Option Text
  unfolding name_form
  host_form t =
      if is_empty t
      then none
      else elim (net.parse_addr t) [ some ip ↦ some (net.addr_string ip) | none ↦ name_form t ]

  -- `Canonical`; `none` is `("", false)`.
  unfoldable pub canonical : Text → Option Text
  unfolding url_host strip host_form
  canonical target =
      let t = trim_space target in
      if is_empty t then none else elim (url_host t) [ none ↦ none | some h ↦ host_form (strip h) ]

  -- `matchCanonical`.
  unfoldable pub match_canonical : Text → Text → Bool
  match_canonical entry target = elim (net.parse_prefix entry) [
    | some p ↦ elim (net.parse_addr target) [ none ↦ false | some ip ↦ prefix_contains p ip ]
    | none ↦
        if has_prefix entry (codes "*.")
        then (let apex = trim_prefix entry (codes "*.") in
            text_eq target apex || has_suffix target (codes "." ++ apex))
        else text_eq entry target
  ]

  -- `mustCanon`: the empty text where there is no canonical form.
  unfoldable pub must_canon : Text → Text
  must_canon s = elim (canonical s) [ none ↦ [] | some c ↦ c ]

  -- `MatchEntry`.
  unfoldable pub match_entry : Text → Text → Bool
  match_entry entry target = elim (canonical entry) [
    | none ↦ false
    | some se ↦ elim (canonical target) [ none ↦ false | some tt' ↦ match_canonical se tt' ]
  ]

  -- One of the loops of `Evaluate`.
  unfoldable pub any_matches : List Text → Text → Bool
  any_matches entries target = any (λ e. match_canonical (must_canon e) target) entries

  -- `Evaluate`: in scope, and excluded.
  unfoldable pub evaluate : List Text → List Text → Text → Bool × Bool
  evaluate includes excludes target = elim (canonical target) [
    | none ↦ (false, false)
    | some t ↦
        if any_matches excludes t
        then (false, true)
        else if any_matches includes t
        then (true, false)
        else (false, false)
  ]
