-- ===== src/PlatformCore/Scope.antt =====
-- services/platform-core/pkg/scope/scope.go: the planner's and the result handler's own check of
-- targets against an RoE. An entry that is passed over is a test that fails.
pub mod Verdicts
use aegisbastion.Common.{
  ◌≡◌, ◌&&◌, ◌||◌, Bool, true, false, not, List, [], ◌∷◌, ◌++◌, Option, none, some, Text, codes,
  text_eq, has_prefix, has_suffix, trim_prefix, trim_suffix, trim_space, to_lower, contains,
  after_last, is_empty, any, if◌then◌else◌, ◌==◌, drop, Result, ok, err, length, take, ◌-◌,
}
use aegisbastion.Net.{Net, Addr, addr_eq, prefix_contains}

pub data Verdict : Type 0 where
  out_of_scope in_scope excluded : Verdict

pub record Scope : Type 0 where
  pub domains : List Text
  pub cidrs : List Text
  pub excludes : List Text

-- Up to the first of "/?#".
unfoldable pub before_path : Text → Text
before_path [] = []
before_path (c ∷ s) = if c == b'/' || c == b'?' || c == b'#' then [] else c ∷ before_path s

-- What follows the first "://".
unfoldable pub after_scheme : Text → Text
after_scheme [] = []
after_scheme (c ∷ s) = if has_prefix (c ∷ s) (codes "://") then drop 3 (c ∷ s) else after_scheme s

-- `hostMatches`.
unfoldable pub host_matches : Text → Text → Bool
host_matches entry h =
    let e = to_lower (trim_space entry) in
    if has_prefix e (codes "*.") then has_suffix h (codes "." ++ drop 2 e) else text_eq h e

-- `hostOrSubMatches`.
unfoldable pub host_or_sub_matches : Text → Text → Bool
host_or_sub_matches entry h =
    let e = trim_prefix (to_lower (trim_space entry)) (codes "*.") in
    text_eq h e || has_suffix h (codes "." ++ e)

module _ (net : Net) where
  -- Without userinfo, path and scheme.
  host_part : Text → Text
  host_part t =
      if contains t (codes "://")
      then after_last b'@' (before_path (after_scheme t))
      else before_path t

  -- Without the port.
  port_stripped : Text → Text
  port_stripped t = elim (net.split_host_port t) [ none ↦ t | some (h, _) ↦ h ]

  -- `Canonicalize`.
  unfoldable pub canonicalize : Text → Text
  unfolding host_part port_stripped
  canonicalize target =
      let t = trim_space target in
      if is_empty t
      then []
      else (let h = port_stripped (host_part t) in
          trim_suffix (to_lower (trim_prefix (trim_suffix h (codes "]")) (codes "["))) (codes "."))

  contains_addr : Text → Option Addr → Bool
  contains_addr entry none = false
  contains_addr entry (some ip) = elim (net.parse_prefix (trim_space entry)) [
    | none ↦ false
    | some p ↦ prefix_contains p ip
  ]

  same_addr : Addr → Option Addr → Bool
  same_addr a none = false
  same_addr a (some ip) = addr_eq a ip

  is_none : Option Addr → Bool
  is_none none = true
  is_none (some ip) = false

  -- One entry of `Excludes`.
  unfoldable pub excludes_host : Text → Option Addr → Text → Bool
  unfolding contains_addr same_addr is_none
  excludes_host h ip entry =
      let ex = trim_space entry in
      if is_empty ex
      then false
      else if contains ex (codes "/")
      then contains_addr ex ip
      else elim (net.parse_addr ex) [
        | some a ↦ same_addr a ip
        | none ↦ is_none ip && host_or_sub_matches ex h
      ]

  -- One entry of `Domains`.
  unfoldable pub includes_host : Text → Option Addr → Text → Bool
  unfolding same_addr is_none
  includes_host h ip entry =
      let d = trim_space entry in
      if is_empty d then false else elim (net.parse_addr d) [
        | some a ↦ same_addr a ip
        | none ↦ is_none ip && host_matches d h
      ]

  -- One entry of `CIDRs`.
  unfoldable pub includes_addr : Option Addr → Text → Bool
  unfolding contains_addr
  includes_addr ip entry = contains_addr entry ip

  -- `Check`.
  unfoldable pub check : Scope → Text → Verdict
  check s target =
      let h = canonicalize target in
      let ip = net.parse_addr h in
      if is_empty h
      then out_of_scope
      else if any (excludes_host h ip) s.excludes
      then excluded
      else if any (includes_host h ip) s.domains || any (includes_addr ip) s.cidrs
      then in_scope
      else out_of_scope

  -- `CheckAll`: the first verdict that is not in scope, with its target.
  unfoldable pub check_all : Scope → List Text → Result (Verdict × Text) (Unit {0})
  check_all s [] = ok tt
  check_all s (t ∷ ts) = elim (check s t) [ in_scope ↦ check_all s ts | v ↦ err (v, t) ]

-- `MatchCapabilityPattern`.
unfoldable pub match_capability_pattern : Text → Text → Bool
match_capability_pattern pattern name =
    if has_suffix pattern (codes ".*")
    then has_prefix name (take (length pattern - 1) pattern)
    else text_eq pattern name
