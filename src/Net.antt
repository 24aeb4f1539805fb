-- ===== src/Net.antt =====
-- What the scope matchers use of Go's net, net/netip and net/url. Addresses and prefixes are
-- concrete; the parsers and printers of the standard library are a parameter.
use aegisbastion.Common.{ℕ, ◌-◌, ◌/◌, ◌%◌, ◌&&◌, Bool, Option, Text, text_eq, ◌==◌, []}
use Prim.Native.Nat.{◌^◌}

-- netip.Addr: 32 or 128 bits, their value, and an IPv6 zone.
pub record Addr : Type 0 where
  pub width : ℕ
  pub value : ℕ
  pub zone : Text

-- netip.Prefix.
pub record Prefix : Type 0 where
  pub addr : Addr
  pub bits : ℕ

-- The host and the other parts of a parsed URL.
pub record Url : Type 0 where
  pub scheme : Text
  pub host : Text
  pub port : Text
  pub path : Text
  pub raw_query : Text

pub record Net : Type 0 where
  pub parse_url : Text → Option Url
  pub split_host_port : Text → Option (Text × Text)
  pub parse_addr : Text → Option Addr
  pub addr_string : Addr → Text
  pub parse_prefix : Text → Option Prefix
  pub prefix_string : Prefix → Text

-- `==` on netip.Addr.
unfoldable pub addr_eq : Addr → Addr → Bool
addr_eq a b = a.width == b.width && a.value == b.value && text_eq a.zone b.zone

-- Prefix.Contains: no address with a zone is in a prefix.
unfoldable pub prefix_contains : Prefix → Addr → Bool
prefix_contains p a =
    let w = p.addr.width in
    text_eq a.zone []
    && a.width == w
    && a.value / 2 ^ (w - p.bits) == p.addr.value / 2 ^ (w - p.bits)

-- Prefix.Masked.
unfoldable pub masked : Prefix → Prefix
masked p =
    let v = p.addr.value in
    record p { addr = record (p.addr) { value = v - v % 2 ^ (p.addr.width - p.bits) } }
