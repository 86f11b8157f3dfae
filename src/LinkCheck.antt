-- ===== src/LinkCheck.antt =====
-- internal/sites/linkcheck.go: which hosts the link checker asks. A text is the list of its bytes. The
-- libraries of addresses and URLs, the resolver and the dialler are arguments.
pub mod Dial
mod Tests
use locorum.Common.{
  ℕ, ◌/◌, ◌&&◌, ◌||◌, not, Bool, true, false, Option, none, some, List, [], ◌∷◌, ◌==◌,
  if◌then◌else◌,
}
use locorum.Common.Text.{codes, equals, to_lower}

-- What is asked of an address of net.IP; `to4` is its four bytes, if it is an IPv4 address.
pub record Addresses (Ip : Type 0) : Type 0 where
  pub is_loopback : Ip → Bool
  pub is_private : Ip → Bool
  pub is_link_local_unicast : Ip → Bool
  pub is_link_local_multicast : Ip → Bool
  pub is_multicast : Ip → Bool
  pub is_unspecified : Ip → Bool
  pub to4 : Ip → Option (ℕ × ℕ × ℕ × ℕ)

-- `b & 0xC0 == 64`, on a byte.
abbrev pub carrier_grade : Option (ℕ × ℕ × ℕ × ℕ) → Bool
carrier_grade none = false
carrier_grade (some (a, b, c, d)) = a == 100 && b / 64 == 1

-- isUnsafeIP, of an address that may be nil.
unfoldable pub is_unsafe_ip : {Ip : Type 0} → Addresses Ip → Option Ip → Bool
is_unsafe_ip lib none = true
is_unsafe_ip lib (some ip) =
    (lib.is_loopback ip
      || lib.is_private ip
      || lib.is_link_local_unicast ip
      || lib.is_link_local_multicast ip
      || lib.is_multicast ip
      || lib.is_unspecified ip)
    || carrier_grade (lib.to4 ip)

unfoldable pub has_suffix : List ℕ → List ℕ → Bool
has_suffix suffix [] = equals [] suffix
has_suffix suffix (c ∷ s) = equals (c ∷ s) suffix || has_suffix suffix s

abbrev any_suffix : List (List ℕ) → List ℕ → Bool
any_suffix [] s = false
any_suffix (suffix ∷ rest) s = has_suffix suffix s || any_suffix rest s

-- TrimSuffix of a dot.
unfoldable pub trim_dot : List ℕ → List ℕ
trim_dot [] = []
trim_dot (c ∷ []) = if c == b'.' then [] else c ∷ []
trim_dot (c ∷ d ∷ s) = c ∷ trim_dot (d ∷ s)

abbrev internal_suffixes : List (List ℕ)
internal_suffixes =
    codes ".localhost" ∷ codes ".local" ∷ codes ".internal" ∷ codes ".lan" ∷ codes ".home" ∷ []

-- isUnsafeHostname
unfoldable pub is_unsafe_hostname : List ℕ → Bool
unfolding to_lower has_suffix trim_dot
is_unsafe_hostname host =
    let h = to_lower (trim_dot host) in
    equals h (codes "localhost") || any_suffix internal_suffixes h

pub record Url : Type 0 where
  pub scheme : List ℕ
  pub hostname : List ℕ

-- What the world outside gives: it changes by each dial.
pub record Net (Ip World Conn : Type 0) : Type 0 where
  pub addresses : Addresses Ip
  pub parse_url : List ℕ → Option Url
  pub parse_ip : List ℕ → Option Ip
  pub lookup_ip : World → List ℕ → Option (List Ip)
  pub split_host_port : List ℕ → Option (List ℕ × List ℕ)
  pub dial : World → Ip → List ℕ → World × Option Conn

pub data Refusal : Type 0 where
  malformed_url unsupported_scheme empty_hostname internal_hostname unsafe_address : Refusal

module _ {Ip World Conn : Type 0} (net : Net Ip World Conn) where
  unfoldable pub safe_ips : List Ip → List Ip
  unfolding is_unsafe_ip
  safe_ips [] = []
  safe_ips (ip ∷ ips) =
      let rest = safe_ips ips in if is_unsafe_ip net.addresses (some ip) then rest else ip ∷ rest

  abbrev pub any_unsafe : List Ip → Bool
  any_unsafe [] = false
  any_unsafe (ip ∷ ips) = is_unsafe_ip net.addresses (some ip) || any_unsafe ips

  abbrev pub resolved : Option (List Ip) → Option Refusal
  resolved none = none
  resolved (some ips) = if any_unsafe ips then some unsafe_address else none

  abbrev pub literal_or_name : World → List ℕ → Option Ip → Option Refusal
  literal_or_name w host (some ip) =
      if is_unsafe_ip net.addresses (some ip) then some unsafe_address else none
  literal_or_name w host none = resolved (net.lookup_ip w host)

  abbrev pub allowed_scheme : List ℕ → Bool
  allowed_scheme s = equals s (codes "http") || equals s (codes "https")

  abbrev pub judged : World → Option Url → Option Refusal
  judged w none = some malformed_url
  judged w (some u) =
      if not (allowed_scheme u.scheme)
      then some unsupported_scheme
      else if equals u.hostname []
      then some empty_hostname
      else if is_unsafe_hostname u.hostname
      then some internal_hostname
      else literal_or_name w u.hostname (net.parse_ip u.hostname)

  -- isExternalSafe
  unfoldable pub is_external_safe : World → List ℕ → Option Refusal
  is_external_safe w url = judged w (net.parse_url url)

  abbrev pub first_of : World × Option Conn → World × Option Conn → World × Option Conn
  first_of (w, some conn) rest = (w, some conn)
  first_of (w, none) rest = rest

  -- The addresses in order, until one answers.
  unfoldable pub dial_first : List ℕ → World → List Ip → World × Option Conn
  dial_first port w [] = (w, none)
  dial_first port w (ip ∷ ips) =
      let rest = dial_first port (net.dial w ip port).0 ips in first_of (net.dial w ip port) rest

  abbrev pub looked_up : List ℕ → World → Option (List Ip) → World × Option Conn
  looked_up port w none = (w, none)
  looked_up port w (some ips) = dial_first port w (safe_ips ips)

  abbrev pub split : World → Option (List ℕ × List ℕ) → World × Option Conn
  split w none = (w, none)
  split w (some (host, port)) = looked_up port w (net.lookup_ip w host)

  -- externalDialContext: the connection, if there is no error. Without safe addresses no one is
  -- dialled.
  unfoldable pub external_dial_context : World → List ℕ → World × Option Conn
  unfolding dial_first safe_ips
  external_dial_context w addr = split w (net.split_host_port addr)
