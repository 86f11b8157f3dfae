-- ===== src/LinkCheck/Dial.antt =====
-- internal/sites/linkcheck.go: the addresses that are dialled.
use locorum.Common.{
  ℕ, ◌≡◌, refl, ap, not, true, false, Option, none, some, List, [], ◌∷◌, inl, inr, Bool-cases, All,
}
use locorum.Common.Text.{equals}
use locorum.LinkCheck.{
  is_unsafe_ip, Url, is_unsafe_hostname, Net, unsupported_scheme, empty_hostname, internal_hostname,
  unsafe_address, safe_ips, any_unsafe, resolved, literal_or_name, allowed_scheme, judged,
  is_external_safe, first_of, dial_first, looked_up, split, external_dial_context,
}

module _ {Ip World Conn : Type 0} (net : Net Ip World Conn) where
  abbrev IsSafe : Ip → Type 0
  IsSafe ip = is_unsafe_ip net.addresses (some ip) ≡ false

  safe_ips-IsSafe : (ips : List Ip) → All IsSafe (safe_ips net ips)
  unfolding safe_ips
  safe_ips-IsSafe [] = tt
  safe_ips-IsSafe (ip ∷ ips) = elim (Bool-cases (is_unsafe_ip net.addresses (some ip))) [
    | inl e ↦ rw e (safe_ips-IsSafe ips)
    | inr e ↦ rw e (e, safe_ips-IsSafe ips)
  ]

  -- A connection was made to a safe address.
  abbrev pub IsToSafe : Option Conn → Type 0
  IsToSafe none = Unit
  IsToSafe (some conn) =
      (ip : Ip) × (w : World) × (port : List ℕ) × (is_unsafe_ip net.addresses (some ip) ≡ false)
      × ((net.dial w ip port).1 ≡ some conn)

  module _ (P : World → Type 0)
      (keeps : (w : World) (ip : Ip) (port : List ℕ)
        → is_unsafe_ip net.addresses (some ip) ≡ false
        → P w
        → P (net.dial w ip port).0) where
    first_of-IsToSafe :
        (ip : Ip) (w : World) (port : List ℕ) (r rest : World × Option Conn)
        → net.dial w ip port ≡ r
        → is_unsafe_ip net.addresses (some ip) ≡ false
        → P r.0
        → P rest.0 × IsToSafe rest.1
        → P (first_of net r rest).0 × IsToSafe (first_of net r rest).1
    first_of-IsToSafe ip w port (w', some conn) rest e safe p q =
        (p, (ip, w, port, safe, ap (λ r. r.1) e))
    first_of-IsToSafe ip w port (w', none) rest e safe p q = q

    dial_first-IsToSafe :
        (port : List ℕ) (w : World) (ips : List Ip)
        → All IsSafe ips
        → P w
        → P (dial_first net port w ips).0 × IsToSafe (dial_first net port w ips).1
    unfolding dial_first
    dial_first-IsToSafe port w [] safe p = (p, tt)
    dial_first-IsToSafe port w (ip ∷ ips) safe p =
        let kept = keeps w ip port safe.0 p in
        first_of-IsToSafe ip w port (net.dial w ip port) _ refl safe.0 kept
          (dial_first-IsToSafe port (net.dial w ip port).0 ips safe.1 kept)

    looked_up-IsToSafe :
        (port : List ℕ) (w : World) (ips : Option (List Ip))
        → P w
        → P (looked_up net port w ips).0 × IsToSafe (looked_up net port w ips).1
    looked_up-IsToSafe port w none p = (p, tt)
    looked_up-IsToSafe port w (some ips) p =
        dial_first-IsToSafe port w (safe_ips net ips) (safe_ips-IsSafe ips) p

    split-IsToSafe :
        (w : World) (parts : Option (List ℕ × List ℕ))
        → P w
        → P (split net w parts).0 × IsToSafe (split net w parts).1
    split-IsToSafe w none p = (p, tt)
    split-IsToSafe w (some (host, port)) p = looked_up-IsToSafe port w (net.lookup_ip w host) p

  -- Whatever the dials of safe addresses keep, the dialler of the link checker keeps, for any address
  -- and whatever the resolver answers; and a connection that it returns was made to a safe address.
  pub external_dial_context-IsToSafe :
      (P : World → Type 0) (w : World) (addr : List ℕ)
      → ((w : World) (ip : Ip) (port : List ℕ)
          → is_unsafe_ip net.addresses (some ip) ≡ false
          → P w
          → P (net.dial w ip port).0)
      → P w
      → P (external_dial_context net w addr).0 × IsToSafe (external_dial_context net w addr).1
  unfolding external_dial_context
  external_dial_context-IsToSafe P w addr keeps p =
      split-IsToSafe P keeps w (net.split_host_port addr) p

  safe_ips-any_unsafe : (ips : List Ip) → any_unsafe net ips ≡ false → safe_ips net ips ≡ ips
  unfolding safe_ips
  safe_ips-any_unsafe [] h = refl
  safe_ips-any_unsafe (ip ∷ ips) h = elim (Bool-cases (is_unsafe_ip net.addresses (some ip))) [
    | inl e ↦ absurd (let h' : true ≡ false = rw e at h in cc)
    | inr e ↦ rw e (ap (λ r. ip ∷ r) (safe_ips-any_unsafe ips (rw e at h)))
  ]

  judged-literal_or_name :
      (w : World) (u : Url)
      → judged net w (some u) ≡ none
      → literal_or_name net w u.hostname (net.parse_ip u.hostname) ≡ none
  judged-literal_or_name w u h = elim (Bool-cases (not (allowed_scheme net u.scheme))) [
    | inl a ↦ absurd (let h' : some unsupported_scheme ≡ none = rw a at h in cc)
    | inr a ↦ elim (Bool-cases (equals u.hostname [])) [
      | inl b ↦ absurd (let h' : some empty_hostname ≡ none = rw (a, b) at h in cc)
      | inr b ↦ elim (Bool-cases (is_unsafe_hostname u.hostname)) [
        | inl c ↦ absurd (let h' : some internal_hostname ≡ none = rw (a, b, c) at h in cc)
        | inr c ↦ rw (a, b, c) at h
      ]
    ]
  ]

  resolved-any_unsafe :
      (ips : List Ip) → resolved net (some ips) ≡ none → any_unsafe net ips ≡ false
  resolved-any_unsafe ips h = elim (Bool-cases (any_unsafe net ips)) [
    | inl e ↦ absurd (let h' : some unsafe_address ≡ none = rw e at h in cc)
    | inr e ↦ e
  ]

  -- Where a link passes the check before its request, and the dialler resolves the link's host, a name,
  -- to the addresses that the check saw, it dials all of them in order until one answers.
  external_dial_context-is_external_safe :
      (w : World) (url addr port : List ℕ) (u : Url) (ips : List Ip)
      → is_external_safe net w url ≡ none
      → net.parse_url url ≡ some u
      → net.parse_ip u.hostname ≡ none
      → net.lookup_ip w u.hostname ≡ some ips
      → net.split_host_port addr ≡ some (u.hostname, port)
      → external_dial_context net w addr ≡ dial_first net port w ips
  unfolding is_external_safe external_dial_context
  external_dial_context-is_external_safe w url addr port u ips passed parsed name answers parts =
      let checked : judged net w (some u) ≡ none = rw parsed at passed in
      let seen : resolved net (some ips) ≡ none =
        rw (name, answers) at (judged-literal_or_name w u checked) in
      rw (parts, answers, safe_ips-any_unsafe ips (resolved-any_unsafe ips seen)) refl
