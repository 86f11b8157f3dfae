-- ===== src/LinkCheck/Tests.antt =====
-- Addresses of four bytes, and a resolver that answers a public and a loopback address.
use locorum.Common.{
  ℕ, ◌≡◌, refl, ◌&&◌, false, none, some, List, [], ◌∷◌, ◌==◌, if◌then◌else◌, arith,
}
use locorum.Common.Text.{codes, equals, to_lower}
use locorum.LinkCheck.{
  Addresses, is_unsafe_ip, is_unsafe_hostname, Net, internal_hostname, unsafe_address,
  is_external_safe, external_dial_context, has_suffix, trim_dot,
}
use locorum.LinkCheck.Dial.{IsToSafe, external_dial_context-IsToSafe}

abbrev Ip : Type 0
Ip = ℕ × ℕ × ℕ × ℕ

abbrev first_byte : Ip → ℕ
first_byte (a, b, c, d) = a

abbrev second_byte : Ip → ℕ
second_byte (a, b, c, d) = b

abbrev addresses : Addresses Ip
addresses = record {
  is_loopback = λ ip. first_byte ip == 127;
  is_private = λ ip. first_byte ip == 10;
  is_link_local_unicast = λ ip. first_byte ip == 169 && second_byte ip == 254;
  is_link_local_multicast = λ ip. false;
  is_multicast = λ ip. first_byte ip == 224;
  is_unspecified = λ ip. first_byte ip == 0;
  to4 = λ ip. some ip;
}

-- The world lists the first bytes of what was dialled; nothing answers but 9.9.9.9.
abbrev net : Net Ip (List ℕ) ℕ
net = record {
  addresses = addresses;
  parse_url = λ url. some (record { scheme = codes "https"; hostname = url });
  parse_ip = λ host. none;
  lookup_ip = λ w host.
      if equals host (codes "mixed.example")
      then some ((127, 0, 0, 1) ∷ (100, 64, 0, 1) ∷ (8, 8, 8, 8) ∷ (9, 9, 9, 9) ∷ [])
      else some ((9, 9, 9, 9) ∷ []);
  split_host_port = λ addr. some (addr, codes "443");
  dial = λ w ip port. (first_byte ip ∷ w, if first_byte ip == 9 then some 1 else none);
}

dials :
    (external_dial_context net [] (codes "mixed.example") ≡ (9 ∷ 8 ∷ [], some 1))
    × (is_external_safe net [] (codes "mixed.example") ≡ some unsafe_address)
    × (is_external_safe net [] (codes "Router.LAN.") ≡ some internal_hostname)
    × (is_external_safe net [] (codes "example.com") ≡ none)
unfolding external_dial_context is_external_safe is_unsafe_ip is_unsafe_hostname to_lower equals
    has_suffix trim_dot
dials = (refl, refl, refl, refl)

abbrev NoLoopback : List ℕ → Type 0
NoLoopback [] = Unit {0}
NoLoopback (a ∷ w) = ((a == 127) ≡ false) × NoLoopback w

dial-NoLoopback :
    (w : List ℕ) (ip : Ip) (port : List ℕ)
    → is_unsafe_ip addresses (some ip) ≡ false
    → NoLoopback w
    → NoLoopback (net.dial w ip port).0
unfolding is_unsafe_ip
dial-NoLoopback w (a, b, c, d) port h p = (ground arith, p)

external_dial_context-IsToSafe_example :
    NoLoopback (external_dial_context net [] (codes "mixed.example")).0
    × IsToSafe net (external_dial_context net [] (codes "mixed.example")).1
external_dial_context-IsToSafe_example =
    external_dial_context-IsToSafe net NoLoopback [] (codes "mixed.example") dial-NoLoopback tt
