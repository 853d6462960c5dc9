-- ===== src/Proxy/Exposure.antt =====
-- No proxy listens on an address that the machine is reached at from a public network.
use anito.Prelude.{
  String, ◌≡◌, refl, ◌⊎◌, inl, inr, true, false, ◌||◌, Option, none, some, List, [], ◌∷◌, ◌==◌,
  text_comparable, Bool-cases, arith,
}
use anito.Text.Trim.{trim_space}
use anito.Proxy.Address.{
  IpAddress, Net, is_tailscale_address, among, check_local, check_parsed, bare,
  validate_proxy_bind_address,
}

abbrev IsAmong : IpAddress → List IpAddress → Type 0
IsAmong a [] = ⊥
IsAmong a (b ∷ bs) = (b.text ≡ a.text) ⊎ IsAmong a bs

-- An address of a Tailscale network that an interface of this machine has.
pub record IsOwnTailscale (net : Net) (a : IpAddress) : Type 0 where
  pub specified : a.unspecified ≡ false
  pub network : (a.in_prefix "100.64.0.0/10" || a.in_prefix "fd7a:115c:a1e0::/48") ≡ true
  pub own : List IpAddress
  pub read : net.interfaces ≡ some own
  pub among_own : IsAmong a own

abbrev pub IsPrivate : Net → String → Type 0
IsPrivate net address =
    (address ≡ "")
    ⊎ (address ≡ "localhost")
    ⊎ ((a : IpAddress) × (net.parse (bare address) ≡ some a)
        × ((a.loopback ≡ true) ⊎ IsOwnTailscale net a))

among-IsAmong : (a : IpAddress) (bs : List IpAddress) → among a bs ≡ true → IsAmong a bs
unfolding among
among-IsAmong a [] h = cc
among-IsAmong a (b ∷ bs) h = elim (Bool-cases (b.text == a.text)) [
  | inl p ↦ inl ((text_comparable.same_iff b.text a.text).0 p)
  | inr p ↦ inr (among-IsAmong a bs (rw p at h))
]

check_local-IsAmong :
    (address : String) (a : IpAddress) (o : Option (List IpAddress))
    → check_local address a o ≡ none
    → (bs : List IpAddress) × (o ≡ some bs) × IsAmong a bs
unfolding check_local
check_local-IsAmong address a none h = cc
check_local-IsAmong address a (some bs) h = elim (Bool-cases (among a bs)) [
  | inl p ↦ (bs, refl, among-IsAmong a bs p)
  | inr p ↦ cc (rw p at h)
]

check_parsed-cases :
    (net : Net) (address : String) (a : IpAddress)
    → check_parsed net address (some a) ≡ none
    → (a.loopback ≡ true)
      ⊎ ((a.unspecified ≡ false)
          × (is_tailscale_address a ≡ true)
          × (check_local address a net.interfaces ≡ none))
unfolding check_parsed
check_parsed-cases net address a h = ground arith

check_parsed-IsPrivate :
    (net : Net) (address : String) (o : Option IpAddress)
    → check_parsed net address o ≡ none
    → (a : IpAddress) × (o ≡ some a) × ((a.loopback ≡ true) ⊎ IsOwnTailscale net a)
unfolding check_parsed is_tailscale_address
check_parsed-IsPrivate net address none h = cc
check_parsed-IsPrivate net address (some a) h = elim (check_parsed-cases net address a h) [
  | inl l ↦ (a, refl, inl l)
  | inr (u, t, c) ↦
      let (bs, read, m) = check_local-IsAmong address a net.interfaces c in
      (a, refl, inr (record { specified = u; network = t; own = bs; read = read; among_own = m }))
]

-- A bind address that is accepted is, without the spaces round it, empty or "localhost", or it is an
-- IP address that is a loopback address or one of a Tailscale network that an interface of this
-- machine has; no wildcard address is accepted.
pub validate_proxy_bind_address-IsPrivate :
    (net : Net) (given : String)
    → validate_proxy_bind_address net given ≡ none
    → IsPrivate net (trim_space given)
unfolding validate_proxy_bind_address
validate_proxy_bind_address-IsPrivate net given h = elim (Bool-cases (trim_space given == "")) [
  | inl p ↦ inl ((text_comparable.same_iff (trim_space given) "").0 p)
  | inr p ↦ elim (Bool-cases (trim_space given == "localhost")) [
    | inl q ↦ inr (inl ((text_comparable.same_iff (trim_space given) "localhost").0 q))
    | inr q ↦ inr (
        inr (
          check_parsed-IsPrivate net (trim_space given) (net.parse (bare (trim_space given)))
            (rw (validate_proxy_bind_address, p, q) at h)))
  ]
]
