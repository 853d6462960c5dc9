-- ===== src/Proxy/ExposureTests.antt =====
-- Bind addresses on a machine that has one Tailscale address.
use anito.Prelude.{
  String, ◌≡◌, refl, true, false, Option, none, some, [], ◌∷◌, ◌==◌, text_comparable, if◌then◌else◌,
}
use anito.Text.Trim.{trim_space, is_space, trim_prefix_char, trim_suffix_char}
use anito.Proxy.Types.{wildcard, not_local}
use anito.Proxy.Address.{IpAddress, Net, validate_proxy_bind_address, among, is_tailscale_address}
use anito.Proxy.Exposure.{IsPrivate, validate_proxy_bind_address-IsPrivate}

abbrev tailscale : String → IpAddress
tailscale text = record {
  text = text;
  loopback = false;
  unspecified = false;
  in_prefix = λ p. p == "100.64.0.0/10";
}

abbrev parse_some : String → Option IpAddress
parse_some text =
    if text == "100.100.1.2"
    then some (tailscale "100.100.1.2")
    else if text == "100.100.9.9"
    then some (tailscale "100.100.9.9")
    else if text == "0.0.0.0"
    then some
        (record { text = "0.0.0.0"; loopback = false; unspecified = true; in_prefix = λ p. false })
    else none

abbrev net : Net
net = record { parse = parse_some; interfaces = some (tailscale "100.100.1.2" ∷ []) }

own_is_accepted : validate_proxy_bind_address net " 100.100.1.2 " ≡ none
unfolding validate_proxy_bind_address trim_space is_space among trim_prefix_char trim_suffix_char
    is_tailscale_address
own_is_accepted = refl

foreign_is_refused : validate_proxy_bind_address net "100.100.9.9" ≡ some (not_local "100.100.9.9")
unfolding validate_proxy_bind_address trim_space is_space among trim_prefix_char trim_suffix_char
    is_tailscale_address
foreign_is_refused = refl

wildcard_is_refused : validate_proxy_bind_address net "0.0.0.0" ≡ some (wildcard "0.0.0.0")
unfolding validate_proxy_bind_address trim_space is_space trim_prefix_char trim_suffix_char
wildcard_is_refused = refl

validate_proxy_bind_address-IsPrivate_example : IsPrivate net (trim_space " 100.100.1.2 ")
validate_proxy_bind_address-IsPrivate_example =
    validate_proxy_bind_address-IsPrivate net " 100.100.1.2 " own_is_accepted
