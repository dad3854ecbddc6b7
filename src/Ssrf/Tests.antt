-- ===== src/Ssrf/Tests.antt =====
-- A network with one public and one private name, on which the theorems about internal/ssrf are tried.
use logtailr.Base.{
  String, ◌≡◌, refl, ◌<◌, ◌≢◌, false, none, List, [], ◌∷◌, if◌then◌else◌, str_eq, All,
}
use logtailr.Base.Text.{has_prefix}
use logtailr.Base.Result.{Result, ok, err}
use logtailr.Ssrf.{
  Network, validate_external_url, redirect_guard, check_url, check_hostname, check_host,
  check_lookup, check_addrs, is_disallowed_ip, invalid,
}
use logtailr.Ssrf.Addresses.{reached, Allowed, validate_external_url-All, redirect_guard-All}

abbrev sample_lookup : String → Result String (List String)
sample_lookup host =
    if str_eq host "search.example"
    then ok ("93.184.216.34" ∷ [])
    else if str_eq host "inside.example"
    then ok ("93.184.216.34" ∷ "10.0.0.7" ∷ [])
    else err "no such host"

abbrev sample_host : String → String
sample_host raw =
    if str_eq raw "https://search.example/logs" then "search.example" else "inside.example"

-- addresses and URLs are texts
abbrev pub sample_network : Network
sample_network = record {
  Error = String;
  Url = String;
  Ip = String;
  parse_url = λ raw. ok raw;
  hostname = sample_host;
  parse_ip = λ host. none;
  lookup_ip_addr = sample_lookup;
  is_loopback = λ ip. str_eq ip "127.0.0.1";
  is_private = λ ip. str_eq ip "10.0.0.7";
  is_link_local_unicast = λ ip. false;
  is_link_local_multicast = λ ip. false;
  is_unspecified = λ ip. str_eq ip "0.0.0.0";
}

accepted_url : validate_external_url sample_network "https://search.example/logs" ≡ ok tt
unfolding validate_external_url check_url check_hostname check_host check_lookup check_addrs
    is_disallowed_ip has_prefix
accepted_url = refl

accepted_redirect : redirect_guard sample_network false "https://search.example/logs" 9 ≡ ok tt
unfolding redirect_guard invalid validate_external_url check_url check_hostname check_host
    check_lookup check_addrs is_disallowed_ip has_prefix
accepted_redirect = refl

validate_external_url-All_example :
    (reached sample_network "https://search.example/logs" ≢ [])
    × All (Allowed sample_network) (reached sample_network "https://search.example/logs")
validate_external_url-All_example =
    validate_external_url-All sample_network "https://search.example/logs" accepted_url

redirect_guard-All_example :
    (9 < 10)
    × (reached sample_network "https://search.example/logs" ≢ [])
    × All (Allowed sample_network) (reached sample_network "https://search.example/logs")
redirect_guard-All_example =
    redirect_guard-All sample_network "https://search.example/logs" 9 accepted_redirect
