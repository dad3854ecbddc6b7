-- ===== src/Ssrf.antt =====
-- internal/ssrf/ssrf.go: which URLs the program may send requests to.
pub mod Addresses
pub mod Tests
use logtailr.Base.{
  ℕ, String, Bool, true, false, not, ◌||◌, ◌&&◌, Option, none, some, List, [], ◌∷◌, leb,
  if◌then◌else◌, str_eq,
}
use logtailr.Base.Text.{has_prefix}
use logtailr.Base.Result.{Result, ok, err}

-- Go's `net` and `net/url`: parsing, classes of addresses, and the resolver.
pub record Network : Type 1 where
  pub Error : Type 0
  pub Url : Type 0
  pub Ip : Type 0
  pub parse_url : String → Result Error Url
  pub hostname : Url → String
  pub parse_ip : String → Option Ip
  pub lookup_ip_addr : String → Result Error (List Ip)
  pub is_loopback : Ip → Bool
  pub is_private : Ip → Bool
  pub is_link_local_unicast : Ip → Bool
  pub is_link_local_multicast : Ip → Bool
  pub is_unspecified : Ip → Bool

pub data UrlError (E I : Type 0) : Type 0 where
  bad_scheme : UrlError E I
  invalid_url : E → UrlError E I
  no_hostname : UrlError E I
  internal_hostname : String → UrlError E I
  internal_address : String → UrlError E I
  unresolved : String → Option E → UrlError E I
  resolves_to_internal : String → I → UrlError E I

pub data RedirectError (E I : Type 0) : Type 0 where
  too_many_redirects : RedirectError E I
  invalid_target : UrlError E I → RedirectError E I

module _ (net : Network) where
  open net use {
    Error, Url, Ip, parse_url, hostname, parse_ip, lookup_ip_addr, is_loopback, is_private,
    is_link_local_unicast, is_link_local_multicast, is_unspecified,
  }

  unfoldable pub is_disallowed_ip : Ip → Bool
  is_disallowed_ip ip =
      is_loopback ip
      || is_private ip
      || is_link_local_unicast ip
      || is_link_local_multicast ip
      || is_unspecified ip

  -- the loop over the addresses of a name
  unfoldable pub check_addrs : String → List Ip → Result (UrlError Error Ip) Unit
  check_addrs host [] = ok tt
  check_addrs host (ip ∷ ips) =
      let rest = check_addrs host ips in
      if is_disallowed_ip ip then err (resolves_to_internal host ip) else rest

  check_lookup : String → Result Error (List Ip) → Result (UrlError Error Ip) Unit
  unfolding check_addrs
  check_lookup host (err e) = err (unresolved host (some e))
  check_lookup host (ok []) = err (unresolved host none)
  check_lookup host (ok (ip ∷ ips)) = check_addrs host (ip ∷ ips)

  check_host : String → Option Ip → Result (UrlError Error Ip) Unit
  unfolding check_lookup
  check_host host (some ip) = if is_disallowed_ip ip then err (internal_address host) else ok tt
  check_host host none = check_lookup host (lookup_ip_addr host)

  check_hostname : String → Result (UrlError Error Ip) Unit
  unfolding check_host
  check_hostname host =
      if str_eq host ""
      then err no_hostname
      else if str_eq host "localhost" || str_eq host "metadata.google.internal"
      then err (internal_hostname host)
      else check_host host (parse_ip host)

  check_url : Result Error Url → Result (UrlError Error Ip) Unit
  unfolding check_hostname
  check_url (err e) = err (invalid_url e)
  check_url (ok u) = check_hostname (hostname u)

  unfoldable pub validate_external_url : String → Result (UrlError Error Ip) Unit
  unfolding check_url
  validate_external_url raw =
      if has_prefix raw "http://" || has_prefix raw "https://"
      then check_url (parse_url raw)
      else err bad_scheme

  invalid : Result (UrlError Error Ip) Unit → Result (RedirectError Error Ip) Unit
  invalid (ok t) = ok t
  invalid (err e) = err (invalid_target e)

  -- RedirectGuard(allow_local) of a request to `target` after `via` redirects
  unfoldable pub redirect_guard : Bool → String → ℕ → Result (RedirectError Error Ip) Unit
  unfolding invalid
  redirect_guard allow_local target via =
      if leb 10 via
      then err too_many_redirects
      else if allow_local
      then ok tt
      else invalid (validate_external_url target)
