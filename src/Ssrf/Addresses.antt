-- ===== src/Ssrf/Addresses.antt =====
-- internal/ssrf/ssrf.go: what an accepted URL can reach.
use logtailr.Base.{
  ℕ, String, ◌≡◌, false, Option, none, some, List, [], ◌∷◌, Bool-cases, inl, inr, arith, All, ◌<◌,
  ◌≢◌,
}
use logtailr.Base.Result.{Result, ok, err}
use logtailr.Ssrf.{
  Network, is_disallowed_ip, check_addrs, check_lookup, check_host, check_hostname, check_url,
  validate_external_url, invalid, redirect_guard,
}

module _ (net : Network) where
  open net use {Error, Url, Ip, parse_url, hostname, parse_ip, lookup_ip_addr}

  -- the addresses that a request to a host goes to: its own, or those of its name
  abbrev resolved : Result Error (List Ip) → List Ip
  resolved (ok ips) = ips
  resolved (err e) = []

  abbrev of_literal : Option Ip → List Ip → List Ip
  of_literal (some ip) ips = ip ∷ []
  of_literal none ips = ips

  abbrev pub addresses : String → List Ip
  addresses host = of_literal (parse_ip host) (resolved (lookup_ip_addr host))

  abbrev of_url : Result Error Url → List Ip
  of_url (ok u) = addresses (hostname u)
  of_url (err e) = []

  abbrev pub reached : String → List Ip
  reached raw = of_url (parse_url raw)

  abbrev pub Allowed : Ip → Type 0
  Allowed ip = is_disallowed_ip net ip ≡ false

  check_addrs-All :
      (host : String) (ips : List Ip) → check_addrs net host ips ≡ ok tt → All Allowed ips
  unfolding check_addrs
  check_addrs-All host [] h = tt
  check_addrs-All host (ip ∷ ips) h = elim (Bool-cases (is_disallowed_ip net ip)) [
    | inl bad ↦ ground arith
    | inr good ↦ (good, check_addrs-All host ips (simp good at h))
  ]

  check_lookup-All :
      (host : String) (r : Result Error (List Ip))
      → check_lookup net host r ≡ ok tt
      → (resolved r ≢ []) × All Allowed (resolved r)
  unfolding check_lookup
  check_lookup-All host (ok []) h = ground arith
  check_lookup-All host (ok (ip ∷ ips)) h = (ground arith, check_addrs-All host (ip ∷ ips) h)
  check_lookup-All host (err e) h = ground arith

  check_host-All :
      (host : String) (o : Option Ip)
      → check_host net host o ≡ ok tt
      → (let ips = of_literal o (resolved (lookup_ip_addr host)) in (ips ≢ []) × All Allowed ips)
  unfolding check_host
  check_host-All host (some ip) h = (ground arith, (ground arith, tt))
  check_host-All host none h = check_lookup-All host (lookup_ip_addr host) h

  check_url-All :
      (r : Result Error Url) → check_url net r ≡ ok tt → (of_url r ≢ []) × All Allowed (of_url r)
  unfolding check_url check_hostname
  check_url-All (ok u) h =
      let host = hostname u in ground (arith, check_host-All host (parse_ip host))
  check_url-All (err e) h = ground arith

  -- A URL that is accepted reaches some address, and none that it reaches is a loopback, private,
  -- link-local or unspecified one, as the resolver answers when the URL is checked.
  pub validate_external_url-All :
      (raw : String)
      → validate_external_url net raw ≡ ok tt
      → (reached raw ≢ []) × All Allowed (reached raw)
  unfolding validate_external_url
  validate_external_url-All raw h = ground (arith, check_url-All (parse_url raw))

  -- Where local targets are not allowed, a redirect that the guard lets through comes after less than
  -- ten others, and reaches some address and none that is internal.
  pub redirect_guard-All :
      (target : String) (via : ℕ)
      → redirect_guard net false target via ≡ ok tt
      → (via < 10) × (reached target ≢ []) × All Allowed (reached target)
  unfolding redirect_guard invalid
  redirect_guard-All target via h = ground (arith, validate_external_url-All target)
