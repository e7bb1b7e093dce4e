-- ===== src/ProviderEndpoint/Safety.antt =====
-- What `resolveProviderEndpoint` lets through.
use wknowledge.Base.{
  ℕ, ◌≡◌, ◌≢◌, ap, subst, Text, units, Bool, true, false, not, ◌||◌, Option, none, some, List, [],
  ◌∷◌, ok, any, All, has, arith, ◌===◌, ===_sound, >>=-eq-ok, passed-eq-ok, ok-injective,
}
use wknowledge.ProviderEndpoint.{
  Url, cloud, ProviderEndpointPolicy, endpoint_denied, is_family, public_ip, endpoint_url,
  validate_provider_endpoint, resolved, no_address, resolve_provider_endpoint,
}
use wknowledge.ProviderEndpoint.Addresses.{normalized_host}

none_refused :
    (test : Text → Bool) (addresses : List Text)
    → any (λ address. not (test address)) addresses ≡ false
    → All (λ address. test address ≡ true) addresses
none_refused test [] h = tt
none_refused test (a ∷ addresses) h =
    (ground (arith, h), none_refused test addresses (ground (arith, h)))

some_address : (addresses : List Text) → no_address addresses ≡ false → addresses ≢ []
some_address [] h = cc
some_address (a ∷ addresses) h = λ e. cc

resolved-ok :
    (answer : Option (List Text)) (addresses : List Text)
    → resolved answer ≡ ok addresses
    → answer ≡ some addresses
resolved-ok none addresses h = cc
resolved-ok (some found) addresses h = ap some (ok-injective found addresses h)

-- What a cloud endpoint that was let through satisfies: its host is reached by https, is a name and not an
-- address, and is allowed; and it has an address, each of them public.
pub record IsSafeCloud (is_ip : Text → ℕ) (policy : ProviderEndpointPolicy) (parsed : Url)
    (addresses : List Text) : Type 0 where
  https : parsed.protocol ≡ units "https:"
  is_name : is_family is_ip 0 (normalized_host parsed.hostname) ≡ true
  allowed : has (normalized_host parsed.hostname) policy.cloud_host_allowlist ≡ true
  resolves : addresses ≢ []
  addresses_public : All (λ address. public_ip is_ip address ≡ true) addresses

-- A cloud endpoint that is let through is reached by https, at a host that is a name and allowed; it
-- has addresses, and each of them is public. They are what the resolution of the host name gave.
pub resolved_endpoint-IsSafeCloud :
    (parse_url : Text → Option Url) (is_ip : Text → ℕ) (base_url : Text)
    (policy : ProviderEndpointPolicy) (resolve : Text → Option (List Text)) (parsed : Url)
    (addresses : List Text)
    → resolve_provider_endpoint parse_url is_ip base_url cloud policy resolve
      ≡ ok (parsed, addresses)
    → IsSafeCloud is_ip policy parsed addresses
      × (resolve (normalized_host parsed.hostname) ≡ some addresses)
unfolding resolve_provider_endpoint validate_provider_endpoint
resolved_endpoint-IsSafeCloud parse_url is_ip base_url policy resolve parsed addresses e =
    let (url, valid, e1) =
      >>=-eq-ok (validate_provider_endpoint parse_url is_ip base_url cloud policy) _ e in
    let (found, was_resolved, e2) =
      >>=-eq-ok (resolved (resolve (normalized_host url.hostname))) _ e1 in
    let (good, e3) =
      passed-eq-ok (no_address found || any (λ address. not (public_ip is_ip address)) found)
        endpoint_denied _ e2 in
    let (raw, read, v1) = >>=-eq-ok (endpoint_url parse_url is_ip base_url) _ valid in
    let (checked, v2) =
      passed-eq-ok
        (not (raw.protocol === units "https:")
          || (not (is_family is_ip 0 (normalized_host raw.hostname))
              || not (has (normalized_host raw.hostname) policy.cloud_host_allowlist)))
        endpoint_denied _ v1 in
    let host = normalized_host raw.hostname in
    let all_good : IsSafeCloud is_ip policy raw found = record {
      https = ===_sound raw.protocol (units "https:") (ground (arith, checked));
      is_name = ground (arith, checked);
      allowed = ground (arith, checked);
      resolves = some_address found (ground (arith, good));
      addresses_public = none_refused (public_ip is_ip) found (ground (arith, good));
    } in
    let found_by : resolve (normalized_host url.hostname) ≡ some found =
      resolved-ok _ found was_resolved in
    subst
      (λ out.
        IsSafeCloud is_ip policy out.0 out.1
        × (resolve (normalized_host out.0.hostname) ≡ some out.1))
      (ok-injective (url, found) (parsed, addresses) e3)
      (subst (λ u. IsSafeCloud is_ip policy u found) (ok-injective raw url v2) all_good, found_by)
