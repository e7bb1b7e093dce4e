-- ===== src/ProviderEndpoint.antt =====
-- packages/model-gateway/src/index.ts: which endpoints a model provider may have. `new URL`, `isIP` of
-- node:net and the resolution of a host name are parameters; `none` is a throw. Host names and addresses
-- are ASCII, and `Number` is read on the digits that `isIP` has seen.
pub mod Addresses
pub mod Ranges
pub mod Safety
pub mod Hex
pub mod Mapped
use wknowledge.Base.{
  ℕ, ◌+◌, ◌-◌, ◌*◌, ◌/◌, ◌%◌, Text, units, Bool, true, false, not, ◌||◌, ◌&&◌, Option, none, some,
  is_some, List, [], ◌∷◌, ◌++◌, map, Result, ok, err, ◌>>=◌, ◌>>◌, reject_if, ltb, leb, ◌==◌,
  if◌then◌else◌, ◌===◌, has, any, length, trim, keep,
}
use wknowledge.ProviderEndpoint.Addresses.{
  normalized_host, to_lower, split_on, starts_with, mapped_ipv4_address, is_public_octets,
  octets_of,
}

pub record Url : Type 0 where
  pub protocol : Text
  pub username : Text
  pub password : Text
  pub search : Text
  pub hash : Text
  pub hostname : Text

pub data ProviderLocation : Type 0 where
  local cloud : ProviderLocation

pub record ProviderEndpointPolicy : Type 0 where
  pub local_host_allowlist : List Text
  pub cloud_host_allowlist : List Text

pub data EndpointError : Type 0 where
  endpoint_denied endpoint_unresolvable : EndpointError

abbrev pub is_empty : Text → Bool
is_empty [] = true
is_empty (c ∷ s) = false

-- `hostAllowlist`: the members of the set, where a repetition does not matter
unfoldable pub host_allowlist : Option Text → List Text → List Text
unfolding split_on normalized_host
host_allowlist none defaults = map normalized_host defaults
host_allowlist (some value) defaults =
    keep (λ h. not (is_empty h)) (map (λ item. normalized_host (trim item)) (split_on b',' value))

unfoldable pub loopback_ip : Text → Bool
unfolding normalized_host starts_with
loopback_ip value =
    let normalized = normalized_host value in
    (normalized === units "::1") || starts_with (units "127.") normalized

-- `publicIp` of an address of family 6 that is no mapped one
unfoldable pub public_ipv6 : Text → Bool
unfolding to_lower starts_with
public_ipv6 value =
    let normalized = to_lower value in
    not (
      (normalized === units "::")
      || ((normalized === units "::1")
          || any (λ prefix. starts_with prefix normalized)
              (units "fe80:"
                ∷ units "fc"
                ∷ units "fd"
                ∷ units "::ffff:127."
                ∷ units "::ffff:10."
                ∷ units "::ffff:192.168."
                ∷ units "::ffff:169.254."
                ∷ [])))

unfoldable pub public_ipv4 : Text → Bool
unfolding octets_of is_public_octets
public_ipv4 value = is_public_octets (octets_of value)

module _ (is_ip : Text → ℕ) where
  abbrev pub is_family : ℕ → Text → Bool
  is_family family value = is_ip value == family

  unfoldable pub public_mapped : Text → Option Text → Bool
  public_mapped value none = public_ipv6 value
  public_mapped value (some mapped) = is_family 4 mapped && public_ipv4 mapped

  -- `publicIp`; a mapped address is written with dots, so its own family is 4 or none
  unfoldable pub public_ip : Text → Bool
  unfolding mapped_ipv4_address
  public_ip value =
      if is_family 4 value
      then public_ipv4 value
      else if is_family 6 value
      then public_mapped value (mapped_ipv4_address value)
      else false

abbrev pub resolved : Option (List Text) → Result EndpointError (List Text)
resolved none = err endpoint_unresolvable
resolved (some addresses) = ok addresses

abbrev pub no_address : List Text → Bool
no_address [] = true
no_address (a ∷ others) = false

module _ (parse_url : Text → Option Url) (is_ip : Text → ℕ) where
  unfoldable pub endpoint_url : Text → Result EndpointError Url
  endpoint_url base_url = elim (parse_url base_url) [
    | none ↦ err endpoint_denied
    | some parsed ↦ do
      reject_if
          (not ((parsed.protocol === units "http:") || (parsed.protocol === units "https:"))
            || (not (is_empty parsed.username)
                || (not (is_empty parsed.password)
                    || (not (is_empty parsed.search) || not (is_empty parsed.hash)))))
          endpoint_denied
      ok parsed
  ]

  unfoldable pub validate_provider_endpoint :
      Text → ProviderLocation → ProviderEndpointPolicy → Result EndpointError Url
  validate_provider_endpoint base_url local policy = do
    parsed ← endpoint_url base_url
    let hostname = normalized_host parsed.hostname
    reject_if
        (not (has hostname policy.local_host_allowlist)
          || (not (is_family is_ip 0 hostname) && not (loopback_ip hostname)))
        endpoint_denied
    ok parsed
  validate_provider_endpoint base_url cloud policy = do
    parsed ← endpoint_url base_url
    let hostname = normalized_host parsed.hostname
    reject_if
        (not (parsed.protocol === units "https:")
          || (not (is_family is_ip 0 hostname) || not (has hostname policy.cloud_host_allowlist)))
        endpoint_denied
    ok parsed

  -- `resolveProviderEndpoint`, with the addresses of a host name as the argument
  unfoldable pub resolve_provider_endpoint :
      Text
      → ProviderLocation
      → ProviderEndpointPolicy
      → (Text → Option (List Text))
      → Result EndpointError (Url × List Text)
  resolve_provider_endpoint base_url local policy resolve = do
    parsed ← validate_provider_endpoint base_url local policy
    ok (parsed, [])
  resolve_provider_endpoint base_url cloud policy resolve = do
    parsed ← validate_provider_endpoint base_url cloud policy
    addresses ← resolved (resolve (normalized_host parsed.hostname))
    reject_if (no_address addresses || any (λ address. not (public_ip is_ip address)) addresses)
        endpoint_denied
    ok (parsed, addresses)
