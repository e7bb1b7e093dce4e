-- ===== src/Examples/Endpoints.antt =====
-- Endpoints of model providers on concrete addresses, with an `isIP` that knows the addresses below and a
-- resolution that gives them.
use wknowledge.Base.{
  ℕ, ◌+◌, ◌*◌, ◌/◌, ◌%◌, ◌≡◌, refl, Text, units, Bool, true, false, not, ◌||◌, Option, none, some,
  List, [], ◌∷◌, ok, arith, if◌then◌else◌, ◌===◌,
}
use wknowledge.ProviderEndpoint.{
  Url, ProviderEndpointPolicy, cloud, public_ip, resolve_provider_endpoint,
}
use wknowledge.ProviderEndpoint.Addresses.{normalized_host, dotted, mapped_ipv4_address}
use wknowledge.ProviderEndpoint.Mapped.{mapped_text, mapped_ipv4_address-mapped_text}
use wknowledge.ProviderEndpoint.Ranges.{number, in_ranges, public_ip-dotted, public_ip-mapped}
use wknowledge.ProviderEndpoint.Safety.{IsSafeCloud, resolved_endpoint-IsSafeCloud}

abbrev is_ip : Text → ℕ
unfolding ◌===◌
is_ip s =
    if (s === units "10.1.2.3") || (s === units "93.184.216.34")
    then 4
    else if s === units "::ffff:a01:203"
    then 6
    else 0

public_ip-dotted_example : public_ip is_ip (dotted 10 1 2 3) ≡ not (in_ranges (number 10 1 2 3))
unfolding is_ip dotted wknowledge.Base.Decimal.to_string
public_ip-dotted_example =
    public_ip-dotted is_ip 10 1 2 3 (omega arith) (omega arith) (omega arith) (omega arith) refl

public_ip-mapped_example :
    public_ip is_ip (mapped_text 0xa01 0x203) ≡ not (in_ranges (0xa01 * 65536 + 0x203))
unfolding is_ip wknowledge.ProviderEndpoint.Addresses.to_hex dotted
    wknowledge.Base.Decimal.to_string
public_ip-mapped_example = public_ip-mapped is_ip 0xa01 0x203 (omega arith) (omega arith) refl refl

mapped_ipv4_address-mapped_text_example :
    mapped_ipv4_address (mapped_text 0xa01 0x203)
    ≡ some (dotted (0xa01 / 256) (0xa01 % 256) (0x203 / 256) (0x203 % 256))
mapped_ipv4_address-mapped_text_example =
    mapped_ipv4_address-mapped_text 0xa01 0x203 (omega arith) (omega arith)

abbrev endpoint : Url
endpoint = record {
  protocol = units "https:";
  username = [];
  password = [];
  search = [];
  hash = [];
  hostname = units "api.example.com";
}

abbrev parse_url : Text → Option Url
parse_url base_url = some endpoint

abbrev policy : ProviderEndpointPolicy
policy = record { local_host_allowlist = []; cloud_host_allowlist = units "api.example.com" ∷ [] }

abbrev resolve : Text → Option (List Text)
resolve host = some (units "93.184.216.34" ∷ [])

let_through :
    resolve_provider_endpoint parse_url is_ip
      (units "https://api.example.com/v1")
      cloud
      policy
      resolve
    ≡ ok (endpoint, units "93.184.216.34" ∷ [])
unfolding resolve_provider_endpoint wknowledge.ProviderEndpoint.validate_provider_endpoint
    wknowledge.ProviderEndpoint.endpoint_url ◌===◌ normalized_host wknowledge.Base.has public_ip
    wknowledge.ProviderEndpoint.public_ipv4
let_through = refl

resolved_endpoint-IsSafeCloud_example :
    IsSafeCloud is_ip policy endpoint (units "93.184.216.34" ∷ [])
    × (resolve (normalized_host endpoint.hostname) ≡ some (units "93.184.216.34" ∷ []))
resolved_endpoint-IsSafeCloud_example =
    resolved_endpoint-IsSafeCloud parse_url is_ip (units "https://api.example.com/v1") policy
      resolve endpoint (units "93.184.216.34" ∷ []) let_through
