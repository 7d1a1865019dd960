-- ===== src/Net/ClientIp.antt =====
-- The address of a client behind proxies (server/app/core/client_ip.py). The library `ipaddress` is an argument;
-- the cache of the trusted networks is left out.
use Prim.Native.Char.{code}
use it_asset_inventory.Base.{
  ℕ, ◌+◌, String, Bool, false, not, ◌&&◌, ◌||◌, Option, none, some, List, [], ◌∷◌, ◌++◌, map, ◌==◌,
  if◌then◌else◌, truthy, truthy?, get_or, text_of, filter, find?, any, strip, one_of,
}

-- What `ipaddress` says of an address: `str(ip)`, its properties, and `str(ip.ipv4_mapped)`.
pub record Address : Type 0 where
  pub text : String
  pub is_loopback : Bool
  pub is_link_local : Bool
  pub ipv4_mapped : Option String

-- `ip_address`, `none` where it raises; whether `ip_network` accepts a text; and whether a network holds an address.
pub record Ipaddress : Type 0 where
  pub ip_address : String → Option Address
  pub is_network : String → Bool
  pub holds : String → String → Bool

abbrev pub comma : ℕ
comma = 44

abbrev pub percent : ℕ
percent = 37

abbrev pub colon : ℕ
colon = 58

-- `s.split(c)`: the first piece, and the others.
unfoldable pub split_at : ℕ → String → String × List String
split_at k String.[] = ("", [])
split_at k (String.◌∷◌ c s) =
    let (piece, pieces) = split_at k s in
    if code c == k then ("", piece ∷ pieces) else (String.◌∷◌ c piece, pieces)

abbrev pub split : ℕ → String → List String
split k s = (split_at k s).0 ∷ (split_at k s).1

-- `s.count(c)`.
unfoldable pub occurrences : ℕ → String → ℕ
occurrences k String.[] = 0
occurrences k (String.◌∷◌ c s) = (if code c == k then 1 else 0) + occurrences k s

-- `[p.strip() for p in s.split(",") if p.strip()]`.
unfoldable pub pieces : String → List String
pieces s = filter truthy (map strip (split comma s))

abbrev pub default_networks : List String
default_networks =
    "127.0.0.0/8" ∷ "::1/128" ∷ "10.0.0.0/8" ∷ "172.16.0.0/12" ∷ "192.168.0.0/16" ∷ "fc00::/7" ∷ []

abbrev pub or_networks : List String → List String → List String
or_networks [] other = other
or_networks (n ∷ nets) other = n ∷ nets

-- `_parse_trusted`, of the setting `trusted_proxy_cidrs`.
unfoldable pub parse_trusted : Ipaddress → String → List String
parse_trusted lib raw =
    or_networks (filter lib.is_network (pieces raw)) (filter lib.is_network default_networks)

-- The text of an address, of the IPv4 address that it maps where there is one.
abbrev pub canonical : Address → String
canonical a = get_or a.ipv4_mapped a.text

-- `_peer_is_trusted`.
unfoldable pub peer_is_trusted : Ipaddress → String → String → Bool
peer_is_trusted lib raw peer_ip =
    if not (truthy peer_ip) then false else elim (lib.ip_address peer_ip) [
      | none ↦ false
      | some ip ↦ any (λ net. lib.holds net (canonical ip)) (parse_trusted lib raw)
    ]

-- `_is_proxy_hop`.
unfoldable pub is_proxy_hop : Ipaddress → String → String → Bool
is_proxy_hop lib raw hop = elim (lib.ip_address hop) [
  | none ↦ false
  | some ip ↦ ip.is_loopback || ip.is_link_local || peer_is_trusted lib raw ip.text
]

abbrev pub reversed : List String → List String
reversed [] = []
reversed (x ∷ xs) = reversed xs ++ x ∷ []

abbrev pub first : List String → Option String
first [] = none
first (x ∷ xs) = some x

abbrev pub or_else : Option String → Option String → Option String
or_else none o = o
or_else (some s) o = some s

-- `_parse_xff`.
unfoldable pub parse_xff : Ipaddress → String → String → Option String
parse_xff lib raw xff =
    or_else (find? (λ hop. not (is_proxy_hop lib raw hop)) (reversed (pieces xff)))
      (first (pieces xff))

-- `_normalize`.
unfoldable pub normalize : Ipaddress → String → String
normalize lib s =
    if not (truthy s)
    then ""
    else let unzoned = (split_at percent s).0 in
      let plain = if occurrences colon unzoned == 1 then (split_at colon unzoned).0 else unzoned in
      elim (lib.ip_address plain) [ none ↦ plain | some ip ↦ canonical ip ]

-- What a request carries: `request.client.host` and the two headers.
pub record Request : Type 0 where
  pub host : Option String
  pub x_forwarded_for : Option String
  pub x_real_ip : Option String

abbrev pub trusts : Ipaddress → String → Option (List String) → String → Bool
trusts lib raw none peer = peer_is_trusted lib raw peer
trusts lib raw (some override) peer = one_of peer override

-- The address by the headers, from a trusted peer.
unfoldable pub by_real_ip : Ipaddress → Option String → String → String
by_real_ip lib xri peer =
    if truthy? xri then normalize lib (strip (text_of xri)) else normalize lib peer

unfoldable pub by_headers : Ipaddress → String → Request → String → String
by_headers lib raw r peer =
    if truthy? r.x_forwarded_for
    then (let real = parse_xff lib raw (text_of r.x_forwarded_for) in
        if truthy? real then normalize lib (text_of real) else by_real_ip lib r.x_real_ip peer)
    else by_real_ip lib r.x_real_ip peer

-- `get_client_ip`, with `_trusted_override`.
unfoldable pub get_client_ip : Ipaddress → String → Option (List String) → Request → Option String
get_client_ip lib raw override r =
    if not (truthy? r.host)
    then none
    else let peer = text_of r.host in
      let seen = normalize lib peer in
      if truthy seen && trusts lib raw override seen
      then some (by_headers lib raw r peer)
      else some seen

-- `rate_limit_key`.
unfoldable pub rate_limit_key : Ipaddress → String → Request → String
rate_limit_key lib raw r =
    let ip = get_client_ip lib raw none r in if truthy? ip then text_of ip else "unknown"
