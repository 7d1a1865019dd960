-- ===== src/Net/Tests.antt =====
-- The theorems on addresses at concrete headers. Every address of 10. is in a trusted network.
use it_asset_inventory.Base.{
  String, ◌≡◌, refl, Bool, false, none, some, [], ◌∷◌, str_eq, strip, one_of,
}
use it_asset_inventory.Net.ClientIp.{
  split_at, occurrences, pieces, parse_trusted, peer_is_trusted, is_proxy_hop, normalize,
  get_client_ip, Ipaddress, Request,
}
use it_asset_inventory.Net.Forwarded.{get_client_ip-vouched}

abbrev is_inner : String → Bool
is_inner s = one_of s ("10.0.0.5" ∷ "10.0.0.9" ∷ [])

abbrev lib : Ipaddress
lib = record {
  ip_address = λ s.
      some (record { text = s; is_loopback = false; is_link_local = false; ipv4_mapped = none });
  is_network = λ s. str_eq s "10.0.0.0/8";
  holds = λ net s. is_inner s;
}

abbrev request : Request
request = record {
  host = some "10.0.0.5";
  x_forwarded_for = some "1.1.1.1,203.0.113.77, 10.0.0.9";
  x_real_ip = none;
}

get_client_ip-vouched_example :
    get_client_ip lib "10.0.0.0/8" none request ≡ some (normalize lib "203.0.113.77")
unfolding normalize peer_is_trusted is_proxy_hop pieces parse_trusted split_at strip one_of
    occurrences
get_client_ip-vouched_example =
    get_client_ip-vouched lib "10.0.0.0/8" request "10.0.0.5" "203.0.113.77" "1.1.1.1"
      "203.0.113.77, 10.0.0.9" refl refl refl refl refl
