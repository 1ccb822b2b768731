-- ===== src/Api/Remote/Tests.antt =====
-- Addresses of requests, and the theorems at concrete inputs.
use wrtdeck.Prelude.{
  if◌then◌else◌, is_empty, Text, text_eq, nat_key, text_key, codes, trim_space, split, contains,
  ◌≡◌, refl, false, none, some, List, [], ◌∷◌,
}
use wrtdeck.Api.Remote.{
  Net, HttpRequest, remote_ip, proxy_matches, is_trusted_proxy, last_untrusted, forwarded_ip,
  client_ip,
}
use wrtdeck.Gateway.Luci.{cut}
use wrtdeck.Api.Remote.Forged.{client_ip_forged}

-- Addresses stand for themselves, a port is split off at its colon, and there are no networks.
abbrev plain_net : Net Text
plain_net = record {
  split_host_port = λ t. cut b':' t;
  parse_ip = λ t. if is_empty t then none else some t;
  show_ip = λ t. t;
  same_ip = text_eq;
  cidr_contains = λ net t. none;
  is_loopback = λ t. text_eq t (codes "127.0.0.1");
  is_private = λ t. false;
  is_link_local = λ t. false;
}

-- A browser behind the gateway claims another address.
abbrev claimed : HttpRequest
claimed = record {
  method = codes "GET";
  path = codes "/api/v1/states";
  remote_addr = codes "127.0.0.1:4711";
  host = codes "router";
  header =
      λ name. if text_eq name (codes "X-Forwarded-For") then codes "1.2.3.4, 192.168.1.7" else [];
  is_tls = false;
}

abbrev gateways : List Text
gateways = codes "127.0.0.1" ∷ []

claim_ignored : client_ip plain_net claimed gateways ≡ codes "192.168.1.7"
unfolding client_ip remote_ip is_trusted_proxy forwarded_ip proxy_matches last_untrusted cut
    trim_space contains split
claim_ignored = refl

remote_read : remote_ip plain_net claimed.remote_addr ≡ some (codes "127.0.0.1")
unfolding remote_ip cut
remote_read = refl

not_gateway : is_trusted_proxy plain_net (codes "192.168.1.7") gateways ≡ false
unfolding is_trusted_proxy proxy_matches trim_space contains
not_gateway = refl

client_ip_forged_example : client_ip plain_net claimed gateways ≡ (
    if is_trusted_proxy plain_net (codes "127.0.0.1") gateways
    then codes "192.168.1.7"
    else codes "127.0.0.1")
unfolding contains trim_space
client_ip_forged_example =
    client_ip_forged plain_net gateways claimed (codes "127.0.0.1") (codes "192.168.1.7")
      (codes "1.2.3.4") (codes " 192.168.1.7") remote_read refl refl refl not_gateway
