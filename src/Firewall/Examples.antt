-- ===== src/Firewall/Examples.antt =====
-- Tests of the firewall's definitions and uses of its theorems at concrete objects.
use kube_pet_node.Prelude.{
  ◌+◌, ◌≤◌, ◌<◌, List, [], ◌∷◌, Option, none, some, ◌≡◌, ◌≢◌, refl, sym, ap, ◌∙◌, true, false,
  arith, All, take, length, replicate, if◌then◌else◌,
}
use Prim.Native.Nat.{min}
use mathlib.Core.List.{Permᴰ, Memᴰ}
use mathlib.Core.List.Permᴰ
use kube_pet_node.Prelude.Text.{Text, str, format_uint, text_eq}
use kube_pet_node.Prelude.Assoc.{lookup, insert}
use kube_pet_node.Prelude.Order.{Separates}
use kube_pet_node.Firewall.Platform.{Ip, Platform}
use kube_pet_node.Firewall.Rule.{parse_port_for_nft, ifname}
use kube_pet_node.Firewall.Nft.{NftCall}
use kube_pet_node.Firewall.Writer.{new_nft_writer}
use kube_pet_node.Firewall.Writer.Comment.{make_rule_comment}
use kube_pet_node.Firewall.Cluster.{Service, Endpoints}
use kube_pet_node.Firewall.Config.Lookup.{
  service_key, endpoints_key, endpoint_map, sort_services, is_external, is_headless,
}
use kube_pet_node.Firewall.Config.Chains.{Node}
use kube_pet_node.Firewall.Config.{build_config}
use kube_pet_node.Firewall.Ruleset.{ruleset_of, has_cluster_ip}
use kube_pet_node.Firewall.Ruleset.Order.{ruleset_of-perm}
use kube_pet_node.Firewall.Ruleset.References.{IsClosed, HasEndpoints}
use kube_pet_node.Firewall.Ruleset.Closed.{ruleset_of-IsClosed}
use kube_pet_node.Firewall.Ruleset.Dangling.{OwnUid, ruleset_of-not-IsClosed}
use kube_pet_node.Firewall.Refinement.{writer_of, build_config-ruleset}
use kube_pet_node.Firewall.Bytes.{
  read_comment, read_comment-make_rule_comment, make_rule_comment_size, read_port,
  read_port-parse_port_for_nft, read_name, read_name-ifname,
}
use kube_pet_node.Firewall.Controller.{
  new_hashing_builder, hashing_write, config_hash, FirewallController, new_firewall_controller,
  flushed, failed, sync_with, sync, is_enobufs,
}
use kube_pet_node.Firewall.Controller.Sync.{
  keeps_hash, built, sync-first, sync-settles, sync-retries,
}

abbrev some_ip : Ip
some_ip = record { to4 = 10 ∷ 6 ∷ 0 ∷ 1 ∷ []; string = str "10.6.0.1" }

abbrev plain : Platform
plain = record {
  parse_ip = λ s. record { to4 = []; string = s };
  ipproto_icmp = 1;
  ipproto_tcp = 6;
  ipproto_udp = 17;
  ipproto_sctp = 132;
  chain_type_filter = str "filter";
  chain_type_nat = str "nat";
  priority_text = λ x. [];
}

abbrev pet : Node
pet = record {
  node_name = str "pet";
  vpn_iface = str "wg0";
  node_ip = some_ip;
  pod_nets = record { ip = some_ip; mask = 255 ∷ 255 ∷ 255 ∷ 0 ∷ []; string = [] } ∷ [];
}

abbrev web : Service
web = record {
  namespace = str "default";
  name = str "web";
  uid = str "u1";
  service_type = str "ClusterIP";
  cluster_ip = str "10.96.0.7";
  ports = record { name = []; protocol = str "TCP"; port = 80 } ∷ [];
}

abbrev dns : Service
dns = record web { name = str "dns"; uid = str "u2" }

abbrev web_endpoints : Endpoints
web_endpoints = record {
  namespace = str "default";
  name = str "web";
  subsets =
      record {
        addresses = record { ip = str "10.8.0.5"; node_name = some (str "pet") } ∷ [];
        ports = record { name = []; port = 8080 } ∷ [];
      }
      ∷ [];
}

abbrev dns_endpoints : Endpoints
dns_endpoints = record web_endpoints { name = str "dns" }

abbrev same_order : List Text → List Text
same_order l = l

same_perm : (l : List Text) → Permᴰ (same_order l) l
same_perm l = Permᴰ.refl l

build_config-ruleset_example :
    build_config plain same_order pet
      (some (web_endpoints ∷ []))
      (some (web ∷ dns ∷ []))
      new_nft_writer
    ≡ some (
      writer_of plain (
          ruleset_of plain pet
            (endpoint_map (web_endpoints ∷ []))
            (sort_services (web ∷ dns ∷ []))),
      true,
    )
build_config-ruleset_example =
    build_config-ruleset plain same_order pet (web_endpoints ∷ []) (web ∷ dns ∷ []) same_perm

format_uint_8080 : format_uint 8080 ≡ str "8080"
unfolding format_uint str
format_uint_8080 = refl

has_cluster_ip-web : has_cluster_ip web ≡ true
unfolding has_cluster_ip is_external is_headless text_eq str
has_cluster_ip-web = refl

abbrev long_comment : Text
long_comment = replicate 200 b'x'

read_comment-make_rule_comment_example :
    read_comment (make_rule_comment long_comment) ≡ some (take 127 long_comment)
read_comment-make_rule_comment_example = read_comment-make_rule_comment long_comment

make_rule_comment_size_example :
    (length (make_rule_comment long_comment) ≡ min 127 (length long_comment) + 3)
    × (length (make_rule_comment long_comment) ≤ 130)
make_rule_comment_size_example = make_rule_comment_size long_comment

read_port-parse_port_for_nft_example :
    (read_port (parse_port_for_nft 8080) ≡ 8080) × All (λ b. b < 256) (parse_port_for_nft 8080)
read_port-parse_port_for_nft_example = read_port-parse_port_for_nft 8080 (omega arith)

abbrev wg0 : Text
wg0 = b'w' ∷ b'g' ∷ b'0' ∷ []

read_name-ifname_example : (length (ifname wg0) ≡ 16) × (read_name (ifname wg0) ≡ wg0)
read_name-ifname_example = read_name-ifname wg0 (omega arith) (omega arith)

-- The FNV-1a test vector of "a".
fnv_a : (hashing_write (str "a") new_hashing_builder).hasher ≡ 0xe40c292c
unfolding hashing_write str
fnv_a = refl

no_endpoints : lookup (service_key dns) (endpoint_map (web_endpoints ∷ [])) ≡ none
unfolding endpoint_map lookup insert service_key endpoints_key text_eq str
no_endpoints = refl

web_found : HasEndpoints (endpoint_map (web_endpoints ∷ [])) (web ∷ [])
unfolding endpoint_map lookup insert service_key endpoints_key text_eq str
web_found = (λ _ e. cc, tt)

ruleset_of-IsClosed_example :
    IsClosed [] (ruleset_of plain pet (endpoint_map (web_endpoints ∷ [])) (web ∷ []))
ruleset_of-IsClosed_example =
    ruleset_of-IsClosed plain (endpoint_map (web_endpoints ∷ [])) pet (web ∷ []) web_found

own_uid : OwnUid plain (endpoint_map (web_endpoints ∷ [])) dns (web ∷ dns ∷ [])
unfolding str
own_uid = (λ _ e. ground arith, (λ found _. found no_endpoints, tt))

has_cluster_ip-dns : has_cluster_ip dns ≡ true
unfolding has_cluster_ip is_external is_headless text_eq str
has_cluster_ip-dns = refl

ruleset_of-not-IsClosed_example :
    ¬ IsClosed [] (ruleset_of plain pet (endpoint_map (web_endpoints ∷ [])) (web ∷ dns ∷ []))
ruleset_of-not-IsClosed_example =
    ruleset_of-not-IsClosed plain (endpoint_map (web_endpoints ∷ [])) dns pet (web ∷ dns ∷ [])
      (Memᴰ.tail (Memᴰ.head refl)) has_cluster_ip-dns own_uid

keys_differ : service_key web ≢ service_key dns
unfolding service_key str
keys_differ e = ground arith

separate_services : Separates service_key (web ∷ dns ∷ [])
separate_services a b (Memᴰ.head e) (Memᴰ.head f) k = e ∙ sym f
separate_services a b (Memᴰ.head e) (Memᴰ.tail (Memᴰ.head f)) k =
    absurd (keys_differ (sym (ap service_key e) ∙ k ∙ ap service_key f))
separate_services a b (Memᴰ.tail (Memᴰ.head e)) (Memᴰ.head f) k =
    absurd (keys_differ (sym (ap service_key f) ∙ sym k ∙ ap service_key e))
separate_services a b (Memᴰ.tail (Memᴰ.head e)) (Memᴰ.tail (Memᴰ.head f)) k = e ∙ sym f
separate_services a b (Memᴰ.head e) (Memᴰ.tail (Memᴰ.tail m)) k = elim m [ ]
separate_services a b (Memᴰ.tail (Memᴰ.head e)) (Memᴰ.tail (Memᴰ.tail m)) k = elim m [ ]
separate_services a b (Memᴰ.tail (Memᴰ.tail m)) _ k = elim m [ ]

separate_endpoints : Separates endpoints_key (web_endpoints ∷ [])
separate_endpoints a b (Memᴰ.head e) (Memᴰ.head f) k = e ∙ sym f
separate_endpoints a b (Memᴰ.head e) (Memᴰ.tail m) k = elim m [ ]
separate_endpoints a b (Memᴰ.tail m) _ k = elim m [ ]

abbrev pet_controller : FirewallController
pet_controller = record { node = pet; latest_config_hash = [] }

sync-first_example :
    sync plain same_order
      (some (web_endpoints ∷ []))
      (some (web ∷ []))
      flushed
      (new_firewall_controller pet)
    ≡ some (
      record {
        node = pet;
        latest_config_hash =
            if keeps_hash flushed
            then config_hash (built plain same_order same_perm pet (web_endpoints ∷ []) (web ∷ []))
            else [];
      },
      some (built plain same_order same_perm pet (web_endpoints ∷ []) (web ∷ [])).conn,
    )
sync-first_example =
    sync-first plain same_order same_perm pet (web_endpoints ∷ []) (web ∷ []) flushed

flushed-keeps : keeps_hash flushed ≡ true
unfolding keeps_hash
flushed-keeps = refl

abbrev settled : FirewallController
settled = record pet_controller {
  latest_config_hash =
      config_hash (built plain same_order same_perm pet (web_endpoints ∷ []) (web ∷ dns ∷ []));
}

sync-settles_example :
    (sent : Option (List NftCall)) × (sync plain same_order
        (some (web_endpoints ∷ []))
        (some (web ∷ dns ∷ []))
        flushed
        pet_controller
      ≡ some (settled, sent))
    × (sync plain same_order (some (web_endpoints ∷ [])) (some (dns ∷ web ∷ [])) flushed settled
        ≡ some (settled, none))
sync-settles_example =
    sync-settles plain same_order same_perm (web_endpoints ∷ []) (web_endpoints ∷ [])
      (web ∷ dns ∷ []) (dns ∷ web ∷ []) flushed flushed pet_controller (Permᴰ.refl _)
      (Permᴰ.swap refl refl) separate_endpoints separate_services flushed-keeps

failed-loses : keeps_hash (failed (str "denied")) ≡ false
unfolding keeps_hash is_enobufs text_eq str
failed-loses = refl

abbrev first_sent : Option (List NftCall)
first_sent =
    (sync_with (built plain same_order same_perm pet (web_endpoints ∷ []) (web ∷ []))
      (failed (str "denied")) pet_controller).1

sync-retries_example :
    (sync plain same_order
        (some (web_endpoints ∷ []))
        (some (web ∷ []))
        (failed (str "denied"))
        pet_controller
      ≡ some (pet_controller, first_sent))
    × ((next : FirewallController) × (sync plain same_order
            (some (web_endpoints ∷ []))
            (some (web ∷ []))
            flushed
            pet_controller
          ≡ some (next, first_sent)))
sync-retries_example =
    sync-retries plain same_order same_perm (web_endpoints ∷ []) (web ∷ []) (failed (str "denied"))
      flushed pet_controller failed-loses

ruleset_of-perm_example :
    ruleset_of plain pet (endpoint_map (web_endpoints ∷ [])) (sort_services (web ∷ dns ∷ []))
    ≡ ruleset_of plain pet (endpoint_map (web_endpoints ∷ [])) (sort_services (dns ∷ web ∷ []))
ruleset_of-perm_example =
    ruleset_of-perm plain pet (Permᴰ.refl _) (Permᴰ.swap refl refl) separate_endpoints
      separate_services
