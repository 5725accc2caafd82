-- ===== src/Wireguard/Config.antt =====
-- pkg/wireguard/config.go: the configuration, printed and read. ini.v1 and net are parameters. An address
-- stands in its printed form.
pub mod Entry
use kube_pet_node.Prelude.{List, [], ◌∷◌, ◌++◌, flat_map, length, drop, ltb, if◌then◌else◌}
use kube_pet_node.Prelude.Text.{Text, str, text_eq, format_uint}
use kube_pet_node.Prelude.Int.{ℤ, pos, negsuc}
use kube_pet_node.Prelude.Result.{Result, ok, err}

pub record PeerConfig : Type 0 where
  pub comment : Text
  pub public_key : Text
  pub preshared_key : Text
  pub endpoint : Text
  pub persistent_keepalive : ℤ
  pub allowed_ips : List Text

pub record WgQuickConfig : Type 0 where
  pub comment : Text
  pub private_key : Text
  pub addresses : List Text
  pub listen_port : ℤ
  pub firewall_mark : ℤ
  pub peers : List PeerConfig

abbrev line : Text → Text → Text
line key value = key ++ (str " = " ++ (value ++ 10 ∷ []))

-- An empty value is left out.
abbrev text_line : Text → Text → Text
text_line key value = if text_eq value [] then [] else line key value

abbrev number_line : Text → ℤ → Text
number_line key (pos n) = line key (format_uint n)
number_line key (negsuc n) = []

abbrev header : Text → Text → Text
header section comment =
    section ++ ((if text_eq comment [] then [] else str " # " ++ comment) ++ 10 ∷ [])

peer_text : PeerConfig → Text
peer_text peer =
    10
    ∷ (header (str "[Peer]") peer.comment
        ++ (text_line (str "PublicKey") peer.public_key
            ++ (text_line (str "PresharedKey") peer.preshared_key
                ++ (flat_map (line (str "AllowedIPs")) peer.allowed_ips
                    ++ (text_line (str "Endpoint") peer.endpoint
                        ++ number_line (str "PersistentKeepalive") peer.persistent_keepalive)))))

unfoldable pub stringify : WgQuickConfig → Text
unfolding peer_text
stringify cfg =
    header (str "[Interface]") cfg.comment
    ++ (text_line (str "PrivateKey") cfg.private_key
        ++ (flat_map (line (str "Address")) cfg.addresses
            ++ (number_line (str "ListenPort") cfg.listen_port
                ++ (number_line (str "FirewallMark") cfg.firewall_mark
                    ++ flat_map peer_text cfg.peers))))

-- A section that ini.v1 has loaded: its comment, and what the key of a name gives.
pub record Section : Type 0 where
  pub comment : Text
  pub value : Text → Text
  pub values : Text → List Text
  -- `MustInt(-1)`
  pub must_int : Text → ℤ

pub record IniFile : Type 0 where
  pub interface_section : Section
  pub peer_sections : List Section

-- net.ParseCIDR gives the network, printed again: the host's bits of the address are gone.
pub record Library : Type 0 where
  pub load : Text → Result IniFile
  pub network_of : Text → Result Text

abbrev comment_of : Text → Text
comment_of comment = if ltb 2 (length comment) then drop 2 comment else []

module _ (lib : Library) where
  cons_network : Result Text → Result (List Text) → Result (List Text)
  cons_network (err e) rest = err e
  cons_network (ok net) (err e) = err e
  cons_network (ok net) (ok nets) = ok (net ∷ nets)

  -- A value of less than two bytes is passed over.
  unfoldable pub parse_network_list : List Text → Result (List Text)
  unfolding cons_network
  parse_network_list [] = ok []
  parse_network_list (value ∷ values) =
      let rest = parse_network_list values in
      if ltb (length value) 2 then rest else cons_network (lib.network_of value) rest

  peer_with : Section → Result (List Text) → Result PeerConfig
  peer_with s (err e) = err e
  peer_with s (ok nets) = ok (record {
    comment = comment_of s.comment;
    public_key = s.value (str "PublicKey");
    preshared_key = s.value (str "PresharedKey");
    endpoint = s.value (str "Endpoint");
    persistent_keepalive = s.must_int (str "PersistentKeepalive");
    allowed_ips = nets;
  })

  cons_peer : Result PeerConfig → Result (List PeerConfig) → Result (List PeerConfig)
  cons_peer (err e) rest = err e
  cons_peer (ok peer) (err e) = err e
  cons_peer (ok peer) (ok peers) = ok (peer ∷ peers)

  parse_peers : List Section → Result (List PeerConfig)
  unfolding parse_network_list peer_with cons_peer
  parse_peers [] = ok []
  parse_peers (s ∷ sections) =
      cons_peer (peer_with s (parse_network_list (s.values (str "AllowedIPs"))))
        (parse_peers sections)

  config_with : Section → Result (List Text) → Result (List PeerConfig) → Result WgQuickConfig
  config_with s (err e) peers = err e
  config_with s (ok nets) (err e) = err e
  config_with s (ok nets) (ok peers) = ok (record {
    comment = comment_of s.comment;
    private_key = s.value (str "PrivateKey");
    addresses = nets;
    listen_port = s.must_int (str "ListenPort");
    firewall_mark = s.must_int (str "FirewallMark");
    peers = peers;
  })

  parse_loaded : Result IniFile → Result WgQuickConfig
  unfolding parse_network_list parse_peers config_with
  parse_loaded (err e) = err e
  parse_loaded (ok file) =
      config_with file.interface_section
        (parse_network_list (file.interface_section.values (str "Address")))
        (parse_peers file.peer_sections)

  unfoldable pub parse_wg_quick_config : Text → Result WgQuickConfig
  unfolding parse_loaded
  parse_wg_quick_config data_text = parse_loaded (lib.load data_text)
