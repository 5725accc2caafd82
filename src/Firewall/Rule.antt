-- ===== src/Firewall/Rule.antt =====
-- controllers/firewall/rule-builder.go: a rule is built from expressions for the kernel and, beside
-- them, the text that the configuration hash is taken of. A method returns the changed builder.
use kube_pet_node.Prelude.{
  ℕ, ◌/◌, ◌%◌, List, [], ◌∷◌, ◌++◌, Option, none, some, true, take, length, replicate, ◌-◌,
}
use kube_pet_node.Prelude.Text.{Text, str, format_uint}
use kube_pet_node.Firewall.Platform.{Ip, IpNet, Platform}
use kube_pet_node.Firewall.Expr.{Expr, MetaKey, PayloadBase, VerdictKind}

pub record RuleBuilder : Type 0 where
  pub text : Text
  pub exprs : List Expr

abbrev pub new_rule_builder : RuleBuilder
new_rule_builder = record { text = []; exprs = [] }

abbrev pub Builder : Type 0
Builder = RuleBuilder → RuleBuilder

-- Every method appends expressions and text.
emit : List Expr → Text → Builder
emit es t rb = record { text = rb.text ++ t; exprs = rb.exprs ++ es }

string_of : Text → Option Text
string_of [] = none
string_of (c ∷ rest) = some rest

-- `rb.text.String()[1:]`; the slice of an empty text panics.
unfoldable pub string : RuleBuilder → Option Text
unfolding string_of
string rb = string_of rb.text

unfoldable pub reset : Builder
reset rb = record { text = []; exprs = [] }

-- binary.BigEndian.PutUint16
unfoldable pub parse_port_for_nft : ℕ → List ℕ
parse_port_for_nft port = port / 256 % 256 ∷ port % 256 ∷ []

-- make([]byte, 16), then `copy` of the name and a zero byte: what does not fit is cut off.
unfoldable pub ifname : Text → List ℕ
ifname n = let c = take 16 (n ++ 0 ∷ []) in c ++ replicate (16 - length c) 0

unfoldable pub is_l4_proto : ℕ → Text → Builder
unfolding emit
is_l4_proto id name = emit (Expr.meta MetaKey.l4proto 1 ∷ Expr.cmp 1 (id ∷ []) ∷ []) (b' ' ∷ name)

unfoldable pub is_dest_port : ℕ → Builder
unfolding emit
is_dest_port port =
    emit
      (Expr.payload PayloadBase.transport_header 2 2 1 ∷ Expr.cmp 1 (parse_port_for_nft port) ∷ [])
      (b' ' ∷ str "dport " ++ format_uint port)

unfoldable pub counter : Builder
unfolding emit
counter = emit (Expr.counter ∷ []) (b' ' ∷ str "counter")

unfoldable pub reject_as_host_unreachable : Builder
unfolding emit
reject_as_host_unreachable =
    emit (Expr.reject 0 1 ∷ []) (b' ' ∷ str "reject with icmp type host-unreachable")

unfoldable pub reject_as_port_unreachable : Builder
unfolding emit
reject_as_port_unreachable =
    emit (Expr.reject 0 3 ∷ []) (b' ' ∷ str "reject with icmp type port-unreachable")

unfoldable pub accept : Builder
unfolding emit
accept = emit (Expr.verdict VerdictKind.accept [] ∷ []) (b' ' ∷ str "accept")

unfoldable pub return : Builder
unfolding emit
return = emit (Expr.verdict VerdictKind.return [] ∷ []) (b' ' ∷ str "return")

unfoldable pub is_ip_protocol : ℕ → Text → Builder
unfolding emit
is_ip_protocol id name =
    emit (Expr.payload PayloadBase.network_header 9 1 1 ∷ Expr.cmp 1 (id ∷ []) ∷ [])
      (b' ' ∷ str "ip protocol " ++ name)

unfoldable pub is_ip_src_address : Ip → Builder
unfolding emit
is_ip_src_address ip =
    emit (Expr.payload PayloadBase.network_header 12 4 1 ∷ Expr.cmp 1 ip.to4 ∷ [])
      (b' ' ∷ str "ip saddr " ++ ip.string)

unfoldable pub is_ip_src_network : IpNet → Builder
unfolding emit
is_ip_src_network ip_net =
    emit
      (Expr.payload PayloadBase.network_header 12 4 1
        ∷ Expr.bitwise 1 1 4 ip_net.mask (0 ∷ 0 ∷ 0 ∷ 0 ∷ [])
        ∷ Expr.cmp 1 ip_net.ip.to4
        ∷ [])
      (b' ' ∷ str "ip saddr " ++ ip_net.string)

unfoldable pub out_iface_name : Text → Builder
unfolding emit
out_iface_name iface =
    emit (Expr.meta MetaKey.oifname 1 ∷ Expr.cmp 1 (ifname iface) ∷ [])
      (b' ' ∷ str "oifname \"" ++ (iface ++ str "\""))

unfoldable pub jump_to_chain : Text → Builder
unfolding emit
jump_to_chain chain = emit (Expr.verdict VerdictKind.jump chain ∷ []) (b' ' ∷ str "jump " ++ chain)

unfoldable pub go_to_chain : Text → Builder
unfolding emit
go_to_chain chain = emit (Expr.verdict VerdictKind.goto chain ∷ []) (b' ' ∷ str "goto " ++ chain)

unfoldable pub masquerade : Builder
unfolding emit
masquerade = emit (Expr.masq ∷ []) (b' ' ∷ str "masquerade")

module _ (p : Platform) where
  open p use {parse_ip, ipproto_icmp, ipproto_tcp, ipproto_udp, ipproto_sctp}

  unfoldable pub is_tcp : Builder
  is_tcp = is_l4_proto ipproto_tcp (str "tcp")

  unfoldable pub is_udp : Builder
  is_udp = is_l4_proto ipproto_udp (str "udp")

  unfoldable pub is_sctp : Builder
  is_sctp = is_l4_proto ipproto_sctp (str "sctp")

  unfoldable pub is_icmp : Builder
  is_icmp = is_ip_protocol ipproto_icmp (str "icmp")

  unfoldable pub parse_ip_for_nft : Text → List ℕ
  parse_ip_for_nft s = (parse_ip s).to4

  unfoldable pub translate_ipv4_address : Text → Builder
  unfolding emit
  translate_ipv4_address ip =
      emit (Expr.immediate 1 (parse_ip_for_nft ip) ∷ Expr.nat 1 0 0 0 true ∷ [])
        (b' ' ∷ str "dnat to " ++ ip)

  unfoldable pub translate_ipv4_destination : Text → ℕ → Builder
  unfolding emit
  translate_ipv4_destination ip port =
      emit
        (Expr.immediate 1 (parse_ip_for_nft ip)
          ∷ Expr.immediate 2 (parse_port_for_nft port)
          ∷ Expr.nat 1 0 2 0 true
          ∷ [])
        (b' ' ∷ str "dnat to " ++ (ip ++ (b':' ∷ format_uint port)))

  unfoldable pub is_ip_dest_address : Text → Builder
  unfolding emit
  is_ip_dest_address ip =
      emit (Expr.payload PayloadBase.network_header 16 4 1 ∷ Expr.cmp 1 (parse_ip_for_nft ip) ∷ [])
        (b' ' ∷ str "ip daddr " ++ ip)

  unfoldable pub is_ip_src_address_str : Text → Builder
  is_ip_src_address_str ip = is_ip_src_address (parse_ip ip)
