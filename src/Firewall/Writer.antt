-- ===== src/Firewall/Writer.antt =====
-- controllers/firewall/nft-writer.go: the calls on the nftables connection, which queues them until
-- `Flush`, and beside them the text of the configuration.
pub mod Comment
use kube_pet_node.Prelude.{
  ℕ, List, [], ◌∷◌, ◌++◌, Option, none, some, ◌≡◌, Bool, true, false, if◌then◌else◌,
}
use kube_pet_node.Prelude.Text.{Text, str, text_eq}
use kube_pet_node.Firewall.Platform.{Priority, Platform}
use kube_pet_node.Firewall.Nft.{Table, Hooknum, Chain, NftCall}
use kube_pet_node.Firewall.Rule.{RuleBuilder, new_rule_builder, string, reset}
use Comment.{make_rule_comment}

pub record NftWriter : Type 0 where
  pub conn : List NftCall
  pub text : Text
  pub table : Option Table
  pub chain : Option Chain

abbrev pub new_nft_writer : NftWriter
new_nft_writer = record { conn = []; text = []; table = none; chain = none }

call : NftCall → NftWriter → NftWriter
call c nft = record nft { conn = nft.conn ++ c ∷ [] }

write : Text → NftWriter → NftWriter
write t nft = record nft { text = nft.text ++ t }

unfoldable pub end_chain : NftWriter → NftWriter
unfolding write
end_chain nft = elim nft.chain [
  | none ↦ nft
  | some c ↦ record (write (str "  }\n") nft) { chain = none }
]

unfoldable pub end_table : NftWriter → NftWriter
unfolding end_chain write
end_table nft = elim nft.table [
  | none ↦ nft
  | some t ↦ record (write (str "}\n") (end_chain nft)) { table = none }
]

unfoldable pub start_table_replacement : Text → NftWriter → NftWriter
unfolding end_table call write
start_table_replacement name nft =
    let table : Table = record { name = name } in
    let opened = record (end_table nft) { table = some table } in
    let added =
      write (str "table " ++ (str "ip" ++ (b' ' ∷ (name ++ str "\n"))))
        (call (NftCall.add_table table) opened) in
    let deleted =
      write (str "delete table " ++ (name ++ str "\n")) (call (NftCall.del_table table) added) in
    write (str "\ntable " ++ (str "ip" ++ (b' ' ∷ (name ++ str " {"))))
      (call (NftCall.add_table table) deleted)

-- An unset hook number is 0, which is that of prerouting.
hook_text : Option Hooknum → Text
hook_text none = str " hook prerouting"
hook_text (some Hooknum.pre_routing) = str " hook prerouting"
hook_text (some Hooknum.local_in) = str " hook input"
hook_text (some Hooknum.forward) = str " hook forward"
hook_text (some Hooknum.local_out) = str " hook output"
hook_text (some Hooknum.post_routing) = str " hook postrouting"
hook_text (some (Hooknum.other n)) = str " hook TODO!"

module _ (p : Platform) where
  priority_of : Option Priority → Text
  priority_of none = str "0"
  priority_of (some x) = p.priority_text x

  -- The lines that open a chain; a chain with a type is a base chain and names its hook.
  unfoldable pub chain_header : Chain → Text
  unfolding hook_text priority_of
  chain_header c =
      str "\n  chain "
      ++ (c.name
          ++ (str " {\n"
              ++ (if text_eq c.chain_type []
                  then []
                  else str "    type "
                    ++ (c.chain_type
                        ++ (hook_text c.hooknum
                            ++ (str " priority " ++ (priority_of c.priority ++ str ";\n")))))))

  -- Without a table nothing is written.
  unfoldable pub start_chain : Chain → NftWriter → NftWriter
  unfolding end_chain call write
  start_chain chain nft = elim nft.table [
    | none ↦ nft
    | some t ↦
        let placed = record chain { table = some t } in
        write (chain_header placed)
          (call (NftCall.add_chain placed) (record (end_chain nft) { chain = some placed }))
  ]

  unfoldable pub start_basic_chain : Text → NftWriter → NftWriter
  unfolding start_chain
  start_basic_chain name =
      start_chain
        (record { name = name; chain_type = []; hooknum = none; priority = none; table = none })

-- A rule with the text of its line; an empty builder makes `rule.String()` panic, and leaves no
-- result.
add_rule_line : Text → List ℕ → RuleBuilder → NftWriter → Option (NftWriter × RuleBuilder)
unfolding call write string reset
add_rule_line tail user_data rule nft = elim (string rule) [
  | none ↦ none
  | some line ↦ some (
    write (str "    " ++ (line ++ tail))
        (call (NftCall.add_rule nft.table nft.chain rule.exprs user_data) nft),
    reset rule,
  )
]

unfoldable pub add_rule : RuleBuilder → NftWriter → Option (NftWriter × RuleBuilder)
unfolding add_rule_line
add_rule rule nft = add_rule_line (str "\n") [] rule nft

unfoldable pub add_rule_with_comment :
    RuleBuilder → Text → NftWriter → Option (NftWriter × RuleBuilder)
unfolding add_rule_line
add_rule_with_comment rule comment nft =
    add_rule_line (str " comment \"" ++ (comment ++ str "\"\n")) (make_rule_comment comment) rule
      nft

module _ (rule : RuleBuilder) (nft : NftWriter) {line : Text} (fits : string rule ≡ some line) where
  pub add_rule-some :
      add_rule rule nft
      ≡ some (
        record nft {
          conn = nft.conn ++ NftCall.add_rule nft.table nft.chain rule.exprs [] ∷ [];
          text = nft.text ++ (str "    " ++ (line ++ str "\n"));
        },
        new_rule_builder,
      )
  unfolding add_rule
  add_rule-some = cc

  pub add_rule_with_comment-some :
      (comment : Text)
      → add_rule_with_comment rule comment nft
        ≡ some (
          record nft {
            conn =
                nft.conn
                ++ NftCall.add_rule nft.table nft.chain rule.exprs (make_rule_comment comment) ∷ [];
            text =
                nft.text
                ++ (str "    " ++ (line ++ (str " comment \"" ++ (comment ++ str "\"\n"))));
          },
          new_rule_builder,
        )
  unfolding add_rule_with_comment
  add_rule_with_comment-some comment = cc
