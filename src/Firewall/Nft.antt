-- ===== src/Firewall/Nft.antt =====
-- The tables, chains and calls of github.com/google/nftables that the writer uses, with the fields
-- that it sets.
use kube_pet_node.Prelude.{ℕ, List, Option}
use kube_pet_node.Prelude.Text.{Text}
use kube_pet_node.Firewall.Platform.{Priority}
use kube_pet_node.Firewall.Expr.{Expr}

-- The model's only family is nftables.TableFamilyIPv4.
pub record Table : Type 0 where
  pub name : Text

pub data Hooknum : Type 0 where
  pre_routing local_in forward local_out post_routing : Hooknum
  other : ℕ → Hooknum

-- nftables.Chain; a basic chain has no type, hook and priority. The writer sets the table.
pub record Chain : Type 0 where
  pub name : Text
  pub chain_type : Text
  pub hooknum : Option Hooknum
  pub priority : Option Priority
  pub table : Option Table

-- The calls on the nftables.Conn.
pub data NftCall : Type 0 where
  add_table del_table : Table → NftCall
  add_chain : Chain → NftCall
  -- table, chain, expressions, user data
  add_rule : Option Table → Option Chain → List Expr → List ℕ → NftCall
