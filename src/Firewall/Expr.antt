-- ===== src/Firewall/Expr.antt =====
-- The expressions of github.com/google/nftables/expr that the rule builder uses, with the fields
-- that it sets.
use kube_pet_node.Prelude.{ℕ, List, Bool}
use kube_pet_node.Prelude.Text.{Text}

pub data MetaKey : Type 0 where
  l4proto oifname : MetaKey

pub data PayloadBase : Type 0 where
  network_header transport_header : PayloadBase

pub data VerdictKind : Type 0 where
  accept return jump goto : VerdictKind

pub data Expr : Type 0 where
  -- key, register
  meta : MetaKey → ℕ → Expr
  -- `CmpOpEq`: register, data
  cmp : ℕ → List ℕ → Expr
  -- base, offset, length, destination register
  payload : PayloadBase → ℕ → ℕ → ℕ → Expr
  counter : Expr
  -- type, code
  reject : ℕ → ℕ → Expr
  -- kind, chain
  verdict : VerdictKind → Text → Expr
  -- register, data
  immediate : ℕ → List ℕ → Expr
  -- destination NAT: registers of the address range, then of the port range; the Boolean says
  -- whether `Family` is set
  nat : ℕ → ℕ → ℕ → ℕ → Bool → Expr
  -- source register, destination register, length, mask, xor
  bitwise : ℕ → ℕ → ℕ → List ℕ → List ℕ → Expr
  masq : Expr
