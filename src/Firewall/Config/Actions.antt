-- ===== src/Firewall/Config/Actions.antt =====
-- The state that `BuildConfig` (controllers/firewall/firewall-rules.go) works on, and its steps. A
-- step gives no result where the code panics.
use kube_pet_node.Prelude.{List, [], ◌∷◌, Option, none, some}
use kube_pet_node.Prelude.Text.{Text}
use kube_pet_node.Prelude.Assoc.{Assoc}
use kube_pet_node.Firewall.Rule.{RuleBuilder, Builder}
use kube_pet_node.Firewall.Writer
use kube_pet_node.Firewall.Writer.{NftWriter}

-- The writer, the one rule builder that is used again and again, and `podIpsServingClusterIps`.
pub record Work : Type 0 where
  pub nft : NftWriter
  pub rule : RuleBuilder
  pub pods : Assoc Text

abbrev pub Action : Type 0
Action = Work → Option Work

infixl 5 ◌>>◌
abbrev pub ◌>>◌ : Action → Action → Action
◌>>◌ m n w = elim (m w) [ none ↦ none | some w' ↦ n w' ]

abbrev pub skip : Action
skip w = some w

-- A `for` loop over a list.
unfoldable pub for_each {ℓ} : {A : Type ℓ} → (A → Action) → List A → Action
for_each f [] = skip
for_each f (x ∷ xs) = f x >> for_each f xs

abbrev pub on_nft : (NftWriter → NftWriter) → Action
on_nft f w = some (record w { nft = f w.nft })

abbrev pub on_rule : Builder → Action
on_rule f w = some (record w { rule = f w.rule })

abbrev pub on_pods : (Assoc Text → Assoc Text) → Action
on_pods f w = some (record w { pods = f w.pods })

-- What `AddRule` and `AddRuleWithComment` leave in the writer and the builder.
abbrev pub store_rule : Work → Option (NftWriter × RuleBuilder) → Option Work
store_rule w none = none
store_rule w (some (nft, rule)) = some (record w { nft = nft; rule = rule })

unfoldable pub add_rule : Action
add_rule w = store_rule w (Writer.add_rule w.rule w.nft)

unfoldable pub add_rule_with_comment : Text → Action
add_rule_with_comment comment w = store_rule w (Writer.add_rule_with_comment w.rule comment w.nft)
