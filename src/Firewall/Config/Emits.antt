-- ===== src/Firewall/Config/Emits.antt =====
-- What a step of `BuildConfig` adds to the writer, as rules of the open chain or as whole chains,
-- with one lemma for each way to put steps together.
use kube_pet_node.Prelude.{
  ℕ, List, [], ◌∷◌, ◌++◌, Option, none, some, ◌≡◌, refl, ap, ◌∙◌, map, flat_map, drop, append_assoc,
  append-nil, flat_map-append,
}
use mathlib.Core.List.{map-append}
use kube_pet_node.Prelude.Text.{Text, str}
use kube_pet_node.Prelude.Assoc.{Assoc}
use kube_pet_node.Firewall.Platform.{Platform}
use kube_pet_node.Firewall.Rule.{Builder, new_rule_builder, string}
use kube_pet_node.Firewall.Nft.{Table, Chain, NftCall}
use kube_pet_node.Firewall.Writer
use kube_pet_node.Firewall.Writer.{chain_header, add_rule-some, add_rule_with_comment-some}
use kube_pet_node.Firewall.Writer.Comment.{make_rule_comment}
use kube_pet_node.Firewall.Ruleset.{RuleEntry, Block, rule_of}
use kube_pet_node.Firewall.Config.Actions.{
  Work, Action, ◌>>◌, skip, for_each, on_nft, on_rule, on_pods, add_rule, add_rule_with_comment,
  store_rule,
}

-- The state with an open table, inside a chain or between chains; the builder is empty.
abbrev pub inside : List NftCall → Text → Table → Chain → Assoc Text → Work
inside k x t c pods = record {
  nft = record { conn = k; text = x; table = some t; chain = some c };
  rule = new_rule_builder;
  pods = pods;
}

abbrev pub between : List NftCall → Text → Table → Assoc Text → Work
between k x t pods = record {
  nft = record { conn = k; text = x; table = some t; chain = none };
  rule = new_rule_builder;
  pods = pods;
}

abbrev pub line_tail : Option Text → Text
line_tail none = str "\n"
line_tail (some comment) = str " comment \"" ++ (comment ++ str "\"\n")

abbrev pub user_data : Option Text → List ℕ
user_data none = []
user_data (some comment) = make_rule_comment comment

-- A rule as a call on the connection, and as a line of text.
unfoldable pub rule_call : Table → Chain → RuleEntry → NftCall
rule_call t c r = NftCall.add_rule (some t) (some c) r.exprs (user_data r.comment)

unfoldable pub rule_text : RuleEntry → Text
rule_text r = str "    " ++ (r.line ++ line_tail r.comment)

module _ (p : Platform) (t : Table) where
  abbrev placed : Block → Chain
  placed b = record (b.chain) { table = some t }

  unfoldable pub block_calls : Block → List NftCall
  block_calls b = NftCall.add_chain (placed b) ∷ map (rule_call t (placed b)) b.rules

  unfoldable pub block_text : Block → Text
  block_text b = chain_header p (placed b) ++ (flat_map rule_text b.rules ++ str "  }\n")

-- The step adds the rules to the open chain.
pub record EmitsRules (pods : Assoc Text) (m : Action) (rs : List RuleEntry) : Type 0 where
  pub at :
      (k : List NftCall) (x : Text) (t : Table) (c : Chain)
      → m (inside k x t c pods)
        ≡ some (inside (k ++ map (rule_call t c) rs) (x ++ flat_map rule_text rs) t c pods)

-- The step adds the chains to the table, and takes the noted pods from the first to the second.
pub record EmitsBlocks (p : Platform) (pods pods' : Assoc Text) (m : Action) (bs : List Block)
    : Type 0 where
  pub at :
      (k : List NftCall) (x : Text) (t : Table)
      → m (between k x t pods)
        ≡ some (
            between
              (k ++ flat_map (block_calls p t) bs)
              (x ++ flat_map (block_text p t) bs)
              t
              pods')

-- The step adds rules to the open chain, closes it, and adds further chains.
pub record Closes (p : Platform) (pods pods' : Assoc Text) (m : Action) (rs : List RuleEntry)
    (bs : List Block) : Type 0 where
  pub at :
      (k : List NftCall) (x : Text) (t : Table) (c : Chain)
      → m (inside k x t c pods)
        ≡ some (
            between
              (k ++ (map (rule_call t c) rs ++ flat_map (block_calls p t) bs))
              (x ++ (flat_map rule_text rs ++ (str "  }\n" ++ flat_map (block_text p t) bs)))
              t
              pods')

-- The steps leave text in the builder, so that the rule can be written.
abbrev pub Fits : Builder → Type 0
Fits f = string (f new_rule_builder) ≡ some (drop 1 (f new_rule_builder).text)

pub >>-some : (m n : Action) (w : Work) {w' : Work} → m w ≡ some w' → (m >> n) w ≡ n w'
>>-some m n w e = ap (λ o. elim o [ none ↦ none | some v ↦ n v ]) e

inside_eq :
    {k k' : List NftCall} {x x' : Text} (t : Table) (c : Chain) (pods : Assoc Text)
    → k ≡ k'
    → x ≡ x'
    → some (inside k x t c pods) ≡ some (inside k' x' t c pods)
inside_eq t c pods e f = cc

between_eq :
    {k k' : List NftCall} {x x' : Text} (t : Table) (pods : Assoc Text)
    → k ≡ k'
    → x ≡ x'
    → some (between k x t pods) ≡ some (between k' x' t pods)
between_eq t pods e f = cc

ruleset list_laws = (append_assoc, append-nil, map-append, flat_map-append)

pub EmitsRules-skip : (pods : Assoc Text) → EmitsRules pods skip []
EmitsRules-skip pods = record { at = λ k x t c. simp append-nil }

pub EmitsRules-rule :
    (pods : Assoc Text) (f : Builder) (comment : Text)
    → Fits f
    → EmitsRules pods (on_rule f >> add_rule_with_comment comment) (rule_of f (some comment) ∷ [])
unfolding add_rule_with_comment rule_call rule_text
EmitsRules-rule pods f comment fits = record {
  at = λ k x t c.
      ap (store_rule (inside k x t c pods))
        (add_rule_with_comment-some (f new_rule_builder) _ fits comment)
      ∙ inside_eq t c pods refl (simp append-nil);
}

pub EmitsRules-bare :
    (pods : Assoc Text) (f : Builder)
    → Fits f
    → EmitsRules pods (on_rule f >> add_rule) (rule_of f none ∷ [])
unfolding add_rule rule_call rule_text
EmitsRules-bare pods f fits = record {
  at = λ k x t c.
      ap (store_rule (inside k x t c pods)) (add_rule-some (f new_rule_builder) _ fits)
      ∙ inside_eq t c pods refl (simp append-nil);
}

pub EmitsRules-seq :
    (pods : Assoc Text) (m n : Action) (rs ss : List RuleEntry)
    → EmitsRules pods m rs
    → EmitsRules pods n ss
    → EmitsRules pods (m >> n) (rs ++ ss)
EmitsRules-seq pods m n rs ss hm hn = record {
  at = λ k x t c.
      >>-some m n _ (hm.at k x t c)
      ∙ hn.at _ _ t c
      ∙ inside_eq t c pods (simp list_laws) (simp list_laws);
}

pub EmitsRules-for {ℓ} :
    {A : Type ℓ} (pods : Assoc Text) (f : A → Action) (g : A → List RuleEntry)
    → ((a : A) → EmitsRules pods (f a) (g a))
    → (xs : List A) → EmitsRules pods (for_each f xs) (flat_map g xs)
unfolding for_each
EmitsRules-for pods f g h [] = EmitsRules-skip pods
EmitsRules-for pods f g h (x ∷ xs) =
    EmitsRules-seq pods (f x) (for_each f xs) (g x) (flat_map g xs) (h x)
      (EmitsRules-for pods f g h xs)

pub Closes-seq_last :
    (p : Platform) (pods : Assoc Text) (m : Action) (rs : List RuleEntry)
    → EmitsRules pods m rs
    → Closes p pods pods (m >> on_nft Writer.end_chain) rs []
unfolding Writer.end_chain
Closes-seq_last p pods m rs h = record {
  at = λ k x t c.
      >>-some m (on_nft Writer.end_chain) _ (h.at k x t c)
      ∙ between_eq t pods (simp append-nil) (simp list_laws);
}

module _ (p : Platform) (pods pods' : Assoc Text) where
  pub Closes-seq_end :
      (m n : Action) (rs : List RuleEntry) (bs : List Block)
      → EmitsRules pods m rs
      → EmitsBlocks p pods pods' n bs
      → Closes p pods pods' (m >> (on_nft Writer.end_chain >> n)) rs bs
  unfolding Writer.end_chain
  Closes-seq_end m n rs bs hm hn = record {
    at = λ k x t c.
        >>-some m (on_nft Writer.end_chain >> n) _ (hm.at k x t c)
        ∙ hn.at _ _ t
        ∙ between_eq t pods' (simp append_assoc) (simp append_assoc);
  }

  pub Closes-seq :
      (m n : Action) (rs ss : List RuleEntry) (bs : List Block)
      → EmitsRules pods m rs
      → Closes p pods pods' n ss bs
      → Closes p pods pods' (m >> n) (rs ++ ss) bs
  Closes-seq m n rs ss bs hm hn = record {
    at = λ k x t c.
        >>-some m n _ (hm.at k x t c)
        ∙ hn.at _ _ t c
        ∙ between_eq t pods' (simp list_laws) (simp list_laws);
  }

  pub EmitsBlocks-chain :
      (c : Chain) (m : Action) (rs : List RuleEntry) (bs : List Block)
      → Closes p pods pods' m rs bs
      → EmitsBlocks p pods pods'
          (on_nft (Writer.start_chain p c) >> m)
          (record { chain = c; rules = rs } ∷ bs)
  unfolding Writer.start_chain block_calls block_text
  EmitsBlocks-chain c m rs bs h = record {
    at = λ k x t.
        h.at _ _ t (record c { table = some t })
        ∙ between_eq t pods' (simp append_assoc) (simp append_assoc);
  }

-- Noting pods writes nothing.
pub EmitsBlocks-on_pods :
    (p : Platform) (f : Assoc Text → Assoc Text) (pods pods' : Assoc Text) (m : Action)
    (bs : List Block)
    → EmitsBlocks p (f pods) pods' m bs
    → EmitsBlocks p pods pods' (on_pods f >> m) bs
EmitsBlocks-on_pods p f pods pods' m bs h = record { at = λ k x t. h.at k x t }

pub EmitsBlocks-skip : (p : Platform) (pods : Assoc Text) → EmitsBlocks p pods pods skip []
EmitsBlocks-skip p pods = record { at = λ k x t. simp append-nil }

pub EmitsBlocks-seq :
    (p : Platform) (pods pods' pods'' : Assoc Text) (m n : Action) (bs cs : List Block)
    → EmitsBlocks p pods pods' m bs
    → EmitsBlocks p pods' pods'' n cs
    → EmitsBlocks p pods pods'' (m >> n) (bs ++ cs)
EmitsBlocks-seq p pods pods' pods'' m n bs cs hm hn = record {
  at = λ k x t.
      >>-some m n _ (hm.at k x t)
      ∙ hn.at _ _ t
      ∙ between_eq t pods'' (simp list_laws) (simp list_laws);
}
