-- ===== src/Firewall/Writer/Comment.antt =====
-- controllers/firewall/nft-writer.go: the type-length-value record of a rule's comment.
use kube_pet_node.Prelude.{ℕ, ◌+◌, ◌%◌, List, [], ◌∷◌, ◌++◌, ltb, if◌then◌else◌, length, take}
use kube_pet_node.Prelude.Text.{Text}

abbrev pub max_comment_length : ℕ
max_comment_length = 127

-- The text that is kept of a comment.
unfoldable pub kept : Text → Text
kept s = if ltb max_comment_length (length s) then take max_comment_length s else s

-- Type 0, then the length with the zero at the end, then the text and that zero.
unfoldable pub make_rule_comment : Text → List ℕ
unfolding kept
make_rule_comment s = 0 ∷ (length (kept s) + 1) % 256 ∷ (kept s ++ 0 ∷ [])
