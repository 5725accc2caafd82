-- ===== src/Firewall/Bytes.antt =====
-- The byte strings that the firewall hands to the kernel: rule comments, ports, interface names
-- (controllers/firewall/nft-writer.go and rule-builder.go).
use kube_pet_node.Prelude.{
  ℕ, ◌+◌, ◌-◌, ◌*◌, ◌≤◌, ◌<◌, List, [], ◌∷◌, ◌++◌, Option, none, some, ◌≡◌, ◌≢◌, refl, sym, ap, ◌∙◌,
  arith, take, length, length-append, length-take, length-replicate, take_all, take-append,
  replicate, All, if◌then◌else◌, ltb, ◌==◌, append_assoc, Bool-cases, inl, inr, false, ◌%◌,
}
use Prim.Native.Nat.{min}
use kube_pet_node.Prelude.Text.{Text}
use kube_pet_node.Firewall.Rule.{parse_port_for_nft, ifname}
use kube_pet_node.Firewall.Writer.Comment.{kept, make_rule_comment}

-- The comment in a type-length-value record of type 0 whose value ends in a zero byte.
abbrev pub read_value : ℕ → List ℕ → Option Text
read_value n value = if n == length value then some (take (n - 1) value) else none

abbrev pub read_comment : List ℕ → Option Text
read_comment (t ∷ n ∷ value) = if t == 0 then read_value n value else none
read_comment _ = none

ltb-false : (a b : ℕ) → ltb a b ≡ false → b ≤ a
ltb-false a b h = ground arith

kept-eq : (s : Text) → kept s ≡ take 127 s
unfolding kept
kept-eq s = elim (Bool-cases (ltb 127 (length s))) [
  | inl long ↦ rw long
  | inr short ↦ rw short (sym (take_all 127 s (ltb-false 127 (length s) short)))
]

length-kept : (s : Text) → length (kept s) ≡ min 127 (length s)
length-kept s = rw (kept-eq s) (length-take 127 s)

small_length : (s : Text) → (length (kept s) + 1) % 256 ≡ length (kept s) + 1
small_length s = omega (arith, length-kept s)

read_value_kept : (s : Text) → read_value (length s + 1) (s ++ 0 ∷ []) ≡ some s
read_value_kept s =
    let same : length (s ++ 0 ∷ []) ≡ length s + 1 = omega (arith, length-append s (0 ∷ [])) in
    let less : length s + 1 - 1 ≡ length s = omega arith in
    rw (same, less) (rw (take-append s (0 ∷ [])) (ground arith))

-- Reading the record of any comment gives its first 127 bytes.
pub read_comment-make_rule_comment :
    (s : Text) → read_comment (make_rule_comment s) ≡ some (take 127 s)
unfolding make_rule_comment
read_comment-make_rule_comment s =
    rw (small_length s) (read_value_kept (kept s) ∙ ap some (kept-eq s))

-- The record is three bytes longer than the kept text, which has at most 127 bytes, and so has at
-- most 130.
pub make_rule_comment_size :
    (s : Text)
    → (length (make_rule_comment s) ≡ min 127 (length s) + 3) × (length (make_rule_comment s) ≤ 130)
unfolding make_rule_comment
make_rule_comment_size s = omega (arith, length-kept s, length-append (kept s) (0 ∷ []))

-- A port as the kernel reads the two bytes.
abbrev pub read_port : List ℕ → ℕ
read_port (hi ∷ lo ∷ []) = hi * 256 + lo
read_port _ = 0

-- The two bytes of a uint16 port read back as the port, the high byte first, and are bytes.
pub read_port-parse_port_for_nft :
    (port : ℕ)
    → port < 65536
    → (read_port (parse_port_for_nft port) ≡ port) × All (λ b. b < 256) (parse_port_for_nft port)
unfolding parse_port_for_nft
read_port-parse_port_for_nft port h = (omega arith, (omega arith, (omega arith, tt)))

-- The text before the first zero byte, as the kernel reads an interface name.
abbrev pub read_name : List ℕ → Text
read_name [] = []
read_name (c ∷ cs) = if c == 0 then [] else c ∷ read_name cs

read_name-append : (n rest : Text) → All (λ c. c ≢ 0) n → read_name (n ++ 0 ∷ rest) ≡ n
read_name-append [] rest h = refl
read_name-append (c ∷ n) rest (h, hs) = ground (arith, read_name-append n rest hs)

length-ifname : (n : Text) → length (ifname n) ≡ 16
unfolding ifname
length-ifname n =
    let c : List ℕ = take 16 (n ++ 0 ∷ []) in
    omega (
      arith,
      length-append c (replicate (16 - length c) 0),
      length-replicate {A = ℕ} (16 - length c) 0,
      length-take 16 (n ++ 0 ∷ []),
    )

-- The field of an interface name of at most 15 bytes, none of them zero, has 16 bytes and reads
-- back as the name.
pub read_name-ifname :
    (n : Text)
    → length n ≤ 15
    → All (λ c. c ≢ 0) n
    → (length (ifname n) ≡ 16) × (read_name (ifname n) ≡ n)
unfolding ifname
read_name-ifname n short nonzero =
    let fits : length (n ++ 0 ∷ []) ≤ 16 = omega (arith, length-append n (0 ∷ [])) in
    (
      unfold ifname in length-ifname n,
      rw (take_all 16 (n ++ 0 ∷ []) fits) (rw append_assoc (read_name-append n _ nonzero)),
    )
