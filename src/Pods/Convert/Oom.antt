-- ===== src/Pods/Convert/Oom.antt =====
-- controllers/pods/converter.go: `GetContainerOOMScoreAdjust`, in int64 arithmetic.
use kube_pet_node.Prelude.{
  ℕ, ◌-◌, ◌*◌, ◌/◌, ◌^◌, ◌≤◌, ◌<◌, ◌≡◌, ap, arith, ltb, ◌==◌, if◌then◌else◌, Option, none, some,
  Bool, true, false, Bool-cases, inl, inr,
}
use kube_pet_node.Prelude.Text.{Text, str, text_eq}
use kube_pet_node.Prelude.Int.{
  ℤ, pos, negsuc, ltb_ℤ, eqb_ℤ, wrap_int64, wrap_int64_small, div_trunc, sub_int64,
}
use kube_pet_node.Pods.Kube.{Pod, Container}

abbrev pub guaranteed_oom_score_adj : ℤ
guaranteed_oom_score_adj = negsuc 997

abbrev pub besteffort_oom_score_adj : ℤ
besteffort_oom_score_adj = pos 1000

-- Not below 2, and not the score of the best-effort class.
unfoldable pub clamp_score : ℤ → ℤ
clamp_score score =
    if ltb_ℤ score (pos 2)
    then pos 2
    else if eqb_ℤ score besteffort_oom_score_adj
    then pos 999
    else score

-- The score of a burstable pod by its request and the memory of the machine. Division by a capacity
-- of 0 panics.
unfoldable pub burstable_score : ℕ → ℕ → Option ℤ
unfolding clamp_score
burstable_score memory_request memory_capacity =
    if memory_capacity == 0
    then none
    else some (
        clamp_score
          (sub_int64 1000 (div_trunc (wrap_int64 (1000 * memory_request)) memory_capacity)))

unfoldable pub is_critical : ℤ → Bool
is_critical (pos n) = if ltb n 2000000000 then false else true
is_critical (negsuc n) = false

-- By priority and class; a priority that is not set is a nil pointer, and panics.
unfoldable pub score_for : Option ℤ → Text → ℕ → ℕ → Option ℤ
score_for none qos_class memory_request memory_capacity = none
score_for (some priority) qos_class memory_request memory_capacity =
    if is_critical priority
    then some guaranteed_oom_score_adj
    else if text_eq qos_class (str "Guaranteed")
    then some guaranteed_oom_score_adj
    else if text_eq qos_class (str "BestEffort")
    then some besteffort_oom_score_adj
    else burstable_score memory_request memory_capacity

unfoldable pub get_container_oom_score_adjust : Pod → Container → ℕ → Option ℤ
unfolding score_for
get_container_oom_score_adjust pod container memory_capacity =
    score_for pod.spec.priority pod.status.qos_class container.resources.request_memory
      memory_capacity

-- The score by the thousandths of the memory that are asked for.
abbrev score_of : ℕ → ℕ
score_of q = if ltb 998 q then 2 else if q == 0 then 999 else 1000 - q

clamp-eq : (q : ℕ) → clamp_score (sub_int64 1000 (pos q)) ≡ pos (score_of q)
unfolding clamp_score sub_int64
clamp-eq q = ground arith

score_of_bounds :
    (q r : ℕ) → q ≤ r → (2 ≤ score_of r) × (score_of r ≤ score_of q) × (score_of q ≤ 999)
score_of_bounds q r h = ground arith

burstable-eq :
    (request capacity : ℕ)
    → 0 < capacity
    → 1000 * request < 2 ^ 63
    → burstable_score request capacity ≡ some (pos (score_of (1000 * request / capacity)))
burstable-eq request capacity h k = elim (Bool-cases (capacity == 0)) [
  | inl e ↦ absurd (let z : capacity ≡ 0 = ground arith in omega arith)
  | inr e ↦
      unfold burstable_score in
      rw e (
        rw (wrap_int64_small (1000 * request) k)
          (unfold div_trunc in ap some (clamp-eq (1000 * request / capacity))))
]

-- On a machine with memory, and while the product with 1000 does not overflow, a burstable pod gets a
-- score from 2 to 999, and one that asks for more memory gets no higher score.
pub burstable_score_bounds :
    (less more capacity : ℕ)
    → 0 < capacity
    → less ≤ more
    → 1000 * more < 2 ^ 63
    → (high low : ℕ) × (burstable_score less capacity ≡ some (pos high))
      × (burstable_score more capacity ≡ some (pos low))
      × (2 ≤ low)
      × (low ≤ high)
      × (high ≤ 999)
burstable_score_bounds less more capacity h k l =
    let q : ℕ = 1000 * less / capacity in
    let r : ℕ = 1000 * more / capacity in
    let ordered : q ≤ r = grind arith in
    let bounds = score_of_bounds q r ordered in
    (
      score_of q,
      score_of r,
      burstable-eq less capacity h (omega arith),
      burstable-eq more capacity h l,
      bounds.0,
      bounds.1,
      bounds.2,
    )
