-- ===== src/Pods/Convert/Cpu.antt =====
-- controllers/pods/converter.go: CPU requests as cgroup shares and CPU limits as a CFS quota, in
-- int64 arithmetic.
use kube_pet_node.Prelude.{
  ℕ, ◌*◌, ◌/◌, ◌^◌, ◌≤◌, ◌<◌, ◌≡◌, refl, arith, ltb, ◌==◌, if◌then◌else◌, Bool-cases, inl, inr,
}
use Prim.Native.Nat.{max}
use kube_pet_node.Prelude.Int.{ℤ, pos, negsuc, wrap_int64, wrap_int64_small, div_trunc}

abbrev pub min_shares : ℕ
min_shares = 2

abbrev pub shares_per_cpu : ℕ
shares_per_cpu = 1024

abbrev pub milli_cpu_to_cpu : ℕ
milli_cpu_to_cpu = 1000

abbrev pub cpu_period : ℕ
cpu_period = 100000

abbrev pub min_cpu_period : ℕ
min_cpu_period = 1000

-- An int64 that is raised to the least value.
abbrev at_least : ℕ → ℤ → ℕ
at_least least (pos n) = if ltb n least then least else n
at_least least (negsuc n) = least

unfoldable pub milli_cpu_to_shares : ℕ → ℕ
milli_cpu_to_shares milli_cpu =
    if milli_cpu == 0
    then min_shares
    else at_least min_shares (div_trunc (wrap_int64 (milli_cpu * shares_per_cpu)) milli_cpu_to_cpu)

unfoldable pub milli_cpu_to_quota : ℕ → ℕ → ℕ
milli_cpu_to_quota milli_cpu period =
    if milli_cpu == 0
    then 0
    else at_least min_cpu_period (div_trunc (wrap_int64 (milli_cpu * period)) milli_cpu_to_cpu)

at_least-max : (least n : ℕ) → at_least least (pos n) ≡ max least n
at_least-max least n = ground arith

shares-eq : (m : ℕ) → m * 1024 < 2 ^ 63 → milli_cpu_to_shares m ≡ max 2 (m * 1024 / 1000)
unfolding milli_cpu_to_shares div_trunc
shares-eq m h = elim (Bool-cases (m == 0)) [
  | inl zero ↦ rw zero (let e : m ≡ 0 = ground arith in rw e refl)
  | inr more ↦ rw more (rw (wrap_int64_small (m * 1024) h) (at_least-max 2 (m * 1024 / 1000)))
]

-- Up to the request that overflows, the shares are 1024 for each CPU, rounded down and at least 2,
-- and a larger request gets no fewer.
pub milli_cpu_to_shares_exact :
    (m n : ℕ)
    → m ≤ n
    → n * 1024 < 2 ^ 63
    → (milli_cpu_to_shares m ≡ max 2 (m * 1024 / 1000))
      × (milli_cpu_to_shares m ≤ milli_cpu_to_shares n)
milli_cpu_to_shares_exact m n h k =
    let small : m * 1024 < 2 ^ 63 = omega arith in
    (shares-eq m small, rw (shares-eq m small, shares-eq n k) (omega arith))

-- With the default period, up to the limit that overflows, the quota is a tenth of a millisecond for
-- each thousandth of a CPU, at least a millisecond; it is 0 for no limit.
pub milli_cpu_to_quota_exact :
    (m : ℕ)
    → m * 100000 < 2 ^ 63
    → milli_cpu_to_quota m cpu_period ≡ (if m == 0 then 0 else max 1000 (m * 100))
unfolding milli_cpu_to_quota div_trunc
milli_cpu_to_quota_exact m h = elim (Bool-cases (m == 0)) [
  | inl zero ↦ rw zero
  | inr more ↦ rw more (
      rw (wrap_int64_small (m * 100000) h) (
        let exact : m * 100000 / 1000 ≡ m * 100 = omega arith in
        rw exact (at_least-max 1000 (m * 100))))
]
