-- ===== src/Manager/Pool/Health.antt =====
-- The health of an agent after any series of heartbeats.
use oj_monorepo.Base.{ℕ, suc, ◌+◌, ◌≤◌, ◌<◌, ◌≡◌, ltb, List, [], ◌∷◌, true, u32_mod, length, arith}
use oj_monorepo.Manager.Pool.{AgentHandle}
use oj_monorepo.Manager.Pool.Upkeep.{Probe, probed}

-- The handle after the heartbeats of a list, the first one first.
unfoldable pub probed_all : ℕ → List Probe → AgentHandle → AgentHandle
probed_all threshold [] a = a
probed_all threshold (x ∷ xs) a = probed_all threshold xs (probed threshold x a)

-- How many heartbeats have failed since the last answer, or since the count `n`.
abbrev pub failures_since : ℕ → List Probe → ℕ
failures_since n [] = n
failures_since n (Probe.answered ∷ xs) = failures_since 0 xs
failures_since n (Probe.failed ∷ xs) = failures_since (suc n) xs
failures_since n (Probe.timed_out ∷ xs) = failures_since (suc n) xs

record Counted (threshold : ℕ) (n : ℕ) (a : AgentHandle) : Type 0 where
  count : a.consecutive_failures ≡ n
  health : a.healthy ≡ ltb n threshold

probed-Counted :
    (threshold n : ℕ) (x : Probe) (a : AgentHandle)
    → 0 < threshold
    → suc n < u32_mod
    → Counted threshold n a
    → Counted threshold (failures_since n (x ∷ [])) (probed threshold x a)
unfolding probed
probed-Counted threshold n Probe.answered a pos small c = ground arith
probed-Counted threshold n Probe.failed a pos small c = ground arith
probed-Counted threshold n Probe.timed_out a pos small c = ground arith

failures_since-le : (n : ℕ) (xs : List Probe) → failures_since n xs ≤ n + length xs
failures_since-le n [] = omega arith
failures_since-le n (Probe.answered ∷ xs) = omega (arith, failures_since-le 0 xs)
failures_since-le n (Probe.failed ∷ xs) = omega (arith, failures_since-le (suc n) xs)
failures_since-le n (Probe.timed_out ∷ xs) = omega (arith, failures_since-le (suc n) xs)

probed_all-Counted :
    (threshold n : ℕ) (xs : List Probe) (a : AgentHandle)
    → 0 < threshold
    → n + length xs < u32_mod
    → Counted threshold n a
    → Counted threshold (failures_since n xs) (probed_all threshold xs a)
unfolding probed_all
probed_all-Counted threshold n [] a pos small c = c
probed_all-Counted threshold n (Probe.answered ∷ xs) a pos small c =
    probed_all-Counted threshold 0 xs _ pos (omega arith)
      (probed-Counted threshold n Probe.answered a pos (omega arith) c)
probed_all-Counted threshold n (Probe.failed ∷ xs) a pos small c =
    probed_all-Counted threshold (suc n) xs _ pos (omega arith)
      (probed-Counted threshold n Probe.failed a pos (omega arith) c)
probed_all-Counted threshold n (Probe.timed_out ∷ xs) a pos small c =
    probed_all-Counted threshold (suc n) xs _ pos (omega arith)
      (probed-Counted threshold n Probe.timed_out a pos (omega arith) c)

-- With a positive `health_check_failure_threshold`, an agent that joined healthy with no failures
-- is healthy after any series of fewer than 2 ^ 32 heartbeats exactly if fewer than the threshold
-- have failed in a row since the last one that was answered; one answer makes it healthy again.
pub healthy_iff_few_failures :
    (threshold : ℕ) (xs : List Probe) (a : AgentHandle)
    → 0 < threshold
    → length xs < u32_mod
    → a.healthy ≡ true
    → a.consecutive_failures ≡ 0
    → (probed_all threshold xs a).healthy ≡ ltb (failures_since 0 xs) threshold
healthy_iff_few_failures threshold xs a pos small h z =
    (probed_all-Counted threshold 0 xs a pos (omega arith)
      (record { count = z; health = ground arith })).health
