-- ===== src/Manager/Scaler/Decisions.antt =====
-- What the two decisions of the autoscaler promise.
use oj_monorepo.Base.{
  ℕ, zero, suc, ◌+◌, ◌-◌, ◌*◌, ◌/◌, ◌%◌, ◌≤◌, ◌<◌, ◌≡◌, refl, min, leb, ◌==◌, ◌⊎◌, inl, inr, Bool,
  true, false, if◌then◌else◌, u32_mod, arith, if_cases, List, [], ◌∷◌,
}
use oj_monorepo.Manager.Config.{ScalerConfig}
use oj_monorepo.Shared.Wire.{PoolMetrics}
use oj_monorepo.Manager.Scaler.{
  Float, div_ceil, needed_capacity, scale_up_by, confirm, scale_down_decision, is_low,
}

mul_le_mono : (n q b : ℕ) → n ≤ q → n * b ≤ q * b
mul_le_mono n q zero h = omega arith
mul_le_mono n q (suc b) h = grind (arith, mul_le_mono n q b h)

div_ceil-enough : (a b : ℕ) → 0 < b → a ≤ div_ceil a b * b
div_ceil-enough a b h = grind arith

-- No fewer than `div_ceil a b` shares of size `b` hold `a`.
div_ceil-least : (a b n : ℕ) → 0 < b → n < div_ceil a b → n * b < a
div_ceil-least a b n h k =
    elim (if_cases (λ (q : ℕ). n < q → (suc n ≤ a / b) ⊎ ((n ≤ a / b) × (0 < a % b))) (0 == a % b)
      (a / b) (a / b + 1) (λ e l. inl (omega (arith, l))) (λ e l. inr (ground arith, ground arith))
      k) [
        | inl l ↦ grind (arith, mul_le_mono (suc n) (a / b) b l)
        | inr l ↦ grind (arith, mul_le_mono n (a / b) b l.0)
      ]

-- The same, of the agents that an answer brings the pool to.
clamp-enough :
    (n d batch most : ℕ)
    → min (min (d - n) batch) (most - n) < batch
    → n + min (min (d - n) batch) (most - n) < most
    → d ≤ n + min (min (d - n) batch) (most - n)
clamp-enough n d batch most h k = ground arith

clamp-least :
    (n d batch most : ℕ)
    → 0 < min (min (d - n) batch) (most - n)
    → n + (min (min (d - n) batch) (most - n) - 1) < d
clamp-least n d batch most h = ground arith

clamp-most :
    (n d batch most : ℕ)
    → 0 < min (min (d - n) batch) (most - n)
    → n + min (min (d - n) batch) (most - n) ≤ most
clamp-most n d batch most h = ground arith

clamp-batch : (n d batch most : ℕ) → min (min (d - n) batch) (most - n) ≤ batch
clamp-batch n d batch most = ground arith

capacity-enough :
    (n cap c batch most : ℕ)
    → 0 < c
    → min (min (div_ceil cap c - n) batch) (most - n) < batch
    → n + min (min (div_ceil cap c - n) batch) (most - n) < most
    → cap ≤ (n + min (min (div_ceil cap c - n) batch) (most - n)) * c
capacity-enough n cap c batch most h k l = omega (
  arith,
  div_ceil-enough cap c h,
  mul_le_mono (div_ceil cap c) (n + min (min (div_ceil cap c - n) batch) (most - n)) c
      (clamp-enough n (div_ceil cap c) batch most k l),
)

capacity-least :
    (n cap c batch most : ℕ)
    → 0 < c
    → 0 < min (min (div_ceil cap c - n) batch) (most - n)
    → (n + (min (min (div_ceil cap c - n) batch) (most - n) - 1)) * c < cap
capacity-least n cap c batch most h k =
    div_ceil-least cap c (n + (min (min (div_ceil cap c - n) batch) (most - n) - 1)) h
      (clamp-least n (div_ceil cap c) batch most k)

module _ (float : Float) where
  open float use {F}

  -- The four promises of an answer `need`, for a load `cap`.
  abbrev pub AnswersLoad : PoolMetrics → ℕ → ScalerConfig F → ℕ → Type 0
  AnswersLoad m cap config need =
      (need ≤ config.max_scale_up_batch)
      × (0 < need → m.agent_count + need ≤ config.max_agents)
      × (0 < config.max_concurrent_per_agent
          → need < config.max_scale_up_batch
          → m.agent_count + need < config.max_agents
          → cap ≤ (m.agent_count + need) * config.max_concurrent_per_agent)
      × (0 < need → (m.agent_count + (need - 1)) * config.max_concurrent_per_agent < cap)

  -- Scaling up never asks for more than `max_scale_up_batch` agents or for an agent past
  -- `max_agents`. Where neither limit cuts the answer and an
  -- agent takes one task or more, the agents there are with those asked for
  -- have the capacity for the load and the provision buffer; and one agent fewer than a positive answer
  -- would not have it.
  pub scale_up_by_lem :
      (m : PoolMetrics) (buffer : ℕ) (config : ScalerConfig F)
      → AnswersLoad m (needed_capacity float m buffer) config (scale_up_by float m buffer config)
  unfolding scale_up_by
  scale_up_by_lem m buffer config =
      let cap = needed_capacity float m buffer in
      let c = config.max_concurrent_per_agent in
      if_cases (λ (q : ℕ). AnswersLoad m cap config q) (c == 0) 0 _
        (λ e. (
          omega arith,
          (λ h. absurd (omega (arith, h))),
          (λ h k l. absurd (ground arith)),
          λ h. absurd (omega (arith, h)),
        ))
        (λ e. (
          clamp-batch m.agent_count (div_ceil cap c) config.max_scale_up_batch config.max_agents,
          clamp-most m.agent_count (div_ceil cap c) config.max_scale_up_batch config.max_agents,
          capacity-enough m.agent_count cap c config.max_scale_up_batch config.max_agents,
          capacity-least m.agent_count cap c config.max_scale_up_batch config.max_agents
              (ground arith),
        ))

  -- The counter and the last decision after a history of evaluations, the latest first.
  abbrev pub confirm_run : ScalerConfig F → List PoolMetrics → Bool × ℕ
  confirm_run config [] = (false, 0)
  confirm_run config (m ∷ ms) = scale_down_decision float m config (confirm_run config ms).1

  -- How many of the latest evaluations in a row found the pool little used.
  abbrev pub streak : ScalerConfig F → List PoolMetrics → ℕ
  streak config [] = 0
  streak config (m ∷ ms) = if is_low float m config then suc (streak config ms) else 0

  abbrev pub Confirmed : ScalerConfig F → ℕ → Bool × ℕ → Type 0
  Confirmed config n out =
      ((d : ℕ) × (d * config.scale_down_confirm_ticks + out.1 ≡ n))
      × (out.1 < config.scale_down_confirm_ticks)
      × (out.0 ≡ true → (config.scale_down_confirm_ticks ≤ n) × (out.1 ≡ 0))
      × (out.0 ≡ false → (0 < out.1) ⊎ (n ≡ 0))

  Confirmed-by :
      (config : ScalerConfig F) (n d counter : ℕ) (s : Bool)
      → config.scale_down_confirm_ticks < u32_mod
      → d * config.scale_down_confirm_ticks + counter ≡ n
      → counter < config.scale_down_confirm_ticks
      → leb config.scale_down_confirm_ticks ((counter + 1) % u32_mod) ≡ s
      → Confirmed config (suc n) (s, (if s then 0 else (counter + 1) % u32_mod))
  Confirmed-by config n d counter true b e h l =
      ((suc d, grind arith), ground arith, (λ _. (grind arith, refl)), (λ k. absurd (ground arith)))
  Confirmed-by config n d counter false b e h l =
      ((d, grind arith), grind arith, (λ k. absurd (ground arith)), (λ _. inl (grind arith)))

  confirm-low :
      (config : ScalerConfig F) (n d counter : ℕ)
      → config.scale_down_confirm_ticks < u32_mod
      → d * config.scale_down_confirm_ticks + counter ≡ n
      → counter < config.scale_down_confirm_ticks
      → Confirmed config (suc n) (confirm float true config counter)
  unfolding confirm
  confirm-low config n d counter b e h =
      Confirmed-by config n d counter
        (leb config.scale_down_confirm_ticks ((counter + 1) % u32_mod)) b e h refl

  step-Confirmed :
      (config : ScalerConfig F) (m : PoolMetrics) (n : ℕ) (out : Bool × ℕ)
      → config.scale_down_confirm_ticks < u32_mod
      → 0 < config.scale_down_confirm_ticks
      → Confirmed config n out
      → Confirmed config
          (if is_low float m config then suc n else 0)
          (scale_down_decision float m config out.1)
  unfolding scale_down_decision confirm
  step-Confirmed config m n out b p h = low-Confirmed (is_low float m config)
    where
      low-Confirmed :
          (low : Bool)
          → Confirmed config (if low then suc n else 0) (confirm float low config out.1)
      low-Confirmed true = confirm-low config n h.0.0 out.1 b h.0.1 h.1
      low-Confirmed false = ((0, omega arith), p, (λ k. absurd (ground arith)), (λ _. inr refl))

  -- Whatever the history of evaluations, the counter is the length of the present streak of low
  -- ones modulo `scale_down_confirm_ticks`, and the answer is to scale down exactly at each
  -- full multiple of it: so never before that many low evaluations in a row.
  pub confirm_run_lem :
      (config : ScalerConfig F) (ms : List PoolMetrics)
      → 0 < config.scale_down_confirm_ticks
      → config.scale_down_confirm_ticks < u32_mod
      → Confirmed config (streak config ms) (confirm_run config ms)
  unfolding scale_down_decision
  confirm_run_lem config [] h b =
      ((0, omega arith), h, (λ k. absurd (ground arith)), (λ _. inr refl))
  confirm_run_lem config (m ∷ ms) h b =
      step-Confirmed config m (streak config ms) (confirm_run config ms) b h
        (confirm_run_lem config ms h b)
