-- ===== src/Manager/Scaler/Cooldown.antt =====
-- The cooldown between two creations of agents.
use oj_monorepo.Base.{ℕ, ◌≤◌, ◌<◌, ◌≡◌, refl, ltb, Option-cases, arith, if_cases}
use oj_monorepo.Manager.Config.{ScalerConfig}
use oj_monorepo.Manager.Pool.{AgentPool}
use oj_monorepo.Shared.Wire.{PoolMetrics}
use oj_monorepo.Manager.Pool.Agents.{metrics, find_least_loaded_agent}
use oj_monorepo.Manager.Scaler.{
  Float, Scaler, Round, secs_since, act, tick, shut_one, scale_down, scale_down_decision,
  scale_up_decision, update,
}

module _ (float : Float) where
  open float use {F}

  -- What a round leaves of the moment of the last creation.
  abbrev pub Cooled : ScalerConfig F → ℕ → ℕ → Round float → Type 0
  Cooled config now before r =
      (0 < r.created
        → (config.scale_up_cooldown_secs ≤ secs_since now before) × (r.scaler.last_scale_up ≡ now))
      × (r.created ≡ 0 → r.scaler.last_scale_up ≡ before)

  shut_one-keeps :
      (config : ScalerConfig F) (now : ℕ) (s : Scaler F) (pool : AgentPool)
      → (shut_one float config now s pool).0.last_scale_up ≡ s.last_scale_up
  unfolding shut_one
  shut_one-keeps config now s pool = ground (arith, Option-cases (find_least_loaded_agent pool))

  scale_down-keeps :
      (config : ScalerConfig F) (now : ℕ) (m : PoolMetrics) (s : Scaler F) (pool : AgentPool)
      → (scale_down float config now m s pool).0.last_scale_up ≡ s.last_scale_up
  unfolding scale_down
  scale_down-keeps config now m s pool =
      let d = scale_down_decision float m config s.scale_down_confirm_counter in
      let s' = record s { scale_down_confirm_counter = d.1 } in
      if_cases (λ (out : Scaler F × AgentPool). out.0.last_scale_up ≡ s.last_scale_up) d.0
        (shut_one float config now s' pool) (s', pool) (λ e. shut_one-keeps config now s' pool)
        (λ e. refl)

  act-Cooled :
      (config : ScalerConfig F) (now : ℕ) (m : PoolMetrics) (need : ℕ) (s : Scaler F)
      (pool : AgentPool)
      → Cooled config now s.last_scale_up (act float config now m need s pool)
  unfolding act
  act-Cooled config now m need s pool =
      if_cases (Cooled config now s.last_scale_up) (ltb 0 need) _ _
        (λ e.
          if_cases (Cooled config now s.last_scale_up)
            (ltb (secs_since now s.last_scale_up) config.scale_up_cooldown_secs) _ _
            (λ k. ((λ p. absurd (omega (arith, p))), (λ _. refl)))
            (λ k. ((λ p. (ground arith, refl)), (λ z. absurd (ground arith)))))
        (λ e. ((λ p. absurd (omega (arith, p))), (λ _. scale_down-keeps config now m s pool)))

  -- A round of the autoscaler creates agents only when `scale_up_cooldown_secs` have passed since
  -- the last round that created any, and remembers its own instant then; a round that creates
  -- none leaves that memory as it is, whatever else it does.
  pub tick-Cooled :
      (config : ScalerConfig F) (now : ℕ) (s : Scaler F) (pool : AgentPool)
      → Cooled config now s.last_scale_up (tick float config now s pool)
  unfolding tick
  tick-Cooled config now s pool =
      let m = metrics pool in
      let v = update float s.velocity_tracker m.queue_size in
      act-Cooled config now m (scale_up_decision float m v.1 config)
        (record s { velocity_tracker = v.0 }) pool
