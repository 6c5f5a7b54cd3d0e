-- ===== src/Manager/Pool/Settings.antt =====
-- No step of the pool changes its settings.
use oj_monorepo.Base.{◌≡◌, refl, List, [], ◌∷◌, ◌∙◌}
use oj_monorepo.Manager.Pool.{AgentPool}
use oj_monorepo.Manager.Pool.Tasks.{launch, release}
use oj_monorepo.Manager.Pool.Cases.{
  submit_begin_cases, enqueue_cases, submit_enqueue_cases, dispatch_cases, wake_signal_cases,
  wake_permit_cases, finish_cases, settle_result_cases, settle_cases, add_agent_cases,
  remove_agent_cases, shutdown_agent_cases, health_check_cases,
}
use oj_monorepo.Manager.Config.{PoolConfig}
use oj_monorepo.Manager.Pool.Upkeep.{
  drain_scan, drain_retain, shutdown_begin, shutdown_reject, shutdown_mark, shutdown_clear,
}
use oj_monorepo.Manager.Pool.Steps.{Event, step, run}

abbrev Keeps : PoolConfig → AgentPool → Type 0
Keeps config q = q.config ≡ config

pub step-config : (p : AgentPool) (e : Event) → (step p e).config ≡ p.config
unfolding step drain_scan drain_retain shutdown_begin shutdown_reject shutdown_mark shutdown_clear
    launch release
step-config p (Event.submits task) = submit_begin_cases (Keeps p.config) p task refl refl
step-config p (Event.enqueues i) =
    submit_enqueue_cases (Keeps p.config) p i refl
      λ t _. enqueue_cases (Keeps p.config) _ t refl (λ _. refl)
step-config p Event.dispatches =
    dispatch_cases (Keeps p.config) p refl (λ _. refl) (λ _. refl) (λ _ t rest h _ _. refl)
      (λ h t _. refl)
step-config p Event.wakes_by_signal = wake_signal_cases (Keeps p.config) p refl (λ n _ _. refl)
step-config p Event.wakes_by_permit = wake_permit_cases (Keeps p.config) p refl (λ _. refl)
step-config p (Event.finishes i connection sent receipt) =
    finish_cases (Keeps p.config) p i _ refl (λ r _. refl)
step-config p (Event.settles i) = settle_cases (Keeps p.config) p i refl λ f _.
    settle_result_cases (Keeps p.config) _ f.queued f.result (λ _. refl) (λ _. refl) (λ _. refl)
step-config p (Event.adds id socket_path now) =
    add_agent_cases (Keeps p.config) p id socket_path now refl (λ _. refl)
step-config p (Event.removes id) = remove_agent_cases (Keeps p.config) p id refl refl
step-config p (Event.shuts_agent id) = shutdown_agent_cases (Keeps p.config) p id refl (λ h. refl)
step-config p (Event.probes h probe) = health_check_cases (Keeps p.config) p h probe refl refl
step-config p Event.scans = refl
step-config p Event.retains = refl
step-config p Event.begins_shutdown = refl
step-config p Event.rejects = refl
step-config p Event.marks = refl
step-config p Event.clears = refl

pub run-config : (p : AgentPool) (es : List Event) → (run p es).config ≡ p.config
unfolding run
run-config p [] = refl
run-config p (e ∷ es) = run-config (step p e) es ∙ step-config p e
