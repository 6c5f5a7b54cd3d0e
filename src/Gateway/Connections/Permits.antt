-- ===== src/Gateway/Connections/Permits.antt =====
-- services/crates/gateway/src/main.rs: what the semaphore of connections limits.
use oj_monorepo.Base.{
  ℕ, zero, suc, ◌+◌, ◌≡◌, ◌∙◌, ◌<◌, refl, sym, ap, subst, arith, List, [], ◌∷◌, replicate,
}
use oj_monorepo.Gateway.Connections.{
  Phase, Server, Event, listening, try_acquire, drop_permit, spawn_handler, spawn_refusal,
  accept_connection, on_accepting, on_draining, on_phase, advance, advance_all,
}

-- All permits are free, and nobody is being refused.
abbrev pub IsUnlimited : ℕ → Server → Type 0
IsUnlimited max_connections s = (s.permits ≡ max_connections) × (s.refusing ≡ 0)

accept_connection-IsUnlimited :
    (m : ℕ) (s : Server)
    → 0 < m
    → IsUnlimited m s
    → IsUnlimited m (accept_connection s)
      × ((accept_connection s).serving ≡ suc s.serving)
      × ((accept_connection s).phase ≡ s.phase)
unfolding accept_connection try_acquire drop_permit spawn_handler spawn_refusal
accept_connection-IsUnlimited m s p h = ground arith

phase-IsUnlimited :
    (m : ℕ) (p : Phase) (e : Event) (s : Server)
    → 0 < m
    → IsUnlimited m s
    → IsUnlimited m (on_phase p e s)
unfolding on_phase on_accepting on_draining
phase-IsUnlimited m Phase.accepting Event.accepted s p h = (accept_connection-IsUnlimited m s p h).0
phase-IsUnlimited m Phase.accepting (Event.accept_failed x) s p h = h
phase-IsUnlimited m Phase.accepting Event.served s p h = h
phase-IsUnlimited m Phase.accepting Event.refused s p h = omega (arith, h.0, h.1)
phase-IsUnlimited m Phase.accepting Event.interrupted s p h = h
phase-IsUnlimited m Phase.accepting Event.drained s p h = h
phase-IsUnlimited m Phase.accepting Event.drain_timed_out s p h = h
phase-IsUnlimited m Phase.draining Event.accepted s p h = h
phase-IsUnlimited m Phase.draining (Event.accept_failed x) s p h = h
phase-IsUnlimited m Phase.draining Event.served s p h = h
phase-IsUnlimited m Phase.draining Event.refused s p h = omega (arith, h.0, h.1)
phase-IsUnlimited m Phase.draining Event.interrupted s p h = h
phase-IsUnlimited m Phase.draining Event.drained s p h = h
phase-IsUnlimited m Phase.draining Event.drain_timed_out s p h = h
phase-IsUnlimited m (Phase.failed x) e s p h = h
phase-IsUnlimited m Phase.finished e s p h = h

advance_all-IsUnlimited :
    (m : ℕ) (es : List Event) (s : Server)
    → 0 < m
    → IsUnlimited m s
    → IsUnlimited m (advance_all es s)
unfolding advance_all advance
advance_all-IsUnlimited m [] s p h = h
advance_all-IsUnlimited m (e ∷ es) s p h =
    advance_all-IsUnlimited m es (advance e s) p (phase-IsUnlimited m s.phase e s p h)

advance-accepted :
    (s : Server) → s.phase ≡ Phase.accepting → advance Event.accepted s ≡ accept_connection s
unfolding advance on_phase on_accepting
advance-accepted s q = subst (λ p. on_phase p Event.accepted s ≡ accept_connection s) (sym q) refl

advance_all-accepted :
    (m n : ℕ) (s : Server)
    → 0 < m
    → IsUnlimited m s
    → s.phase ≡ Phase.accepting
    → (advance_all (replicate n Event.accepted) s).serving ≡ n + s.serving
unfolding advance_all
advance_all-accepted m zero s p h q = omega arith
advance_all-accepted m (suc n) s p h q =
    let (u, one, same) = accept_connection-IsUnlimited m s p h in
    ap (λ t. (advance_all (replicate n Event.accepted) t).serving) (advance-accepted s q)
    ∙ omega (arith, advance_all-accepted m n (accept_connection s) p u (same ∙ q), one)

-- The limit on connections limits nothing, unless it is zero: whatever connections come and end, and
-- whenever the server is interrupted, all permits are free and nobody is refused; and of any number of
-- connections that come, be it larger than the limit, all are served at once.
pub limit_not_enforced :
    (max_connections : ℕ) (es : List Event) (n : ℕ)
    → 0 < max_connections
    → IsUnlimited max_connections (advance_all es (listening max_connections))
      × ((advance_all (replicate n Event.accepted) (listening max_connections)).serving ≡ n)
unfolding listening
limit_not_enforced m es n p = (
  advance_all-IsUnlimited m es (listening m) p (refl, refl),
  omega (arith, advance_all-accepted m n (listening m) p (refl, refl) refl),
)
