-- ===== src/Agent/Cpp/Compiling.antt =====
-- When compiling succeeds.
use oj_monorepo.Base.{
  ◌≡◌, ◌≢◌, refl, ◌∙◌, ap, ◌↔◌, String, true, Result, ok, err, and_then, and_then-ok, and_then-of,
  if◌then◌else◌, if_cases,
}
use oj_monorepo.Agent.Verdict.{CompileResult}
use oj_monorepo.Agent.Cpp.{
  ExitStatus, is_success, Waited, Tool, failure_message, finished, waited_for, run_tool, compile,
}

-- A tool that has run to its end, with success.
abbrev pub HasSucceeded : Tool → Type 0
HasSucceeded tool =
    (tool.spawn ≡ ok tt)
    × ((s : ExitStatus) × (tool.waited ≡ Waited.ended (ok s)) × (is_success s ≡ true))

failure-refuses : (tool : Tool) → failure_message tool ≢ ok CompileResult.success
unfolding failure_message
failure-refuses tool h = let (m, e, f) = and_then-ok tool.stderr _ _ h in cc

finished-ok :
    (tool : Tool) (s : ExitStatus) (next : Result CompileResult String)
    → finished tool s next ≡ ok CompileResult.success
    → (is_success s ≡ true) × (next ≡ ok CompileResult.success)
unfolding finished
finished-ok tool s next h =
    if_cases
      (λ (r : Result CompileResult String).
        r ≡ ok CompileResult.success → (is_success s ≡ true) × (next ≡ ok CompileResult.success))
      (is_success s) next (failure_message tool) (λ e k. (e, k))
      (λ e k. absurd (failure-refuses tool k)) h

waited_for-ok :
    (tool : Tool) (w : Waited) (next : Result CompileResult String)
    → waited_for tool w next ≡ ok CompileResult.success
    → ((s : ExitStatus) × (w ≡ Waited.ended (ok s)) × (is_success s ≡ true))
      × (next ≡ ok CompileResult.success)
unfolding waited_for
waited_for-ok tool (Waited.ended (ok s)) next h =
    let (e, f) = finished-ok tool s next h in ((s, refl, e), f)
waited_for-ok tool (Waited.ended (err e)) next h = absurd (cc)
waited_for-ok tool (Waited.elapsed (ok u)) next h = absurd (cc)
waited_for-ok tool (Waited.elapsed (err e)) next h = absurd (cc)

run_tool-ok :
    (tool : Tool) (next : Result CompileResult String)
    → run_tool tool next ≡ ok CompileResult.success
    → HasSucceeded tool × (next ≡ ok CompileResult.success)
unfolding run_tool
run_tool-ok tool next h =
    let (u, e, f) = and_then-ok tool.spawn _ _ h in
    let (g, k) = waited_for-ok tool tool.waited next f in ((e, g), k)

run_tool-of :
    (tool : Tool) (next : Result CompileResult String)
    → HasSucceeded tool
    → run_tool tool next ≡ next
unfolding run_tool waited_for finished
run_tool-of tool next (e, (s, f, g)) =
    ap (λ (r : Result {0, 0} Unit String). and_then r (λ u. waited_for tool tool.waited next)) e
    ∙ ap (λ w. waited_for tool w next) f
    ∙ ap (λ b. if b then next else failure_message tool) g

-- Compiling succeeds exactly when the source can be written and both the compiler and then the
-- linker can be started, end within their time and report success. So a program that is too slow
-- to compile or is refused by either tool is never run.
pub compile-success :
    (write : Result {0, 0} Unit String) (compiler linker : Tool)
    → (compile write compiler linker ≡ ok CompileResult.success)
      ↔ ((write ≡ ok tt) × HasSucceeded compiler × HasSucceeded linker)
unfolding compile
compile-success write compiler linker = (
  (λ h.
      let (u, e, f) = and_then-ok write _ _ h in
      let (g, k) = run_tool-ok compiler _ f in (e, g, (run_tool-ok linker _ k).0)),
  λ (e, g, k).
      and_then-of write _ tt _ e
        (run_tool-of compiler _ g ∙ run_tool-of linker (ok CompileResult.success) k),
)
