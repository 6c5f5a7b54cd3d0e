-- ===== src/Agent/Cpp/Acceptance.antt =====
-- When a run of the program is accepted.
use oj_monorepo.Base.{
  ◌+◌, ◌≤◌, ◌<◌, ◌≡◌, ◌≢◌, refl, sym, ◌∙◌, ap, ◌↔◌, ltb, ◌||◌, if_cases, String, str_eq, str_eq_iff,
  len, true, ok, err, and_then-ok, and_then-of, if◌then◌else◌, u64_mod, arith, subst,
}
use oj_monorepo.Shared.Models.{Case, CaseVerdict, ResourcesLimit, ResourcesUsage}
use oj_monorepo.Agent.Cpp.Output.{read_capped-short, read_capped-whole}
use oj_monorepo.Agent.Cpp.{
  ExitStatus, is_success, Selected, ChildOutcome, Run, stdin_written, outcome_of, read_capped,
  broken, checked, decided, verdict,
}

-- What an accepted run has done.
abbrev pub IsAcceptedRun : Run → Case → ResourcesLimit → Type 0
IsAcceptedRun run case limit =
    (run.cgroup ≡ ok tt)
    × (run.spawn ≡ ok tt)
    × (run.add_task ≡ ok tt)
    × (stdin_written run.stdin ≡ ok tt)
    × ((s : ExitStatus) × (run.selected ≡ Selected.child_ended (ok s)) × (is_success s ≡ true))
    × (run.usage.cpu_time_ms ≤ limit.cpu_time_ms)
    × ((run.stdout ≡ ok case.output) × (len case.output ≤ limit.output_bytes))
    × ((e : String) × (run.stderr ≡ ok e) × (len e ≤ limit.output_bytes))

checked-accepted :
    (run : Run) (case : Case) (limit : ResourcesLimit) (stdout stderr : String) (u : ResourcesUsage)
    → checked run case limit stdout stderr ≡ CaseVerdict.accepted u
    → (run.usage.cpu_time_ms ≤ limit.cpu_time_ms)
      × (len stdout ≤ limit.output_bytes)
      × (len stderr ≤ limit.output_bytes)
      × (stdout ≡ case.output)
      × (u ≡ run.usage)
unfolding checked
checked-accepted run case limit stdout stderr u h =
    if_cases (λ (v : CaseVerdict). v ≡ CaseVerdict.accepted u → Goal)
      (ltb limit.cpu_time_ms run.usage.cpu_time_ms) _ _ (λ e k. absurd (cc))
      (λ e.
        if_cases (λ (v : CaseVerdict). v ≡ CaseVerdict.accepted u → Goal)
          (ltb limit.output_bytes (len stdout) || ltb limit.output_bytes (len stderr)) _ _
          (λ f k. absurd (cc))
          (λ f.
            if_cases (λ (v : CaseVerdict). v ≡ CaseVerdict.accepted u → Goal)
              (str_eq case.output stdout) _ _
              (λ g k. (
                ground arith,
                ground arith,
                ground arith,
                sym ((str_eq_iff case.output stdout).0 g),
                cc,
              ))
              (λ g k. absurd (cc))))
      h
  where
    Goal : Type 0
    Goal =
        (run.usage.cpu_time_ms ≤ limit.cpu_time_ms)
        × (len stdout ≤ limit.output_bytes)
        × (len stderr ≤ limit.output_bytes)
        × (stdout ≡ case.output)
        × (u ≡ run.usage)

broken-rejects :
    (run : Run) (stdout stderr : String) (s : ExitStatus) (u : ResourcesUsage)
    → broken run stdout stderr s ≢ CaseVerdict.accepted u
unfolding broken
broken-rejects run stdout stderr (ExitStatus.exited code) u h = cc
broken-rejects run stdout stderr (ExitStatus.signaled signal) u h = cc
broken-rejects run stdout stderr ExitStatus.unknown u h = cc

outcome_of-exited :
    (selected : Selected) (s : ExitStatus)
    → outcome_of selected ≡ ok (ChildOutcome.exited s)
    → selected ≡ Selected.child_ended (ok s)
unfolding outcome_of
outcome_of-exited (Selected.child_ended (ok t)) s h = cc
outcome_of-exited (Selected.child_ended (err e)) s h = absurd (cc)
outcome_of-exited (Selected.output_notified (ok u)) s h = absurd (cc)
outcome_of-exited (Selected.output_notified (err e)) s h = absurd (cc)
outcome_of-exited (Selected.slept (ok u)) s h = absurd (cc)
outcome_of-exited (Selected.slept (err e)) s h = absurd (cc)

decided-accepted :
    (run : Run) (case : Case) (limit : ResourcesLimit) (stdout stderr : String) (o : ChildOutcome)
    (u : ResourcesUsage)
    → decided run case limit stdout stderr o ≡ CaseVerdict.accepted u
    → (s : ExitStatus) × (o ≡ ChildOutcome.exited s)
      × (is_success s ≡ true)
      × (checked run case limit stdout stderr ≡ CaseVerdict.accepted u)
unfolding decided broken
decided-accepted run case limit stdout stderr ChildOutcome.output_exceeded u h = absurd (cc)
decided-accepted run case limit stdout stderr ChildOutcome.wall_timeout u h = absurd (cc)
decided-accepted run case limit stdout stderr (ChildOutcome.exited s) u h =
    if_cases
      (λ (v : CaseVerdict).
        v ≡ CaseVerdict.accepted u
        → (s' : ExitStatus) × (ChildOutcome.exited s ≡ ChildOutcome.exited s')
          × (is_success s' ≡ true)
          × (checked run case limit stdout stderr ≡ CaseVerdict.accepted u))
      (is_success s) _ _ (λ e k. (s, refl, e, k))
      (λ e k. absurd (broken-rejects run stdout stderr s u k)) h

decided-exited :
    (run : Run) (case : Case) (limit : ResourcesLimit) (stdout stderr : String) (s : ExitStatus)
    → is_success s ≡ true
    → decided run case limit stdout stderr (ChildOutcome.exited s)
      ≡ checked run case limit stdout stderr
unfolding decided
decided-exited run case limit stdout stderr s h =
    ap (λ b. if b then checked run case limit stdout stderr else broken run stdout stderr s) h

checked-whole :
    (run : Run) (case : Case) (limit : ResourcesLimit) (stderr : String)
    → run.usage.cpu_time_ms ≤ limit.cpu_time_ms
    → len case.output ≤ limit.output_bytes
    → len stderr ≤ limit.output_bytes
    → checked run case limit case.output stderr ≡ CaseVerdict.accepted run.usage
unfolding checked
checked-whole run case limit stderr a l k =
    ground (arith, (str_eq_iff case.output case.output).1 refl)

verdict_sound :
    (run : Run) (case : Case) (limit : ResourcesLimit) (u : ResourcesUsage)
    → limit.output_bytes + 1 < u64_mod
    → verdict run case limit ≡ ok (CaseVerdict.accepted u)
    → IsAcceptedRun run case limit × (u ≡ run.usage)
unfolding verdict
verdict_sound run case limit u b h =
    let (u1, e1, h1) = and_then-ok run.cgroup _ _ h in
    let (u2, e2, h2) = and_then-ok run.spawn _ _ h1 in
    let (u3, e3, h3) = and_then-ok run.add_task _ _ h2 in
    let (u4, e4, h4) = and_then-ok (stdin_written run.stdin) _ _ h3 in
    let (o, e5, h5) = and_then-ok (outcome_of run.selected) _ _ h4 in
    let (stdout, e6, h6) = and_then-ok (read_capped limit.output_bytes run.stdout) _ _ h5 in
    let (stderr, e7, h7) = and_then-ok (read_capped limit.output_bytes run.stderr) _ _ h6 in
    let (s, f, g, c) = decided-accepted run case limit stdout stderr o u (cc) in
    let (c1, c2, c3, c4, c5) = checked-accepted run case limit stdout stderr u c in
    (
      (
        e1,
        e2,
        e3,
        e4,
        (s, outcome_of-exited run.selected s (e5 ∙ ap ok f), g),
        c1,
        (
          read_capped-short limit.output_bytes run.stdout stdout b e6 c2 ∙ ap ok c4,
          subst (λ t. len t ≤ limit.output_bytes) c4 c2,
        ),
        (stderr, read_capped-short limit.output_bytes run.stderr stderr b e7 c3, c3),
      ),
      c5,
    )

verdict_complete :
    (run : Run) (case : Case) (limit : ResourcesLimit)
    → limit.output_bytes + 1 < u64_mod
    → IsAcceptedRun run case limit
    → verdict run case limit ≡ ok (CaseVerdict.accepted run.usage)
unfolding verdict
verdict_complete run case limit b (a1, a2, a3, a4, (s, a5, e5), a6, (a7, l7), (e, a8, l8)) =
    and_then-of run.cgroup _ tt _ a1 (
      and_then-of run.spawn _ tt _ a2 (
        and_then-of run.add_task _ tt _ a3 (
          and_then-of (stdin_written run.stdin) _ tt _ a4 (
            and_then-of (outcome_of run.selected) _ (ChildOutcome.exited s) _ (ap outcome_of a5) (
              and_then-of (read_capped limit.output_bytes run.stdout) _ case.output _
                (read_capped-whole limit.output_bytes run.stdout case.output b a7 l7)
                (and_then-of (read_capped limit.output_bytes run.stderr) _ e _
                  (read_capped-whole limit.output_bytes run.stderr e b a8 l8)
                  (ap ok (
                    decided-exited run case limit case.output e s e5
                    ∙ checked-whole run case limit e a6 l7 l8))))))))

-- A case is accepted exactly when every call for its run succeeds, the program ends by itself with
-- exit code zero, within the limit of processor time, all that it has written to its output is the
-- expected text, and that and its error output are within the limit of output, which is below the
-- largest machine word. The usage reported is then the measured one.
pub verdict-accepted :
    (run : Run) (case : Case) (limit : ResourcesLimit) (u : ResourcesUsage)
    → limit.output_bytes + 1 < u64_mod
    → (verdict run case limit ≡ ok (CaseVerdict.accepted u))
      ↔ (IsAcceptedRun run case limit × (u ≡ run.usage))
verdict-accepted run case limit u b = (
  verdict_sound run case limit u b,
  λ (a, e). verdict_complete run case limit b a ∙ ap (λ v. ok (CaseVerdict.accepted v)) (sym e),
)
