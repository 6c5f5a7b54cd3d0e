-- ===== src/Shared/Http.antt =====
-- services/crates/judge_core_shared/src/models/http.rs: the verdicts as the HTTP interface
-- shows them, and the conversions in both directions.
use oj_monorepo.Base.{ℤ, String, List, [], ◌∷◌, map, ◌≡◌, refl, ap}
use oj_monorepo.Shared.Models.{Case, ResourcesUsage, KilledReason, CaseVerdict, VerdictTaskResult}

pub data CaseVerdictResponse : Type 0 where
  accepted : (usage : ResourcesUsage) → CaseVerdictResponse
  killed : (reason : KilledReason) (stdout stderr : String) → CaseVerdictResponse
  wrong_answer : (wrong_case : Case) (received stderr : String) → CaseVerdictResponse
  runtime_error : (stderr : String) (exit_code : ℤ) → CaseVerdictResponse

pub data VerdictResponse : Type 0 where
  stopped : (verdict : CaseVerdictResponse) → VerdictResponse
  all_passed : (max_usage : ResourcesUsage) → VerdictResponse
  collected : (cases : List CaseVerdictResponse) → VerdictResponse
  internal : (message : String) → VerdictResponse
  compilation_error : (message : String) → VerdictResponse

-- `From<CaseVerdict> for CaseVerdictResponse` and back.
unfoldable pub case_to_response : CaseVerdict → CaseVerdictResponse
case_to_response (CaseVerdict.accepted u) = CaseVerdictResponse.accepted u
case_to_response (CaseVerdict.wrong_answer c r e) = CaseVerdictResponse.wrong_answer c r e
case_to_response (CaseVerdict.killed k o e) = CaseVerdictResponse.killed k o e
case_to_response (CaseVerdict.runtime_error e c) = CaseVerdictResponse.runtime_error e c

unfoldable pub case_from_response : CaseVerdictResponse → CaseVerdict
case_from_response (CaseVerdictResponse.accepted u) = CaseVerdict.accepted u
case_from_response (CaseVerdictResponse.wrong_answer c r e) = CaseVerdict.wrong_answer c r e
case_from_response (CaseVerdictResponse.killed k o e) = CaseVerdict.killed k o e
case_from_response (CaseVerdictResponse.runtime_error e c) = CaseVerdict.runtime_error e c

-- `From<VerdictTaskResult> for VerdictResponse` and back.
unfoldable pub result_to_response : VerdictTaskResult → VerdictResponse
unfolding case_to_response
result_to_response (VerdictTaskResult.compilation_error m) = VerdictResponse.compilation_error m
result_to_response (VerdictTaskResult.internal m) = VerdictResponse.internal m
result_to_response (VerdictTaskResult.stopped v) = VerdictResponse.stopped (case_to_response v)
result_to_response (VerdictTaskResult.all_passed u) = VerdictResponse.all_passed u
result_to_response (VerdictTaskResult.collected cs) =
    VerdictResponse.collected (map case_to_response cs)

unfoldable pub result_from_response : VerdictResponse → VerdictTaskResult
unfolding case_from_response
result_from_response (VerdictResponse.compilation_error m) = VerdictTaskResult.compilation_error m
result_from_response (VerdictResponse.internal m) = VerdictTaskResult.internal m
result_from_response (VerdictResponse.stopped v) = VerdictTaskResult.stopped (case_from_response v)
result_from_response (VerdictResponse.all_passed u) = VerdictTaskResult.all_passed u
result_from_response (VerdictResponse.collected cs) =
    VerdictTaskResult.collected (map case_from_response cs)

case_round_trip : (v : CaseVerdict) → case_from_response (case_to_response v) ≡ v
unfolding case_to_response case_from_response
case_round_trip (CaseVerdict.accepted u) = refl
case_round_trip (CaseVerdict.wrong_answer c r e) = refl
case_round_trip (CaseVerdict.killed k o e) = refl
case_round_trip (CaseVerdict.runtime_error e c) = refl

case_round_trip_back : (r : CaseVerdictResponse) → case_to_response (case_from_response r) ≡ r
unfolding case_to_response case_from_response
case_round_trip_back (CaseVerdictResponse.accepted u) = refl
case_round_trip_back (CaseVerdictResponse.wrong_answer c r e) = refl
case_round_trip_back (CaseVerdictResponse.killed k o e) = refl
case_round_trip_back (CaseVerdictResponse.runtime_error e c) = refl

map_round_trip {ℓ κ} :
    {A : Type ℓ} {B : Type κ} (f : A → B) (g : B → A)
    → ((a : A) → g (f a) ≡ a)
    → (xs : List A) → map g (map f xs) ≡ xs
map_round_trip f g h [] = refl
map_round_trip f g h (x ∷ xs) = rw (h x) (ap (◌∷◌ x) (map_round_trip f g h xs))

-- A judging result sent as an HTTP response and read back by the SDK is the result that was sent,
-- and a response read and sent again is the same response: neither direction loses a verdict.
pub result_round_trip :
    ((r : VerdictTaskResult) → result_from_response (result_to_response r) ≡ r)
    × ((r : VerdictResponse) → result_to_response (result_from_response r) ≡ r)
unfolding result_to_response result_from_response
result_round_trip = (there, back)
  where
    there : (r : VerdictTaskResult) → result_from_response (result_to_response r) ≡ r
    there (VerdictTaskResult.compilation_error m) = refl
    there (VerdictTaskResult.internal m) = refl
    there (VerdictTaskResult.stopped v) = ap VerdictTaskResult.stopped (case_round_trip v)
    there (VerdictTaskResult.all_passed u) = refl
    there (VerdictTaskResult.collected cs) =
        ap VerdictTaskResult.collected (map_round_trip _ _ case_round_trip cs)

    back : (r : VerdictResponse) → result_to_response (result_from_response r) ≡ r
    back (VerdictResponse.compilation_error m) = refl
    back (VerdictResponse.internal m) = refl
    back (VerdictResponse.stopped v) = ap VerdictResponse.stopped (case_round_trip_back v)
    back (VerdictResponse.all_passed u) = refl
    back (VerdictResponse.collected cs) =
        ap VerdictResponse.collected (map_round_trip _ _ case_round_trip_back cs)
