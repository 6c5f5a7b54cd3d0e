-- ===== src/Api/Processor/Consumer/Settling.antt =====
-- services/crates/submission_processor/src/main.rs: what the loop does with one message.
use oj_monorepo.Base.{
  ℕ, zero, suc, ◌+◌, ◌≤◌, ◌≡◌, refl, ◌⊎◌, inl, inr, ap, subst, arith, String, List, [], ◌∷◌, length,
  tally, All, Bool, Option, none, some, Result, ok, err,
}
use oj_monorepo.Shared.Models.{VerdictTask, VerdictTaskResult}
use oj_monorepo.Shared.Http.{result_to_response}
use oj_monorepo.Sdk.{JudgeCoreError, task_submit}
use oj_monorepo.Api.Store.{Tables, RepoError, ValueCodec, World}
use oj_monorepo.Api.Submissions.{mark_completed}
use oj_monorepo.Api.Submissions.Simulation.{IsFaithful, IsValid, mark_completed-Simulates}
use oj_monorepo.Api.Queue.{Json}
use oj_monorepo.Api.Processor.{
  SubmitMessage, Processed, JudgeCore, from_slice, marked, stored, judged, processed,
  process_message,
}
use oj_monorepo.Api.Processor.Consumer.{Delivery, Consumer, settled, take_delivery}

module _ {Bytes : Type 0} (codec : ValueCodec) (json : Json Bytes) (d : Delivery Bytes) where
  abbrev answer_to : SubmitMessage → Option (Result VerdictTaskResult JudgeCoreError)
  answer_to m = task_submit d.judge.client (d.judge.answer m.task)

  -- The repository has been asked to store a verdict and has answered like this.
  abbrev pub Stored : VerdictTaskResult → String → Result (Unit {0}) RepoError → Type 0
  Stored r uuid out =
      (seen : Tables) × (t : Tables) × ((mark_completed d.world codec uuid (result_to_response r)
          seen t).1
        ≡ out)

  -- Nothing more is to be done for the message: it cannot be read, or it has been judged, and the
  -- verdict is stored or the submission has no id.
  abbrev pub IsDone : Type 0
  IsDone =
      (from_slice json d.body ≡ none)
      ⊎ ((m : SubmitMessage) × (r : VerdictTaskResult) × (from_slice json d.body ≡ some m)
          × (answer_to m ≡ some (ok r))
          × ((d.judge.parse_uuid m.submission_id ≡ none)
              ⊎ ((uuid : String) × (d.judge.parse_uuid m.submission_id ≡ some uuid)
                  × Stored r uuid (ok tt))))

  -- The message can be read, but the judge's client reports an error or the verdict is not stored.
  abbrev pub IsLeft : Type 0
  IsLeft =
      (m : SubmitMessage) × (from_slice json d.body ≡ some m)
      × (((e : JudgeCoreError) × (answer_to m ≡ some (err e)))
          ⊎ ((r : VerdictTaskResult) × (uuid : String) × (e : RepoError) × (answer_to m
                ≡ some (ok r))
              × (d.judge.parse_uuid m.submission_id ≡ some uuid)
              × Stored r uuid (err e)))

  -- What a message leaves: a valid table, and one call of `ack`, or none and no result.
  abbrev pub IsProcessed : Processed → Type 0
  IsProcessed p =
      IsValid codec p.tables
      × (((p.acks ≡ 1) × IsDone) ⊎ ((p.acks ≡ 0) × (p.result ≡ none) × IsLeft))

  module _ (m : SubmitMessage) (read : from_slice json d.body ≡ some m) where
    marked-IsProcessed :
        (r : VerdictTaskResult) (uuid : String) (seen t : Tables)
        (out : Tables × Result (Unit {0}) RepoError)
        → answer_to m ≡ some (ok r)
        → d.judge.parse_uuid m.submission_id ≡ some uuid
        → mark_completed d.world codec uuid (result_to_response r) seen t ≡ out
        → IsValid codec out.0
        → IsProcessed (marked d.world codec d.judge m.submission_id out)
    unfolding marked
    marked-IsProcessed r uuid seen t (u, err e) a i w v =
        (v, inr (refl, refl, (m, read, inr (r, uuid, e, a, i, (seen, t, ap (λ o. o.1) w)))))
    marked-IsProcessed r uuid seen t (u, ok tt) a i w v =
        (v, inl (refl, inr (m, r, read, a, inr (uuid, i, (seen, t, ap (λ o. o.1) w)))))

    stored-IsProcessed :
        (r : VerdictTaskResult) (o : Option String) (seen t : Tables)
        → answer_to m ≡ some (ok r)
        → d.judge.parse_uuid m.submission_id ≡ o
        → IsFaithful codec
        → IsValid codec t
        → IsProcessed (stored d.world codec d.judge m.submission_id r o seen t)
    unfolding stored
    stored-IsProcessed r none seen t a i c v = (v, inl (refl, inr (m, r, read, a, inl i)))
    stored-IsProcessed r (some uuid) seen t a i c v =
        marked-IsProcessed r uuid seen t _ a i refl
          (mark_completed-Simulates codec d.world uuid (result_to_response r) seen t c v).0

    judged-IsProcessed :
        (o : Option (Result VerdictTaskResult JudgeCoreError)) (seen t : Tables) (p : Processed)
        → answer_to m ≡ o
        → IsFaithful codec
        → IsValid codec t
        → judged d.world codec d.judge m.submission_id o seen t ≡ some p
        → IsProcessed p
    unfolding judged
    judged-IsProcessed none seen t p a c v h = absurd (cc)
    judged-IsProcessed (some (err e)) seen t p a c v h =
        let q : record { tables = t; acks = 0; result = none } ≡ p = cc in
        subst IsProcessed q (v, inr (refl, refl, (m, read, inl (e, a))))
    judged-IsProcessed (some (ok r)) seen t p a c v h =
        let q : stored d.world codec d.judge m.submission_id r (d.judge.parse_uuid m.submission_id)
              seen t
            ≡ p =
          cc in
        subst IsProcessed q (stored-IsProcessed r _ seen t a refl c v)

  processed-IsProcessed :
      (o : Option SubmitMessage) (seen t : Tables) (p : Processed)
      → from_slice json d.body ≡ o
      → IsFaithful codec
      → IsValid codec t
      → processed d.world codec d.judge o seen t ≡ some p
      → IsProcessed p
  unfolding processed
  processed-IsProcessed none seen t p read c v h =
      let q : record { tables = t; acks = 1; result = none } ≡ p = cc in
      subst IsProcessed q (v, inl (refl, inl read))
  processed-IsProcessed (some m) seen t p read c v h =
      judged-IsProcessed m read (answer_to m) seen t p refl c v h

-- From one state to another, with the messages taken in between.
module _ {Bytes : Type 0} (codec : ValueCodec) (json : Json Bytes) (s : Consumer Bytes)
    (ds : List (Delivery Bytes)) (s' : Consumer Bytes) where
  -- Every message is acknowledged or left, once each.
  abbrev pub IsAccounted : Type 0
  IsAccounted =
      (q : Delivery Bytes → Bool)
      → tally q s'.acked + tally q s'.unacked ≡ tally q s.acked + tally q s.unacked + tally q ds

  -- No more messages are reported as finished than are acknowledged.
  abbrev pub IsHonest : Type 0
  IsHonest = length s'.finished + length s.acked ≤ length s.finished + length s'.acked

  -- The messages that are acknowledged are done with, and those that are left are not.
  abbrev pub IsSorted : Type 0
  IsSorted =
      (All (IsDone codec json) s.acked → All (IsDone codec json) s'.acked)
      × (All (IsLeft codec json) s.unacked → All (IsLeft codec json) s'.unacked)

  abbrev pub IsSettled : Type 0
  IsSettled = IsValid codec s'.tables × IsAccounted × IsHonest × IsSorted

module _ {Bytes : Type 0} (codec : ValueCodec) (json : Json Bytes) where
  settled-IsSettled :
      (d : Delivery Bytes) (s : Consumer Bytes) (t : Tables) (n : ℕ) (o : Option String)
      → IsProcessed codec json d (record { tables = t; acks = n; result = o })
      → IsSettled codec json s
          (d ∷ [])
          (settled codec json d s (record { tables = t; acks = n; result = o }))
  unfolding settled
  settled-IsSettled d s t zero o (v, inl (a, done)) = absurd (omega (arith, a))
  settled-IsSettled d s t zero (some id) (v, inr (a, b, left)) = absurd (cc)
  settled-IsSettled d s t zero none (v, inr (a, b, left)) =
      (v, (λ q. omega arith), omega arith, ((λ h. h), (λ h. (left, h))))
  settled-IsSettled d s t (suc zero) none (v, inl (a, done)) =
      (v, (λ q. omega arith), omega arith, ((λ h. (done, h)), (λ h. h)))
  settled-IsSettled d s t (suc zero) (some id) (v, inl (a, done)) =
      (v, (λ q. omega arith), omega arith, ((λ h. (done, h)), (λ h. h)))
  settled-IsSettled d s t (suc (suc n)) o (v, inl (a, done)) = absurd (omega (arith, a))
  settled-IsSettled d s t (suc n) o (v, inr (a, b, left)) = absurd (omega (arith, a))

  taken-IsSettled :
      (d : Delivery Bytes) (s s' : Consumer Bytes) (o : Option Processed)
      → ((p : Processed) → o ≡ some p → IsProcessed codec json d p)
      → elim o [ none ↦ none | some p ↦ some (settled codec json d s p) ] ≡ some s'
      → IsSettled codec json s (d ∷ []) s'
  taken-IsSettled d s s' none h e = absurd (cc)
  taken-IsSettled d s s' (some p) h e =
      let q : settled codec json d s p ≡ s' = cc in
      subst (IsSettled codec json s (d ∷ [])) q
        (settled-IsSettled d s p.tables p.acks p.result (h p refl))

  pub take_delivery-IsSettled :
      (d : Delivery Bytes) (s s' : Consumer Bytes)
      → IsFaithful codec
      → IsValid codec (d.others s.tables)
      → take_delivery codec json d s ≡ some s'
      → IsSettled codec json s (d ∷ []) s'
  unfolding take_delivery process_message
  take_delivery-IsSettled d s s' c v e =
      taken-IsSettled d s s'
        (process_message d.world codec d.judge json d.body s.tables (d.others s.tables))
        (λ p.
          processed-IsProcessed codec json d (from_slice json d.body) s.tables (d.others s.tables) p
            refl c v)
        e

  pub then-IsSettled :
      (s s' s'' : Consumer Bytes) (d : Delivery Bytes) (ds : List (Delivery Bytes))
      → IsSettled codec json s (d ∷ []) s'
      → IsSettled codec json s' ds s''
      → IsSettled codec json s (d ∷ ds) s''
  then-IsSettled s s' s'' d ds f g = (
    g.0,
    (λ q. omega (arith, f.1 q, g.1 q)),
    omega (arith, f.2, g.2),
    ((λ a. g.3.0 (f.3.0 a)), (λ a. g.3.1 (f.3.1 a))),
  )

  -- The client of the judge does not panic on an answer.
  abbrev pub IsAnswered : Delivery Bytes → Type 0
  IsAnswered d =
      (k : VerdictTask)
      → (r : Result VerdictTaskResult JudgeCoreError) × (task_submit d.judge.client
            (d.judge.answer k)
          ≡ some r)

  judged-some :
      (world : World) (judge : JudgeCore) (id : String) (seen t : Tables)
      (o : Option (Result VerdictTaskResult JudgeCoreError))
      (r : Result VerdictTaskResult JudgeCoreError)
      → o ≡ some r
      → (p : Processed) × (judged world codec judge id o seen t ≡ some p)
  unfolding judged
  judged-some world judge id seen t o (err e) h = rw h (_, refl)
  judged-some world judge id seen t o (ok r) h = rw h (_, refl)

  processed-some :
      (d : Delivery Bytes) (m : Option SubmitMessage) (seen t : Tables)
      → IsAnswered d
      → (p : Processed) × (processed d.world codec d.judge m seen t ≡ some p)
  unfolding processed
  processed-some d none seen t a = (_, refl)
  processed-some d (some m) seen t a =
      let (r, h) = a m.task in judged-some d.world d.judge m.submission_id seen t _ r h

  pub take_delivery-some :
      (d : Delivery Bytes) (s : Consumer Bytes)
      → IsAnswered d
      → (s' : Consumer Bytes) × (take_delivery codec json d s ≡ some s')
  unfolding take_delivery process_message
  take_delivery-some d s a =
      let (p, h) = processed-some d (from_slice json d.body) s.tables (d.others s.tables) a in
      (
        settled codec json d s p,
        ap (λ o. elim o [ none ↦ none | some p ↦ some (settled codec json d s p) ]) h,
      )
