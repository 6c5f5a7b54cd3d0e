-- ===== src/Api/Processor/Consumer/Loop.antt =====
-- services/crates/submission_processor/src/main.rs: what the loop has done, when it stops, with the
-- messages that it has taken.
use oj_monorepo.Base.{List, [], ◌∷◌}
use oj_monorepo.Api.Store.{Tables, ValueCodec}
use oj_monorepo.Api.Submissions.Simulation.{IsValid}
use oj_monorepo.Api.Queue.{Json}
use oj_monorepo.Api.Processor.Consumer.{Delivery, Event, Consumer}

-- The messages that the loop takes before it stops.
abbrev pub taken : {Bytes : Type 0} → List (Event Bytes) → List (Delivery Bytes)
taken [] = []
taken (Event.delivered d ∷ es) = d ∷ taken es
taken (Event.consumer_error ∷ es) = taken es
taken (Event.stream_ended ∷ es) = []
taken (Event.ctrl_c ∷ es) = []

module _ {Bytes : Type 0} (codec : ValueCodec) (json : Json Bytes) where
  -- Other connections keep a valid table valid.
  abbrev pub KeepsValid : Delivery Bytes → Type 0
  KeepsValid d = (t : Tables) → IsValid codec t → IsValid codec (d.others t)
