-- ===== src/Shared/Framing.antt =====
-- services/crates/judge_core_shared/src/protocol.rs: sending and receiving frames. A stream is the
-- list of its bytes. The encoding of postcard is a parameter; an end of the stream is an error.
pub mod Exchange
mod Tests
use oj_monorepo.Base.{
  ℕ, ◌+◌, ◌*◌, ◌/◌, ◌%◌, ◌^◌, ltb, ◌==◌, List, [], ◌∷◌, ◌++◌, Option, none, some, Result, ok, err,
  length, take, drop, if◌then◌else◌, u32_mod,
}
use oj_monorepo.Shared.Protocol.{ProtocolError, FrameId}

pub record Codec (T : Type 0) : Type 0 where
  pub to_allocvec : FrameId × T → Option (List ℕ)
  pub from_bytes : List ℕ → Option (FrameId × T)

abbrev pub heartbeat_magic : ℕ
heartbeat_magic = 0

-- `write_u32` and `read_u32`, in big-endian order.
unfoldable pub write_u32 : ℕ → List ℕ
write_u32 n = n / 2 ^ 24 % 256 ∷ n / 2 ^ 16 % 256 ∷ n / 2 ^ 8 % 256 ∷ n % 256 ∷ []

unfoldable pub read_u32 : List ℕ → Option (ℕ × List ℕ)
read_u32 (a ∷ (b ∷ (c ∷ (d ∷ rest)))) = some (((a * 256 + b) * 256 + c) * 256 + d, rest)
read_u32 (a ∷ (b ∷ (c ∷ []))) = none
read_u32 (a ∷ (b ∷ [])) = none
read_u32 (a ∷ []) = none
read_u32 [] = none

unfoldable pub read_exact : ℕ → List ℕ → Option (List ℕ × List ℕ)
read_exact n bytes = if ltb (length bytes) n then none else some (take n bytes, drop n bytes)

abbrev pub end_of_stream : ProtocolError
end_of_stream = ProtocolError.io "early eof"

-- What is left of the stream, what is written to it, and the result.
pub record Received (T : Type 0) : Type 0 where
  pub rest : List ℕ
  pub written : List ℕ
  pub result : Result (Option (FrameId × T)) ProtocolError

module _ {T : Type 0} (codec : Codec T) where
  open codec use {to_allocvec, from_bytes}

  -- `send`: the bytes that it writes; the outer `none` is the panic on a length beyond `u32`.
  unfoldable pub send : FrameId → T → Option (Result (List ℕ) ProtocolError)
  unfolding write_u32
  send id content = elim (to_allocvec (id, content)) [
    | none ↦ some (err (ProtocolError.serialization "postcard"))
    | some encoded ↦
        if ltb (length encoded) u32_mod
        then some (ok (write_u32 (length encoded) ++ encoded))
        else none
  ]

  unfoldable pub decoded : List ℕ → Result (Option (FrameId × T)) ProtocolError
  decoded buf = elim (from_bytes buf) [
    | none ↦ err (ProtocolError.serialization "postcard")
    | some frame ↦ ok (some frame)
  ]

  unfoldable pub receive_frame : ℕ → List ℕ → Received T
  unfolding read_exact decoded
  receive_frame n stream = elim (read_exact n stream) [
    | none ↦ record { rest = []; written = []; result = err end_of_stream }
    | some (buf, rest) ↦ record { rest = rest; written = []; result = decoded buf }
  ]

  unfoldable pub receive : List ℕ → Received T
  unfolding read_u32 receive_frame write_u32
  receive stream = elim (read_u32 stream) [
    | none ↦ record { rest = []; written = []; result = err end_of_stream }
    | some (n, rest) ↦
        if n == heartbeat_magic
        then record { rest = rest; written = write_u32 heartbeat_magic; result = ok none }
        else receive_frame n rest
  ]

-- `send_heartbeat`, from what is read after the heartbeat is written.
unfoldable pub heartbeat_answer : List ℕ → Result {0, 0} Unit ProtocolError
unfolding read_u32
heartbeat_answer stream = elim (read_u32 stream) [
  | none ↦ err end_of_stream
  | some (n, rest) ↦
      if n == heartbeat_magic then ok tt else err ProtocolError.invalid_heartbeat_response
]
