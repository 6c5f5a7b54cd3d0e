-- ===== src/Shared/Framing/Exchange.antt =====
-- What is sent is received.
use oj_monorepo.Base.{
  ℕ, ◌+◌, ◌*◌, ◌/◌, ◌%◌, ◌^◌, ◌<◌, ◌≡◌, refl, ◌∙◌, ap, ltb, ◌==◌, List, [], ◌∷◌, ◌++◌, Option, none,
  some, Result, ok, err, length, length-append, take, drop, if◌then◌else◌, if_cases, u32_mod, arith,
  subst,
}
use oj_monorepo.Shared.Protocol.{ProtocolError, FrameId}
use oj_monorepo.Shared.Framing.{
  Codec, heartbeat_magic, write_u32, read_u32, read_exact, Received, send, decoded, receive_frame,
  receive,
}

bytes_of_u32 :
    (n : ℕ)
    → n < 2 ^ 32
    → ((n / 2 ^ 24 % 256 * 256 + n / 2 ^ 16 % 256) * 256 + n / 2 ^ 8 % 256) * 256 + n % 256 ≡ n
bytes_of_u32 n h = omega (arith, h)

read-write_u32 :
    (n : ℕ) (rest : List ℕ) → n < 2 ^ 32 → read_u32 (write_u32 n ++ rest) ≡ some (n, rest)
unfolding read_u32 write_u32
read-write_u32 n rest h = ap (λ m. some (m, rest)) (bytes_of_u32 n h)

take-append : (xs ys : List ℕ) → take (length xs) (xs ++ ys) ≡ xs
take-append [] ys = refl
take-append (x ∷ xs) ys = ap (λ zs. x ∷ zs) (take-append xs ys)

drop-append : (xs ys : List ℕ) → drop (length xs) (xs ++ ys) ≡ ys
drop-append [] ys = refl
drop-append (x ∷ xs) ys = drop-append xs ys

read_exact-append : (xs ys : List ℕ) → read_exact (length xs) (xs ++ ys) ≡ some (xs, ys)
unfolding read_exact
read_exact-append xs ys =
    if_cases (λ (o : Option (List ℕ × List ℕ)). o ≡ some (xs, ys))
      (ltb (length (xs ++ ys)) (length xs)) none
      (some (take (length xs) (xs ++ ys), drop (length xs) (xs ++ ys)))
      (λ e. absurd (ground (arith, length-append xs ys)))
      (λ _. λ i. some (take-append xs ys i, drop-append xs ys i))

module _ {T : Type 0} (codec : Codec T) where
  abbrev pub as_sent : FrameId → T → List ℕ → Received T
  as_sent id content rest = record { rest = rest; written = []; result = ok (some (id, content)) }

  frame-received :
      (id : FrameId) (content : T) (e rest : List ℕ)
      → codec.from_bytes e ≡ some (id, content)
      → receive_frame codec (length e) (e ++ rest) ≡ as_sent id content rest
  unfolding receive_frame decoded
  frame-received id content e rest h =
      rw (read_exact-append e rest, receive_frame) (rw (h, decoded) refl)

  written-received :
      (id : FrameId) (content : T) (e rest : List ℕ)
      → codec.from_bytes e ≡ some (id, content)
      → 0 < length e
      → length e < u32_mod
      → receive codec ((write_u32 (length e) ++ e) ++ rest) ≡ as_sent id content rest
  unfolding receive read_u32 write_u32
  written-received id content e rest h p b =
      ap
        (λ n.
          if n == heartbeat_magic
          then record { rest = e ++ rest; written = write_u32 heartbeat_magic; result = ok none }
          else receive_frame codec n (e ++ rest))
        (bytes_of_u32 (length e) b)
      ∙ if_cases (λ (r : Received T). r ≡ as_sent id content rest) (length e == heartbeat_magic)
          (record { rest = e ++ rest; written = write_u32 heartbeat_magic; result = ok none })
          (receive_frame codec (length e) (e ++ rest)) (λ z. absurd (ground arith))
          (λ _. frame-received id content e rest h)

  sent-received :
      (id : FrameId) (content : T) (bytes rest : List ℕ) (o : Option (List ℕ))
      → ((e : List ℕ) → o ≡ some e → (codec.from_bytes e ≡ some (id, content)) × (0 < length e))
      → (elim o [
        | none ↦ some (err (ProtocolError.serialization "postcard"))
        | some encoded ↦
            if ltb (length encoded) u32_mod
            then some (ok (write_u32 (length encoded) ++ encoded))
            else none
      ])
        ≡ some (ok bytes)
      → receive codec (bytes ++ rest) ≡ as_sent id content rest
  sent-received id content bytes rest none law h = absurd (cc)
  sent-received id content bytes rest (some e) law h =
      if_cases
        (λ (o : Option (Result (List ℕ) ProtocolError)).
          o ≡ some (ok bytes) → receive codec (bytes ++ rest) ≡ as_sent id content rest)
        (ltb (length e) u32_mod) (some (ok (write_u32 (length e) ++ e))) none
        (λ l k.
          let q : write_u32 (length e) ++ e ≡ bytes = cc in
          let (f, p) = law e refl in
          subst (λ bs. receive codec (bs ++ rest) ≡ as_sent id content rest) q
            (written-received id content e rest f p (ground arith)))
        (λ _ k. absurd (cc)) h

  -- The library reads this frame as it was written.
  abbrev pub ReadsBack : FrameId × T → Type 0
  ReadsBack f =
      (e : List ℕ) → codec.to_allocvec f ≡ some e → (codec.from_bytes e ≡ some f) × (0 < length e)

  -- A frame that is sent is received as it is, with its id, by whoever reads the stream, and what
  -- follows it is left in the stream; provided postcard reads what it has written and writes at
  -- least one byte, so that no frame is taken for a heartbeat.
  pub receive-send :
      (id : FrameId) (content : T) (bytes rest : List ℕ)
      → ReadsBack (id, content)
      → send codec id content ≡ some (ok bytes)
      → receive codec (bytes ++ rest) ≡ as_sent id content rest
  unfolding send
  receive-send id content bytes rest law h =
      sent-received id content bytes rest (codec.to_allocvec (id, content)) law h
