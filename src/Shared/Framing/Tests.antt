-- ===== src/Shared/Framing/Tests.antt =====
-- A frame with a small number, in an encoding of one byte for each of its two parts.
use oj_monorepo.Base.{ℕ, ◌≡◌, refl, List, [], ◌∷◌, ◌++◌, Option, none, some, ok}
use oj_monorepo.Shared.Protocol.{FrameId}
use oj_monorepo.Shared.Framing.{Codec, send, receive}
use oj_monorepo.Shared.Framing.Exchange.{as_sent}

abbrev read_pair : List ℕ → Option (FrameId × ℕ)
read_pair (a ∷ (b ∷ [])) = some (a, b)
read_pair (a ∷ (b ∷ (c ∷ rest))) = none
read_pair (a ∷ []) = none
read_pair [] = none

abbrev pairs : Codec ℕ
pairs = record { to_allocvec = λ (a, b). some (a ∷ b ∷ []); from_bytes = read_pair }

-- A frame that is followed by another byte.
receive_runs : receive pairs ((0 ∷ 0 ∷ 0 ∷ 2 ∷ 7 ∷ 9 ∷ []) ++ (1 ∷ [])) ≡ as_sent pairs 7 9 (1 ∷ [])
unfolding receive
receive_runs = refl

send_runs : send pairs 7 9 ≡ some (ok (0 ∷ 0 ∷ 0 ∷ 2 ∷ 7 ∷ 9 ∷ []))
unfolding send
send_runs = refl
