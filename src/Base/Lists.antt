-- ===== src/Base/Lists.antt =====
-- Lists measured and indexed by native numbers, under the library's names.
use Prim.Native.Nat.{ℕ, zero, suc, ◌+◌, ◌≤◌}
use mathlib.Core.Path.{◌≡◌, refl}
use mathlib.Core.Bool.{Bool, true, false}
use mathlib.Core.List.{List, [], ◌∷◌, ◌++◌, map}
use mathlib.Core.Option.{Option, none, some}
use native.Mathlib.Omega.{arith}
use oj_monorepo.Base.Tests.{if◌then◌else◌, ltb}

module _ {ℓ} {A : Type ℓ} where
  abbrev pub length : List A → ℕ
  length [] = 0
  length (x ∷ xs) = suc (length xs)

  abbrev pub get_elem? : List A → ℕ → Option A
  get_elem? [] i = none
  get_elem? (x ∷ xs) zero = some x
  get_elem? (x ∷ xs) (suc i) = get_elem? xs i

  -- A write out of bounds changes nothing.
  abbrev pub set : List A → ℕ → A → List A
  set [] i v = []
  set (x ∷ xs) zero v = v ∷ xs
  set (x ∷ xs) (suc i) v = x ∷ set xs i v

  -- The list without the entry at an index.
  abbrev pub erase_at : List A → ℕ → List A
  erase_at [] i = []
  erase_at (x ∷ xs) zero = xs
  erase_at (x ∷ xs) (suc i) = x ∷ erase_at xs i

  abbrev pub take : ℕ → List A → List A
  take zero xs = []
  take (suc n) [] = []
  take (suc n) (x ∷ xs) = x ∷ take n xs

  abbrev pub drop : ℕ → List A → List A
  drop zero xs = xs
  drop (suc n) [] = []
  drop (suc n) (x ∷ xs) = drop n xs

  abbrev pub replicate : ℕ → A → List A
  replicate zero a = []
  replicate (suc n) a = a ∷ replicate n a

  -- The entries that pass a Boolean test, in their order.
  abbrev pub keep : (A → Bool) → List A → List A
  keep p [] = []
  keep p (x ∷ xs) = let rest = keep p xs in if p x then x ∷ rest else rest

  -- `iter().any(p)` and `iter().find(p)`.
  abbrev pub any : (A → Bool) → List A → Bool
  any p [] = false
  any p (x ∷ xs) = if p x then true else any p xs

  abbrev pub find : (A → Bool) → List A → Option A
  find p [] = none
  find p (x ∷ xs) = if p x then some x else find p xs

  -- How many entries pass a test.
  abbrev pub tally : (A → Bool) → List A → ℕ
  tally p [] = 0
  tally p (x ∷ xs) = (if p x then 1 else 0) + tally p xs

  -- A predicate by recursion, which the tactics read.
  abbrev pub All {κ} : (A → Type κ) → List A → Type κ
  All P [] = Unit
  All P (x ∷ xs) = P x × All P xs

  pub length-append : (xs ys : List A) → length (xs ++ ys) ≡ length xs + length ys
  length-append [] ys = omega arith
  length-append (x ∷ xs) ys = omega (arith, length-append xs ys)

  pub tally-append : (p : A → Bool) (xs ys : List A) → tally p (xs ++ ys) ≡ tally p xs + tally p ys
  tally-append p [] ys = omega arith
  tally-append p (x ∷ xs) ys = ground (arith, tally-append p xs ys)

  -- Taking one entry out takes its own count away, and nothing else.
  pub tally-erase_at :
      (p : A → Bool) (xs : List A) (i : ℕ) (x : A)
      → get_elem? xs i ≡ some x
      → tally p xs ≡ (if p x then 1 else 0) + tally p (erase_at xs i)
  tally-erase_at p [] i x h = ground arith
  tally-erase_at p (y ∷ ys) zero x h = ground arith
  tally-erase_at p (y ∷ ys) (suc i) x h = ground (arith, tally-erase_at p ys i x)

  pub length-erase_at :
      (xs : List A) (i : ℕ) (x : A)
      → get_elem? xs i ≡ some x
      → length xs ≡ suc (length (erase_at xs i))
  length-erase_at [] i x h = ground arith
  length-erase_at (y ∷ ys) zero x h = refl
  length-erase_at (y ∷ ys) (suc i) x h = ground (arith, length-erase_at ys i x)

  pub All-append {κ} : (P : A → Type κ) (xs ys : List A) → All P xs → All P ys → All P (xs ++ ys)
  All-append P [] ys h k = k
  All-append P (x ∷ xs) ys h k = (h.0, All-append P xs ys h.1 k)

  pub All-get {κ} :
      (P : A → Type κ) (xs : List A) (i : ℕ) (x : A) → All P xs → get_elem? xs i ≡ some x → P x
  All-get P [] i x h e = absurd (ground arith)
  All-get P (y ∷ ys) zero x h e = ground (arith, h.0)
  All-get P (y ∷ ys) (suc i) x h e = All-get P ys i x h.1 e

  pub All-erase_at {κ} : (P : A → Type κ) (xs : List A) (i : ℕ) → All P xs → All P (erase_at xs i)
  All-erase_at P [] i h = h
  All-erase_at P (y ∷ ys) zero h = h.1
  All-erase_at P (y ∷ ys) (suc i) h = (h.0, All-erase_at P ys i h.1)

  pub tally_all : (p : A → Bool) (xs : List A) → All (λ x. p x ≡ true) xs → tally p xs ≡ length xs
  tally_all p [] h = refl
  tally_all p (x ∷ xs) h = ground (arith, tally_all p xs h.1, h.0)

  pub tally_none : (p : A → Bool) (xs : List A) → All (λ x. p x ≡ false) xs → tally p xs ≡ 0
  tally_none p [] h = refl
  tally_none p (x ∷ xs) h = ground (arith, tally_none p xs h.1, h.0)

module _ {ℓ κ μ} {A : Type ℓ} (P : A → Type κ) (Q : A → Type μ) where
  pub All-map : (f : (x : A) → P x → Q x) (xs : List A) → All P xs → All Q xs
  All-map f [] h = tt
  All-map f (x ∷ xs) h = (f x h.0, All-map f xs h.1)

module _ {ℓ} {A : Type ℓ} where
  pub length-tally : (xs : List A) → length xs ≡ tally (λ _. true) xs
  length-tally [] = refl
  length-tally (x ∷ xs) = omega (arith, length-tally xs)

-- Selecting by a test, and cutting a page out.
module _ {ℓ} {A : Type ℓ} where
  pub keep-same : (f g : A → Bool) (xs : List A) → ((x : A) → f x ≡ g x) → keep f xs ≡ keep g xs
  keep-same f g [] h = refl
  keep-same f g (x ∷ xs) h = ground (arith, h x, keep-same f g xs h)

  pub tally-same : (f g : A → Bool) (xs : List A) → ((x : A) → f x ≡ g x) → tally f xs ≡ tally g xs
  tally-same f g [] h = refl
  tally-same f g (x ∷ xs) h = ground (arith, h x, tally-same f g xs h)

  pub keep_none : (f : A → Bool) (xs : List A) → ((x : A) → f x ≡ false) → keep f xs ≡ []
  keep_none f [] h = refl
  keep_none f (x ∷ xs) h = ground (arith, h x, keep_none f xs h)

  pub none_kept : (f : A → Bool) (xs : List A) → ((x : A) → f x ≡ false) → tally f xs ≡ 0
  none_kept f [] h = refl
  none_kept f (x ∷ xs) h = ground (arith, h x, none_kept f xs h)

  pub drop-nil : (n : ℕ) → drop {A = A} n [] ≡ []
  drop-nil zero = refl
  drop-nil (suc n) = refl

  pub take-nil : (n : ℕ) → take {A = A} n [] ≡ []
  take-nil zero = refl
  take-nil (suc n) = refl

  pub length-take : (n : ℕ) (xs : List A) → length (take n xs) ≤ n
  length-take zero xs = omega arith
  length-take (suc n) [] = omega arith
  length-take (suc n) (x ∷ xs) = omega (arith, length-take n xs)

pub length-map {ℓ κ} :
    {A : Type ℓ} {B : Type κ} (f : A → B) (xs : List A) → length (map f xs) ≡ length xs
length-map f [] = refl
length-map f (x ∷ xs) = omega (arith, length-map f xs)

-- `iter().min_by_key(key)`: the first of the entries with the least key.
module _ {ℓ} {A : Type ℓ} (key : A → ℕ) where
  abbrev pub min_from : A → List A → A
  min_from best [] = best
  min_from best (x ∷ xs) = min_from (if ltb (key x) (key best) then x else best) xs

  abbrev pub min_by_key : List A → Option A
  min_by_key [] = none
  min_by_key (x ∷ xs) = some (min_from x xs)
