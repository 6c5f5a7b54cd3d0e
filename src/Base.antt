-- ===== src/Base.antt =====
-- The names that the components share: the libraries', passed on, and those of its children.
mod Tests
mod Lists
mod Texts
pub use Tests.*
pub use Lists.*
pub use Texts.*
pub use Prim.Native.Nat.{ℕ, zero, suc, ◌+◌, ◌-◌, ◌*◌, ◌/◌, ◌%◌, ◌^◌, ◌≤◌, ◌<◌, min, max}
pub use Prim.Native.String.{String, len, slice, ◌++◌ as str_append}
pub use text.Mathlib.Text.{◌==◌ as str_eq, starts_with, is_char_boundary}
pub use text.Mathlib.TextEquality.{eq_iff as str_eq_iff, starts_with_iff}
pub use mathlib.Core.Path.{◌≡◌, refl, sym, ap, subst, ◌∙◌}
pub use mathlib.Core.Logic.{◌≢◌, ◌↔◌, ◌⊎◌, inl, inr}
pub use mathlib.Core.Bool.{Bool, true, false, not, ◌&&◌, ◌||◌}
pub use mathlib.Core.Option.{Option, none, some}
pub use mathlib.Core.List.{List, [], ◌∷◌, ◌++◌, map}
pub use native.Mathlib.Omega.{arith}

-- Signed integers as the source's i32 values are passed on: no arithmetic is done on them.
-- `negsuc n` is -(n + 1).
pub data ℤ : Type 0 where
  pos : ℕ → ℤ
  negsuc : ℕ → ℤ

abbrev pub u32_mod : ℕ
u32_mod = 2 ^ 32

abbrev pub u64_mod : ℕ
u64_mod = 2 ^ 64

-- The source's `Result`.
pub data Result {ℓ κ} (A : Type ℓ) (E : Type κ) : Type (ℓ ⊔ κ) where
  ok : A → Result A E
  err : E → Result A E

abbrev pub is_ok {ℓ κ} : {A : Type ℓ} {E : Type κ} → Result A E → Bool
is_ok (ok a) = true
is_ok (err e) = false

-- The source's `?`.
abbrev pub and_then {ℓ κ μ} :
    {A : Type ℓ} {B : Type κ} {E : Type μ} → Result A E → (A → Result B E) → Result B E
and_then (ok a) f = f a
and_then (err e) f = err e

pub and_then-ok {ℓ κ μ} :
    {A : Type ℓ} {B : Type κ} {E : Type μ} (r : Result A E) (f : A → Result B E) (b : B)
    → and_then r f ≡ ok b
    → (a : A) × (r ≡ ok a) × (f a ≡ ok b)
and_then-ok (ok a) f b h = (a, refl, h)
and_then-ok (err e) f b h = absurd (cc)

pub and_then-of {ℓ κ μ} :
    {A : Type ℓ} {B : Type κ} {E : Type μ} (r : Result A E) (f : A → Result B E) (a : A) (b : B)
    → r ≡ ok a
    → f a ≡ ok b
    → and_then r f ≡ ok b
and_then-of (ok a') f a b h k = subst (λ x. f x ≡ ok b) (cc) k
and_then-of (err e) f a b h k = absurd (cc)

-- Where an absent value is an error, a result has had it.
pub found-ok {ℓ κ μ} :
    {A : Type ℓ} {B : Type κ} {E : Type μ} (o : Option A) (e : E) (f : A → Result B E) (b : B)
    → (elim o [ none ↦ err e | some a ↦ f a ]) ≡ ok b
    → (a : A) × (o ≡ some a) × (f a ≡ ok b)
found-ok none e f b h = absurd (cc)
found-ok (some a) e f b h = (a, refl, h)

pub ok-inj {ℓ κ} : {A : Type ℓ} {E : Type κ} (a b : A) → Path (Result A E) (ok a) (ok b) → a ≡ b
ok-inj a b h = cc
