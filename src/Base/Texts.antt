-- ===== src/Base/Texts.antt =====
-- Where one text ends inside another.
use Prim.Native.Nat.add
use Prim.Native.Nat.{ℕ, suc, ◌+◌, ◌-◌}
use Prim.Native.Char.{Char, len_utf8}
use Prim.Native.String.append
use Prim.Native.String.len
use Prim.Native.String.slice
use Prim.Native.String.{String, [], ◌∷◌, ◌++◌, len, slice}
use mathlib.Core.Path.{◌≡◌, sym, ◌∙◌, ap}
use mathlib.Core.Bool.{true}
use native.Mathlib.Nat.{add_assoc, add-sub_cancel_left}
use text.Mathlib.Text.{starts_with}
use text.Mathlib.TextEquality.{starts_with_iff, slice-prefix}
use text.Mathlib.TextPositions.{
  len_utf8-pos, len-append, slice-append_left, slice_all, slice-append_middle, starts_with-append,
}
pub use text.Mathlib.TextLemmas.{append-nil}
pub use text.Mathlib.TextPositions.{slice-append_middle, starts_with-append, len-append}

-- The first character of a text passed over.
slice-rest :
    (c : Char) (u : String) (a b : ℕ)
    → slice (c ∷ u) (len_utf8 c + a) (len_utf8 c + b) ≡ slice u a b
slice-rest c u a b =
    let (k, e) = len_utf8-pos c in
    let q : len_utf8 c + a ≡ suc (k + a) = ap (λ w. w + a) e ∙ add.suc k a in
    ap (λ x. slice (c ∷ u) x (len_utf8 c + b)) q
    ∙ slice.cons-suc c u (k + a) (len_utf8 c + b)
    ∙ ap (λ x. slice u (x - len_utf8 c) (len_utf8 c + b - len_utf8 c)) (sym q)
    ∙ ap (λ x. slice u x (len_utf8 c + b - len_utf8 c)) (add-sub_cancel_left (len_utf8 c) a)
    ∙ ap (λ x. slice u a x) (add-sub_cancel_left (len_utf8 c) b)

-- What follows a first text is the beginning of the second.
slice-append_after : (s t : String) (k : ℕ) → slice (s ++ t) (len s) (len s + k) ≡ slice t 0 k
slice-append_after [] t k =
    ap (λ v. slice v (len []) (len [] + k)) (append.nil t)
    ∙ ap (λ n. slice t n (n + k)) len.nil
    ∙ ap (slice t 0) (add.zero k)
slice-append_after (c ∷ s) t k =
    ap (λ v. slice v (len (c ∷ s)) (len (c ∷ s) + k)) (append.cons c s t)
    ∙ ap (λ n. slice (c ∷ (s ++ t)) n (n + k)) (len.cons c s)
    ∙ ap (λ n. slice (c ∷ (s ++ t)) (len_utf8 c + len s) n) (add_assoc (len_utf8 c) (len s) k)
    ∙ slice-rest c (s ++ t) (len s) (len s + k)
    ∙ slice-append_after s t k

-- A text that starts with another one of its length is that one.
pub starts_with-same : (s t : String) → starts_with s t ≡ true → len s ≡ len t → s ≡ t
starts_with-same s t h e =
    let (u, q) = (starts_with_iff s t).0 h in
    sym (slice_all s)
    ∙ ap (slice s 0) e
    ∙ ap (λ v. slice v 0 (len t)) (sym q)
    ∙ slice-append_left t u

-- A text that starts with another, and goes on with a third, is made of them and a rest.
pub starts_with-then :
    (s t x : String)
    → starts_with s t ≡ true
    → slice s (len t) (len t + len x) ≡ x
    → (w : String) × (s ≡ t ++ (x ++ w))
starts_with-then s t x h e =
    let (u, q) = (starts_with_iff s t).0 h in
    let (w, r) = slice-prefix u (len x) in
    (
      w,
      sym q
          ∙ ap (λ v. t ++ v)
              (sym r
                ∙ ap (λ v. v ++ w)
                    (sym (slice-append_after t u (len x))
                      ∙ ap (λ v. slice v (len t) (len t + len x)) q
                      ∙ e)),
    )
