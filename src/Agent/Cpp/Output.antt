-- ===== src/Agent/Cpp/Output.antt =====
-- What is read of an output that is cut one byte past its limit.
use oj_monorepo.Base.{
  ℕ, ◌+◌, ◌≤◌, ◌<◌, ◌≡◌, ◌∙◌, ap, leb, if_cases, String, len, slice, is_char_boundary, true, Result,
  ok, err, u64_mod, arith, subst,
}
use oj_monorepo.Agent.Cpp.{capped, read_capped}

-- A text cut at a boundary has the length asked for.
cut-long :
    (n : ℕ) (s t : String)
    → is_char_boundary s (n + 1) ≡ true
    → slice s 0 (n + 1) ≡ t
    → ¬ (len t ≤ n)
cut-long n s t c e l = ground arith

-- A text that is still short after the cut has not been cut.
capped-short : (n : ℕ) (s t : String) → capped (n + 1) s ≡ ok t → len t ≤ n → s ≡ t
unfolding capped
capped-short n s t h l =
    if_cases (λ (r : Result String String). r ≡ ok t → s ≡ t) (leb (len s) (n + 1)) (ok s) _
      (λ e k. cc)
      (λ e.
        if_cases (λ (r : Result String String). r ≡ ok t → s ≡ t) (is_char_boundary s (n + 1))
          (ok (slice s 0 (n + 1))) _ (λ c k. absurd (cut-long n s t c (cc) l)) (λ c k. absurd (cc)))
      h

capped-whole : (n : ℕ) (s : String) → len s ≤ n → capped (n + 1) s ≡ ok s
unfolding capped
capped-whole n s l = ground arith

pub read_capped-short :
    (n : ℕ) (output : Result String String) (t : String)
    → n + 1 < u64_mod
    → read_capped n output ≡ ok t
    → len t ≤ n
    → output ≡ ok t
unfolding read_capped
read_capped-short n (err e) t b h l = absurd (cc)
read_capped-short n (ok s) t b h l =
    ap ok (capped-short n s t (subst (λ m. capped m s ≡ ok t) (omega (arith, b)) h) l)

pub read_capped-whole :
    (n : ℕ) (output : Result String String) (t : String)
    → n + 1 < u64_mod
    → output ≡ ok t
    → len t ≤ n
    → read_capped n output ≡ ok t
unfolding read_capped
read_capped-whole n (err e) t b h l = absurd (cc)
read_capped-whole n (ok s) t b h l =
    subst (λ m. capped m s ≡ ok t) (omega (arith, b))
      (capped-whole n s (subst (λ v. len v ≤ n) (cc) l) ∙ h)
