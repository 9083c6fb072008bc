-- ===== src/Http/Retries.antt =====
-- src/runtime/http_response.cpp: the bounds of `retry_delay`, what `succeeded` and `transient` have to do
-- with each other, and the bytes of a summary.
use karu.Base.{
  ℕ, zero, suc, ◌*◌, ◌^◌, ◌≤◌, ◌≡◌, refl, min, Bool, true, false, not, ◌&&◌, [], ◌∷◌, ◌++◌, Bytes,
  codes, is_empty, leb, ltb, length, ◌==◌, if◌then◌else◌, All, All-append, Bool-cases, inl, inr,
  arith,
}
use karu.Http.{Response}
use karu.Http.Classify.{
  summarize_from, summarize, retry_delay, succeeded, transient, is_ok, is_transient_code, CurlCode,
  curl_ok,
}

-- The first seven powers of two.
power_range : (k : ℕ) → k ≤ 6 → (1 ≤ 2 ^ k) × (2 ^ k ≤ 64)
power_range zero h = (ground arith, ground arith)
power_range (suc zero) h = (ground arith, ground arith)
power_range (suc (suc zero)) h = (ground arith, ground arith)
power_range (suc (suc (suc zero))) h = (ground arith, ground arith)
power_range (suc (suc (suc (suc zero)))) h = (ground arith, ground arith)
power_range (suc (suc (suc (suc (suc zero))))) h = (ground arith, ground arith)
power_range (suc (suc (suc (suc (suc (suc zero)))))) h = (ground arith, ground arith)
power_range (suc (suc (suc (suc (suc (suc (suc k))))))) h = ground arith

-- A retry waits at least a tenth of a second and what the server asked for up to a minute, and at most
-- 61 seconds, where the random numbers are in their range.
pub retry_delay-bounds :
    (attempt retry_after : ℕ)
    → (jitter : ℕ → ℕ) → ((n : ℕ) → jitter n ≤ n)
    → (100 ≤ retry_delay attempt retry_after jitter)
      × (1000 * min retry_after 60 ≤ retry_delay attempt retry_after jitter)
      × (retry_delay attempt retry_after jitter ≤ 61000)
unfolding retry_delay
retry_delay-bounds attempt retry_after jitter small =
    let (low, high) = power_range (min attempt 6) (omega arith) in
    let asked = small 1000 in
    let waited = small (100 * 2 ^ min attempt 6) in
    elim (Bool-cases (ltb 0 (min retry_after 60))) [
      | inl e ↦ (ground arith, ground arith, ground arith)
      | inr e ↦ (ground arith, ground arith, ground arith)
    ]

if_elim :
    {A : Type 0} → (P : A → Type 0) → (b : Bool) → {x y : A} → P x → P y → P (if b then x else y)
if_elim P true hx hy = hx
if_elim P false hx hy = hy

summarize_from-All :
    (body : Bytes) (pending_space : Bool) (result : Bytes)
    → All (λ c. 32 ≤ c) result
    → All (λ c. 32 ≤ c) (summarize_from body pending_space result)
unfolding summarize_from
summarize_from-All [] pending_space result plain = plain
summarize_from-All (c ∷ body) pending_space result plain =
    let Plain = All (λ (c : ℕ). 32 ≤ c) in
    let spaced = if pending_space && not (is_empty result) then result ++ codes " " else result in
    let h =
      if_elim Plain (pending_space && not (is_empty result))
        (All-append _ result (codes " ") plain (omega arith, tt)) plain in
    elim (Bool-cases (leb c 32)) [
      | inl e ↦ (rw (e) (summarize_from-All body true result plain))
      | inr e ↦
          let longer = All-append _ spaced (c ∷ []) h (ground arith, tt) in
          (rw (e) (
            if_elim Plain (length (spaced ++ c ∷ []) == 200) longer
              (summarize_from-All body false (spaced ++ c ∷ []) longer)))
    ]

-- A summary has no control characters.
pub summarize-All : (body : Bytes) → All (λ c. 32 ≤ c) (summarize body)
unfolding summarize
summarize-All body = summarize_from-All body false [] tt

never_both : (code : CurlCode) → is_ok code && is_transient_code code ≡ false
never_both curl_ok = refl
never_both _ = refl

-- Of a transfer that succeeded without being satisfied neither the code nor the status is transient.
pub succeeded-transient :
    (r : Response) (code : CurlCode)
    → succeeded r code ≡ true
    → r.satisfied ≡ false
    → transient code r.http_status ≡ false
unfolding succeeded transient
succeeded-transient r code done going = let once = never_both code in ground arith
