-- ===== src/Engine/Budget.antt =====
-- A transfer ends: its attempts are bounded, and it is reported as read only where an attempt succeeded.
use karu.Base.{
  ℕ, ◌+◌, ◌-◌, ◌≤◌, ◌<◌, ◌≡◌, refl, ◌↔◌, Bool, true, false, List, [], ◌∷◌, Option, Bytes, length,
  if◌then◌else◌, arith,
}
use karu.Text.{redact_url}
use karu.Http.Headers.{UrlApi}
use karu.Http.Attempts.{Attempt, attempt}
use karu.Http.Failures.{is_ok_status, failure-ok}
use karu.Http.Classify.{succeeded}
use karu.Engine.Retry.{
  Running, Next, finished, refresh, Message, count_attempt, find_region, other_region,
  count_unreachable, has_attempt, next_attempt, wait_or_stop, retry_transfer, end_attempt,
}

abbrev pub goes_on : Next → Bool
goes_on (finished status detail) = false
goes_on _ = true

abbrev one_if_not : Bool → ℕ
one_if_not true = 0
one_if_not false = 1

-- The retries that a transfer may still have.
abbrev pub budget : ℕ → Running → ℕ
budget max_attempts t =
    max_attempts - 1 - t.attempt + one_if_not t.region_retried + one_if_not t.credentials_retried

count_attempt-budget :
    (max_attempts : ℕ) (m : Message) (t : Running)
    → budget max_attempts (find_region (count_attempt m t)) ≡ budget max_attempts t
unfolding count_attempt find_region
count_attempt-budget max_attempts m t = ground arith

retry_transfer-budget :
    (max_attempts : ℕ) (m : Message) (t : Running)
    → goes_on (retry_transfer max_attempts m t).1 ≡ true
    → budget max_attempts (retry_transfer max_attempts m t).0 < budget max_attempts t
unfolding retry_transfer other_region count_unreachable has_attempt next_attempt wait_or_stop
retry_transfer-budget max_attempts m t h = ground arith

end_attempt-budget :
    (max_attempts : ℕ) (m : Message) (t : Running)
    → goes_on (end_attempt max_attempts m t).1 ≡ true
    → budget max_attempts (end_attempt max_attempts m t).0 < budget max_attempts t
unfolding end_attempt
end_attempt-budget max_attempts m t h = ground (
  arith,
  count_attempt-budget max_attempts m t,
  retry_transfer-budget max_attempts m (find_region (count_attempt m t)),
)

-- An attempt of a transfer: the region that `start_transfer` prepares the request for, what libcurl hands
-- over, and what it says when it is done.
pub record TransferAttempt : Type 0 where
  pub region : Bytes
  pub handed : Attempt
  pub message : Message

module _ {Url : Type 0} (api : UrlApi Url) (getdate : Bytes → Option ℕ) (fallback_limit : ℕ) where
  -- The transfer when libcurl is done: its credentials were there, its response was reset, and the
  -- callbacks have made a new one of it.
  unfoldable pub attempted : TransferAttempt → Running → Running
  attempted a t = record t {
    response = attempt api getdate fallback_limit a.handed t.response;
    region_hint = a.region;
    credentials_ready = true;
  }

  -- The attempts of a transfer until it is finished: how many of them it goes on after, and what is done
  -- with it after the last.
  unfoldable pub run_attempts : ℕ → List TransferAttempt → Running → ℕ × Next
  run_attempts max_attempts [] t = (0, refresh)
  run_attempts max_attempts (a ∷ later) t =
      let (t', next) = end_attempt max_attempts a.message (attempted a t) in
      let (n, last) = run_attempts max_attempts later t' in
      if goes_on next then (n + 1, last) else (0, next)

  attempted-budget :
      (max_attempts : ℕ) (a : TransferAttempt) (t : Running)
      → budget max_attempts (attempted a t) ≡ budget max_attempts t
  unfolding attempted
  attempted-budget max_attempts a t = refl

  run_attempts-budget :
      (max_attempts : ℕ) (attempts : List TransferAttempt) (t : Running)
      → (run_attempts max_attempts attempts t).0 ≤ budget max_attempts t
  unfolding run_attempts
  run_attempts-budget max_attempts [] t = omega arith
  run_attempts-budget max_attempts (a ∷ later) t = ground (
    arith,
    attempted-budget max_attempts a t,
    end_attempt-budget max_attempts a.message (attempted a t),
    run_attempts-budget max_attempts later (end_attempt max_attempts a.message (attempted a t)).0,
  )

  run_attempts-ends :
      (max_attempts : ℕ) (attempts : List TransferAttempt) (t : Running)
      → budget max_attempts t < length attempts
      → goes_on (run_attempts max_attempts attempts t).1 ≡ false
  unfolding run_attempts
  run_attempts-ends max_attempts [] t h = absurd (omega arith)
  run_attempts-ends max_attempts (a ∷ later) t h = ground (
    arith,
    attempted-budget max_attempts a t,
    end_attempt-budget max_attempts a.message (attempted a t),
    run_attempts-ends max_attempts later (end_attempt max_attempts a.message (attempted a t)).0,
  )

  -- Where at least one attempt is allowed, a transfer that has not been attempted goes on after at most
  -- `max_attempts` + 1 attempts and is then finished, whatever libcurl hands over and says in each of
  -- them, and whatever region it is prepared for: after the retries, one attempt for another region and
  -- one with new credentials.
  pub run_attempts_finishes :
      (max_attempts : ℕ) (attempts : List TransferAttempt) (t : Running)
      → 1 ≤ max_attempts
      → t.attempt ≡ 0
      → max_attempts + 1 < length attempts
      → ((run_attempts max_attempts attempts t).0 ≤ max_attempts + 1)
        × (goes_on (run_attempts max_attempts attempts t).1 ≡ false)
  run_attempts_finishes max_attempts attempts t allowed fresh more =
      let few : budget max_attempts t ≤ max_attempts + 1 = ground arith in
      (
        omega (arith, run_attempts-budget max_attempts attempts t),
        run_attempts-ends max_attempts attempts t (omega arith),
      )

abbrev pub reports_ok : Next → Bool
reports_ok (finished status detail) = is_ok_status status
reports_ok _ = false

retry_transfer-ok :
    (max_attempts : ℕ) (m : Message) (t : Running)
    → reports_ok (retry_transfer max_attempts m t).1 ≡ false
unfolding retry_transfer wait_or_stop
retry_transfer-ok max_attempts m t =
    let counted = count_unreachable m.code t in
    ground
      (arith, failure-ok (redact_url counted.response.request_url) m.error counted.response m.code)

-- A transfer is reported as read exactly when the attempt that ends succeeded.
pub end_attempt-ok_iff :
    (max_attempts : ℕ) (m : Message) (t : Running)
    → (reports_ok (end_attempt max_attempts m t).1 ≡ true)
      ↔ (succeeded (count_attempt m t).response m.code ≡ true)
unfolding end_attempt
end_attempt-ok_iff max_attempts m t =
    let other = retry_transfer-ok max_attempts m (find_region (count_attempt m t)) in
    (λ h. ground arith, λ h. ground arith)
