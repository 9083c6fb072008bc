-- ===== src/Config/Limits.antt =====
-- The ranges of the options of a client that freeze lets through.
use karu.Base.{
  ℕ, ◌-◌, ◌^◌, ◌≤◌, ◌≡◌, ap, inl, inr, [], Bytes, Option-cases, Expected, value, unexpected, ◌>>=◌,
  >>=-eq-value, After, on_value, on_error, After-value, After-intro, u64_max, arith,
}
use karu.Transfer.{ClientOptions}
use karu.Config.Builder.{ConfigBuilder}
use karu.Config.Snapshot.{option}
use karu.Config.Values.{
  Integer, int, long, uint64, from_chars, parse_integer, validate_values, pos, negsuc,
}
use karu.Config.Freeze.{ConfigSnapshot, global, client_options, validate_rules, freeze}
use karu.Planner.Limits.{IsOptions}

abbrev pub Between : ℕ → ℕ → ℕ → Type 0
Between minimum maximum n = (minimum ≤ n) × (n ≤ maximum)

pub record InRange (options : ClientOptions) : Type 0 where
  pub concurrency : Between 1 4096 options.concurrency
  pub io_threads : Between 1 64 options.io_threads
  pub coalesce_gap : options.coalesce_gap ≤ u64_max
  pub coalesce_limit : Between 1 u64_max options.coalesce_limit
  pub coalesce_parts : Between 1 1048576 options.coalesce_parts
  pub coalesce_amplification : Between 1 1048576 options.coalesce_amplification
  pub range_fallback_limit : options.range_fallback_limit ≤ u64_max
  pub max_attempts : Between 1 16 options.max_attempts
  pub request_timeout : options.request_timeout_seconds ≤ 86400
  pub connect_timeout : Between 1 3600 options.connect_timeout_seconds
  pub low_speed_time : options.low_speed_time_seconds ≤ 3600
  pub low_speed_limit : options.low_speed_limit ≤ 2 ^ 63 - 1

parse_integer-value :
    (type : Integer) (name text : Bytes) (minimum maximum n : ℕ)
    → parse_integer type name text minimum maximum ≡ value n
    → Between minimum maximum n
unfolding parse_integer
parse_integer-value type name text minimum maximum n h =
    elim (Option-cases (from_chars type text)) [
      | inl e ↦ ground arith
      | inr ((pos m, rest), e) ↦ (ground arith, ground arith)
      | inr ((negsuc m, rest), e) ↦ ground arith
    ]

-- The options of a client from the twelve integers that were read.
gathered-InRange :
    {m1 m2 m3 m4 m5 m6 m7 m8 m9 m10 m11 m12 : Expected Bytes ℕ}
    → After (Between 1 4096) m1
    → After (Between 1 64) m2
    → After (Between 0 u64_max) m3
    → After (Between 1 u64_max) m4
    → After (Between 1 1048576) m5
    → After (Between 1 1048576) m6
    → After (Between 0 u64_max) m7
    → After (Between 1 16) m8
    → After (Between 0 86400) m9
    → After (Between 1 3600) m10
    → After (Between 0 3600) m11
    → After (Between 0 long.largest) m12
    → After InRange (do
      concurrency ← m1
      io_threads ← m2
      gap ← m3
      limit ← m4
      parts ← m5
      amplification ← m6
      fallback ← m7
      attempts ← m8
      request ← m9
      connect ← m10
      time ← m11
      low ← m12
      value (record {
        concurrency = concurrency;
        io_threads = io_threads;
        coalesce_gap = gap;
        coalesce_limit = limit;
        coalesce_parts = parts;
        coalesce_amplification = amplification;
        range_fallback_limit = fallback;
        max_attempts = attempts;
        request_timeout_seconds = request;
        connect_timeout_seconds = connect;
        low_speed_time_seconds = time;
        low_speed_limit = low;
      }))
gathered-InRange (on_error e) _ _ _ _ _ _ _ _ _ _ _ = on_error e
gathered-InRange (on_value _ _) (on_error e) _ _ _ _ _ _ _ _ _ _ = on_error e
gathered-InRange (on_value _ _) (on_value _ _) (on_error e) _ _ _ _ _ _ _ _ _ = on_error e
gathered-InRange (on_value _ _) (on_value _ _) (on_value _ _) (on_error e) _ _ _ _ _ _ _ _ =
    on_error e
gathered-InRange (on_value _ _) (on_value _ _) (on_value _ _) (on_value _ _) (on_error e) _ _ _ _ _
      _ _ =
    on_error e
gathered-InRange (on_value _ _) (on_value _ _) (on_value _ _) (on_value _ _) (on_value _ _)
      (on_error e) _ _ _ _ _ _ =
    on_error e
gathered-InRange (on_value _ _) (on_value _ _) (on_value _ _) (on_value _ _) (on_value _ _)
      (on_value _ _) (on_error e) _ _ _ _ _ =
    on_error e
gathered-InRange (on_value _ _) (on_value _ _) (on_value _ _) (on_value _ _) (on_value _ _)
      (on_value _ _) (on_value _ _) (on_error e) _ _ _ _ =
    on_error e
gathered-InRange (on_value _ _) (on_value _ _) (on_value _ _) (on_value _ _) (on_value _ _)
      (on_value _ _) (on_value _ _) (on_value _ _) (on_error e) _ _ _ =
    on_error e
gathered-InRange (on_value _ _) (on_value _ _) (on_value _ _) (on_value _ _) (on_value _ _)
      (on_value _ _) (on_value _ _) (on_value _ _) (on_value _ _) (on_error e) _ _ =
    on_error e
gathered-InRange (on_value _ _) (on_value _ _) (on_value _ _) (on_value _ _) (on_value _ _)
      (on_value _ _) (on_value _ _) (on_value _ _) (on_value _ _) (on_value _ _) (on_error e) _ =
    on_error e
gathered-InRange (on_value _ _) (on_value _ _) (on_value _ _) (on_value _ _) (on_value _ _)
      (on_value _ _) (on_value _ _) (on_value _ _) (on_value _ _) (on_value _ _) (on_value _ _)
      (on_error e) =
    on_error e
gathered-InRange (on_value _ c) (on_value _ i) (on_value _ g) (on_value _ l) (on_value _ p)
      (on_value _ a) (on_value _ f) (on_value _ n) (on_value _ r) (on_value _ t) (on_value _ w)
      (on_value _ b) =
    on_value _ (record {
      concurrency = c;
      io_threads = i;
      coalesce_gap = g.1;
      coalesce_limit = l;
      coalesce_parts = p;
      coalesce_amplification = a;
      range_fallback_limit = f.1;
      max_attempts = n;
      request_timeout = r.1;
      connect_timeout = t;
      low_speed_time = w.1;
      low_speed_limit = b.1;
    })

global-Between :
    (type : Integer) (name fallback : Bytes) (minimum maximum : ℕ) (s : ConfigBuilder)
    → After (Between minimum maximum) (global type name fallback minimum maximum s)
unfolding global
global-Between type name fallback minimum maximum s =
    After-intro _ _ (parse_integer-value type name (option [] name fallback s) minimum maximum)

client_options-InRange : (s : ConfigBuilder) → After InRange (client_options s)
unfolding client_options
client_options-InRange s =
    gathered-InRange (global-Between int _ _ 1 4096 s) (global-Between int _ _ 1 64 s)
      (global-Between uint64 _ _ 0 u64_max s) (global-Between uint64 _ _ 1 u64_max s)
      (global-Between uint64 _ _ 1 1048576 s) (global-Between uint64 _ _ 1 1048576 s)
      (global-Between uint64 _ _ 0 u64_max s) (global-Between int _ _ 1 16 s)
      (global-Between long _ _ 0 86400 s) (global-Between long _ _ 1 3600 s)
      (global-Between long _ _ 0 3600 s) (global-Between long _ _ 0 long.largest s)

-- The options of a client that freeze makes are in their ranges, and so the planner's.
pub freeze-InRange :
    (version : Bytes) (b : ConfigBuilder) (s : ConfigSnapshot)
    → freeze version b ≡ value s
    → InRange s.client × IsOptions s.client
unfolding freeze
freeze-InRange version b s h =
    let (_, _, h1) = >>=-eq-value (validate_values b.environment) _ h in
    let (_, _, h2) = >>=-eq-value (validate_values b.explicit) _ h1 in
    let (_, _, h3) = >>=-eq-value (validate_rules b.paths) _ h2 in
    let (client, e, h4) = >>=-eq-value (client_options b) _ h3 in
    let ranges = After-value InRange (client_options b) client (client_options-InRange b) e in
    let made : client ≡ s.client =
      ap (λ r. elim r [ value t ↦ t.client | unexpected _ ↦ client ]) h4 in
    rw (← made) (
      ranges,
      record {
        some_part = ranges.coalesce_parts.0;
        some_amplification = ranges.coalesce_amplification.0;
      },
    )
