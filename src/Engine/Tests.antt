-- ===== src/Engine/Tests.antt =====
-- A transfer that is attempted again and again, and reads of a file of eight bytes.
use karu.Base.{
  ℕ, zero, suc, ◌+◌, ◌-◌, ◌≤◌, ◌<◌, ◌≡◌, ◌≢◌, ◌⊎◌, ◌↔◌, refl, subst, true, false, Option, none,
  some, List, [], ◌∷◌, codes, min, u64_max, value, inl, arith,
}
use karu.Uri.{Resolved, file, to_end}
use karu.Transfer.{Transfer, ok}
use karu.Scatter.{Heap}
use karu.Planner.Bounds.{IsLaidOut}
use karu.Batch.{empty_batch}
use karu.Batch.Deliver.{Ended, deliver}
use karu.Http.Classify.{curl_ok, succeeded}
use karu.Http.Tests.{fresh}
use karu.Http.ResumeTests.{urls, no_date}
use karu.Engine.Retry.{Running, Message, count_attempt, end_attempt}
use karu.Engine.Budget.{
  TransferAttempt, goes_on, reports_ok, run_attempts, run_attempts_finishes, end_attempt-ok_iff,
}
use karu.Engine.Files.{Pread, interrupted, got, read_all, visible_size, read_file, file_status}
use karu.Engine.Local.{local_read, read_file_ends, LocalRead}
use karu.Engine.Reads.{IsPread}
use karu.Engine.Copies.{Delivered}
use karu.Engine.Delivered.{local_read-delivers}
use karu.Engine.Ends.{Has, read_file_ends-Has}

abbrev unattempted : Running
unattempted = record {
  response = fresh;
  region_hint = [];
  region_retried = false;
  credentials_retried = false;
  credentials_ready = true;
  attempt = 0;
  unreachable_attempts = 0;
  counters = record {
    new_connections = 0;
    throttled = 0;
    retries = 0;
    resumed = 0;
    credential_refreshes = 0;
  };
}

-- A server that is unavailable.
abbrev unavailable : Message
unavailable = record {
  code = curl_ok;
  status = 503;
  connects = 1;
  expired = false;
  can_wait = λ delay. true;
  jitter = λ n. n;
  error = [];
}

-- The same again, with a body of one byte.
abbrev refusal : TransferAttempt
refusal = record {
  region = [];
  handed = record {
    url = codes "https://h/k";
    now = 0;
    lines = codes "HTTP/1.1 503 Slow Down\r\n" ∷ [];
    status = 503;
    body_length = none;
    object = λ k. 0;
    body = λ k. 65;
    sizes = 1 ∷ [];
    planned = true;
  };
  message = unavailable;
}

abbrev refusals : List TransferAttempt
refusals = refusal ∷ refusal ∷ refusal ∷ []

run_attempts_finishes_example :
    ((run_attempts urls no_date 4096 1 refusals unattempted).0 ≤ 1 + 1)
    × (goes_on (run_attempts urls no_date 4096 1 refusals unattempted).1 ≡ false)
run_attempts_finishes_example =
    run_attempts_finishes urls no_date 4096 1 refusals unattempted (omega arith) refl (omega arith)

end_attempt-ok_iff_example :
    (reports_ok (end_attempt 4 unavailable unattempted).1 ≡ true)
    ↔ (succeeded (count_attempt unavailable unattempted).response curl_ok ≡ true)
end_attempt-ok_iff_example = end_attempt-ok_iff 4 unavailable unattempted

abbrev stored : ℕ → ℕ
stored k = 65 + k

-- The first call is interrupted, and each other call stores two bytes at most.
abbrev two_at_most : ℕ → ℕ → ℕ → Pread
two_at_most zero n o = interrupted
two_at_most (suc k) n o = got (min (min n 2) (8 - o))

two_at_most-IsPread : IsPread two_at_most 8 2
two_at_most-IsPread = record {
  in_count = in_count;
  in_file = in_file;
  at_end = at_end;
  calm = calm;
}
  where
    in_count : (k n o m : ℕ) → two_at_most k n o ≡ got m → m ≤ n
    in_count zero n o m h = ground arith
    in_count (suc k) n o m h = ground arith

    in_file : (k n o m : ℕ) → two_at_most k n o ≡ got m → m ≤ 8 - o
    in_file zero n o m h = ground arith
    in_file (suc k) n o m h = ground arith

    at_end : (k n o : ℕ) → two_at_most k n o ≡ got 0 → (n ≡ 0) ⊎ (8 ≤ o)
    at_end zero n o h = ground arith
    at_end (suc k) n o h = ground arith

    calm : (k : ℕ) → (j : ℕ) × (j < 2) × ((n o : ℕ) → two_at_most (k + j) n o ≢ interrupted)
    calm zero = (1, omega arith, λ n o h. ground arith)
    calm (suc k) = (
      0,
      omega arith,
      λ n o h.
          let stores : two_at_most (suc k) n o ≡ interrupted =
            subst (λ x. two_at_most x n o ≡ interrupted) {y = suc k} (omega arith) h in
          ground arith,
    )

abbrev object : Resolved
object = record {
  backend = file;
  canonical_uri = codes "/data";
  target = codes "/data";
  container = [];
  key = [];
  azure_dfs = false;
  window_offset = 1;
  window_length = to_end;
}

-- Eight bytes from byte 3 on, of which the file has five.
abbrev two_parts : Transfer
two_parts = record {
  locator = record { resolved = object };
  offset = 3;
  length = 8;
  parts =
      record { relative_offset = 0; length = 2; buffer = some 1000; tag = 1; owned = false }
      ∷ record { relative_offset = 4; length = 4; buffer = some 2000; tag = 2; owned = false }
      ∷ [];
  if_match = [];
  scattered = true;
}

two_parts-IsLaidOut : IsLaidOut two_parts
two_parts-IsLaidOut = record {
  not_empty = omega arith;
  fits = omega arith;
  length_fits = omega arith;
  inside = ((omega arith, omega arith), ((omega arith, omega arith), tt));
  in_order = ((omega arith, tt), (tt, tt));
  direct = λ h. ground arith;
}

abbrev allocated : ℕ → Option ℕ
allocated n = some 5000

abbrev no_memory_yet : Heap
no_memory_yet address = 0

local : LocalRead
unfolding local_read read_all
local =
    local_read two_at_most stored 2 allocated none false (λ k. false) false two_parts no_memory_yet

abbrev local_end : Ended
local_end = record {
  transfer = two_parts;
  received = 5;
  scratch = some (λ i. local.heap (5000 + i));
  status = ok;
  detail = [];
}

local-ends : local.ends ≡ some local_end
unfolding local
local-ends = refl

local_read-delivers_example :
    (local_end.received ≡ min 8 (8 - 3))
    × Delivered stored two_parts local_end (deliver local_end (empty_batch, local.heap)).1
unfolding local
local_read-delivers_example =
    local_read-delivers two_parts stored 8 2 two_at_most allocated none (λ k. false) no_memory_yet
      empty_batch local_end two_parts-IsLaidOut ((inl (omega arith), tt), (tt, tt))
      two_at_most-IsPread refl (λ k. refl) local-ends refl

both_ends :
    (read_file_ends two_at_most stored 2 (value 8) none object 100 3 200 3 no_memory_yet).size
    ≡ some 7
unfolding read_file_ends read_file read_all file_status visible_size
both_ends = refl

visible_fits : object.window_offset + visible_size object 8 ≤ u64_max
unfolding visible_size
visible_fits = omega arith

apart : (100 + min 3 (visible_size object 8) ≤ 200) ⊎ (200 + min 3 (visible_size object 8) ≤ 100)
apart = inl (omega arith)

read_file_ends-Has_example :
    let after =
      (read_file_ends two_at_most stored 2 (value 8) none object 100 3 200 3 no_memory_yet).heap in
    (◌≡◌ {A = ℕ} 7 (visible_size object 8))
    × Has stored after 1 (min 3 (visible_size object 8)) 100
    × Has stored after
        (1 + visible_size object 8 - min 3 (visible_size object 8))
        (min 3 (visible_size object 8))
        200
read_file_ends-Has_example =
    read_file_ends-Has two_at_most stored 8 2 two_at_most-IsPread object 8 100 3 200 3 7
      no_memory_yet visible_fits apart both_ends
