-- ===== src/Transfer.antt =====
-- transfer.hpp, batch.hpp, locator.hpp, config.hpp and karu.h: the options of a client, the requests
-- of a batch, the transfers that serve them, and the completions that report them.
use karu.Base.{ℕ, Bool, Option, List, Bytes}
use karu.Uri.{Resolved}

-- karu_status, without the prefix KARU_.
pub data Status : Type 0 where
  ok end timeout err_uri err_unsupported err_invalid err_nomem err_io err_network err_http : Status
  err_range err_auth err_cancelled err_config err_credentials err_not_found : Status
  err_precondition : Status

pub record Locator : Type 0 where
  pub resolved : Resolved

-- A `void*` is an address, with `none` for nullptr; a tag is never read, so it is a number.
pub record Request : Type 0 where
  pub locator : Locator
  pub offset : ℕ
  pub length : ℕ
  pub buffer : Option ℕ
  pub tag : ℕ
  pub if_match : Bytes

-- `owned` says that `owned_buffer` holds the buffer.
pub record Part : Type 0 where
  pub relative_offset : ℕ
  pub length : ℕ
  pub buffer : Option ℕ
  pub tag : ℕ
  pub owned : Bool

-- The members of a Transfer that the planner sets.
pub record Transfer : Type 0 where
  pub locator : Locator
  pub offset : ℕ
  pub length : ℕ
  pub parts : List Part
  pub if_match : Bytes
  pub scattered : Bool

pub record Completion : Type 0 where
  pub tag : ℕ
  pub status : Status
  pub got : ℕ
  pub buffer : Option ℕ
  pub detail : Bytes

pub record ClientOptions : Type 0 where
  pub concurrency : ℕ
  pub io_threads : ℕ
  pub coalesce_gap : ℕ
  pub coalesce_limit : ℕ
  pub coalesce_parts : ℕ
  pub coalesce_amplification : ℕ
  pub range_fallback_limit : ℕ
  pub max_attempts : ℕ
  pub request_timeout_seconds : ℕ
  pub connect_timeout_seconds : ℕ
  pub low_speed_time_seconds : ℕ
  pub low_speed_limit : ℕ
