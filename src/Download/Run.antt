-- ===== src/Download/Run.antt =====
-- src/download.cpp: the loops, and the download from the first read to the publication.
use karu.Base.{
  ℕ, zero, suc, ◌+◌, ◌-◌, ◌/◌, ◌%◌, min, Bool, true, false, not, ◌&&◌, ◌||◌, Option, none, some,
  List, [], ◌∷◌, ◌++◌, ◌==◌, if◌then◌else◌, Expected, value, unexpected, ◌>>=◌, length,
}
use karu.Transfer.{Status, err_io, err_cancelled}
use karu.Download.{
  Slot, DownloadSettings, DownloadSummary, Stats, Running, Visit, status_ok, probe_size, chunk_part,
  add_stats, visit_index,
}

-- The visits that are left of a round, from `step` on.
unfoldable pub visit_each :
    DownloadSettings → (ℕ → Visit) → ℕ → ℕ → Bool → Running → Expected Status (Running × Bool)
unfolding visit_index
visit_each settings visits zero step completed_one d = value (d, completed_one)
visit_each settings visits (suc left) step completed_one d =
    visit_index settings ((d.wait_cursor + step) % length d.slots) (visits step) d >>= λ r.
    visit_each settings visits left (step + 1) (completed_one || r.1) r.0

unfoldable pub round : DownloadSettings → (ℕ → Visit) → Running → Expected Status Running
unfolding visit_each
round settings visits d = visit_each settings visits (length d.slots) 0 false d >>= λ r.
    value
      (if r.1 then r.0 else record r.0 { wait_cursor = (r.0.wait_cursor + 1) % length r.0.slots })

-- The loop over the rounds that there are answers for, with `none` where it still waits.
unfoldable pub run :
    DownloadSettings → List (ℕ → Visit) → Running → Expected Status (Option Running)
unfolding round
run settings [] d = if d.active == 0 then value (some d) else value none
run settings (visits ∷ rounds) d =
    let later = round settings visits d >>= λ next. run settings rounds next in
    if d.active == 0 then value (some d) else later

-- The slots are given the first chunks.
unfoldable pub submit_each : DownloadSettings → (ℕ → Status) → ℕ → Running → Expected Status Running
unfolding chunk_part
submit_each settings submitted zero d = value d
submit_each settings submitted (suc left) d =
    let slot : Slot = record { part = chunk_part settings d d.next_chunk; busy = true } in
    let later =
      submit_each settings submitted left
        (record d { slots = d.slots ++ slot ∷ []; next_chunk = d.next_chunk + 1 }) in
    if status_ok (submitted d.next_chunk) then later else unexpected (submitted d.next_chunk)

-- What the calls before the loop and after it answer.
pub record Answers : Type 0 where
  pub create_fails : Bool
  pub read_status : Status
  pub size : ℕ
  pub stats : Stats
  pub resize_fails : Bool
  pub probe_write_fails : Bool
  pub probe_cancelled : Bool
  pub submitted : ℕ → Status
  pub rounds : List (ℕ → Visit)
  pub publish_fails : Bool

abbrev pub probe_length_of : DownloadSettings → ℕ → ℕ
probe_length_of settings size = min (min settings.chunk_size probe_size) size

abbrev pub chunks_of : DownloadSettings → ℕ → ℕ
chunks_of settings remaining =
    if remaining == 0 then 0 else 1 + (remaining - 1) / settings.chunk_size

-- The state after the first read, with the first bytes in the file.
abbrev pub probed : DownloadSettings → DownloadSummary → Running
probed settings summary =
    let probe_length = probe_length_of settings summary.size in
    record {
      summary = if probe_length == 0 then summary else record summary { downloaded = probe_length };
      probe_length = probe_length;
      chunks = chunks_of settings (summary.size - probe_length);
      next_chunk = 0;
      slots = [];
      active = 0;
      wait_cursor = 0;
      written = if probe_length == 0 then [] else record { offset = 0; length = probe_length } ∷ [];
    }

-- The download up to the first chunk.
unfoldable pub start_download :
    DownloadSettings → Answers → DownloadSummary → Expected Status Running
unfolding add_stats
start_download settings a summary =
    let d = probed settings (add_stats (record summary { size = a.size }) a.stats) in
    if a.create_fails
    then unexpected err_io
    else if not (status_ok a.read_status)
    then unexpected a.read_status
    else if a.resize_fails
    then unexpected err_io
    else if not (d.probe_length == 0) && a.probe_write_fails
    then unexpected err_io
    else if not (d.probe_length == 0) && a.probe_cancelled
    then unexpected err_cancelled
    else value d

-- The file is published when the loop is over.
abbrev pub publish : Bool → Option Running → Expected Status (Option Running)
publish fails none = value none
publish fails (some d) = if fails then unexpected err_io else value (some d)

-- The state as the file is published, with `none` where the download still waits.
unfoldable pub download :
    DownloadSettings → Answers → DownloadSummary → Expected Status (Option Running)
unfolding run submit_each start_download
download settings a summary = do
  d ← start_download settings a summary
  started ← submit_each settings a.submitted (min settings.parallelism d.chunks) d
  finished ← run settings a.rounds (record started { active = length started.slots })
  publish a.publish_fails finished
