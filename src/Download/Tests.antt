-- ===== src/Download/Tests.antt =====
-- An object of ten bytes, downloaded in chunks of four of which two are read at a time.
use karu.Base.{ℕ, ◌≡◌, refl, true, false, some, [], ◌∷◌, ltb, if◌then◌else◌, value, total, arith}
use karu.Transfer.{ok}
use karu.Download.{
  DownloadPart, Slot, DownloadSettings, DownloadSummary, Stats, Running, Visit, completed,
  add_saturated, add_stats, chunk_part, refill, store, visit_slot, visit_index,
}
use karu.Download.Run.{Answers, visit_each, round, run, submit_each, start_download, download}
use karu.Download.Cover.{covers}
use karu.Download.Published.{download-covers}

abbrev settings : DownloadSettings
settings = record { chunk_size = 4; parallelism = 2 }

abbrev no_stats : Stats
no_stats = record {
  received_bytes = 0;
  retries = 0;
  throttled = 0;
  new_connections = 0;
  resumed = 0;
  credential_refreshes = 0;
}

abbrev summary : ℕ → ℕ → DownloadSummary
summary size downloaded = record {
  size = size;
  downloaded = downloaded;
  received_bytes = 0;
  retries = 0;
  throttled = 0;
  new_connections = 0;
  resumed = 0;
  credential_refreshes = 0;
}

-- A visit that completes a chunk of some bytes.
abbrev done : ℕ → Visit
done got = record {
  answer = completed ok true got;
  write_fails = false;
  cancelled = false;
  stats_status = ok;
  stats = no_stats;
  submitted = ok;
}

abbrev answers : Answers
answers = record {
  create_fails = false;
  read_status = ok;
  size = 10;
  stats = no_stats;
  resize_fails = false;
  probe_write_fails = false;
  probe_cancelled = false;
  submitted = λ _. ok;
  rounds = (λ _. done 4) ∷ (λ _. done 2) ∷ [];
  publish_fails = false;
}

abbrev part : ℕ → ℕ → DownloadPart
part offset length = record { offset = offset; length = length }

abbrev idle : DownloadPart → Slot
idle p = record { part = p; busy = false }

abbrev final : Running
final = record {
  summary = summary 10 10;
  probe_length = 4;
  chunks = 2;
  next_chunk = 2;
  slots = idle (part 4 4) ∷ idle (part 8 2) ∷ [];
  active = 0;
  wait_cursor = 0;
  written = part 0 4 ∷ part 4 4 ∷ part 8 2 ∷ [];
}

downloaded : download settings answers (summary 0 0) ≡ value (some final)
unfolding download start_download run round visit_each submit_each visit_index visit_slot store
    refill chunk_part add_stats add_saturated
downloaded = refl

download-covers_example : total (covers 7) final.written ≡ (if ltb 7 10 then 1 else 0)
download-covers_example =
    download-covers settings answers (summary 0 0) final 7 (omega arith) (omega arith) (omega arith)
      downloaded
