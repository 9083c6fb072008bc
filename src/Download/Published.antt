-- ===== src/Download/Published.antt =====
-- A file that is published has every byte of the object, each written once.
use karu.Base.{
  ℕ, ◌-◌, ◌*◌, ◌≤◌, ◌<◌, ◌≡◌, refl, sym, ap, subst, ◌∙◌, inl, inr, min, Bool, Option, none, some,
  List, [], ◌∷◌, ltb, if◌then◌else◌, value, >>=-eq-value, u64_max, After-value, length, total,
  arith,
}
use karu.Download.{Slot, DownloadSettings, DownloadSummary, Stats, Running, add_stats}
use karu.Download.Run.{
  run, submit_each, Answers, download, probed, chunks_of, start_download, publish,
}
use karu.Download.Cover.{covers, in_slot, busy_count, to_come, Covered, chunks-end}
use karu.Download.Rounds.{run-Over, Over}
use karu.Download.Filling.{Filling, submit_each-Filling, started-Covered, probed-Filling}

module _ (settings : DownloadSettings) (pos : 0 < settings.chunk_size) (whole : ℕ) where
  no_slot : (x : ℕ) (slots : List Slot) → total busy_count slots ≡ 0 → total (in_slot x) slots ≡ 0
  no_slot x [] h = refl
  no_slot x (slot ∷ slots) h = ground (arith, no_slot x slots)

  Covered-over :
      (d : Running) (x : ℕ)
      → Covered settings whole d
      → d.active ≡ 0
      → total (covers x) d.written ≡ (if ltb x whole then 1 else 0)
  Covered-over d x h over =
      let slots = no_slot x d.slots (sym h.active_is ∙ over) in
      let before = h.each x in
      let done : to_come settings d x ≡ 0 = elim h.idle [
        | inl e ↦
            let end = chunks-end settings.chunk_size (d.summary.size - d.probe_length) pos in
            let last : d.next_chunk * settings.chunk_size
                ≡ chunks_of settings (d.summary.size - d.probe_length) * settings.chunk_size =
              ap (λ n. n * settings.chunk_size) (sym e ∙ h.chunks_are) in
            let probe = h.probe_fits in rw last (ground arith)
        | inr (busy, some_slot) ↦ let is = h.active_is in ground arith
      ] in
      rw (← h.of_size) (omega arith)

start_download-value :
    (settings : DownloadSettings) (a : Answers) (summary : DownloadSummary) (d : Running)
    → start_download settings a summary ≡ value d
    → d ≡ probed settings (add_stats (record summary { size = a.size }) a.stats)
unfolding start_download
start_download-value settings a summary d h = ground arith

publish-value :
    (fails : Bool) (finished : Option Running) (d : Running)
    → publish fails finished ≡ value (some d)
    → finished ≡ some d
publish-value fails none d h = ground arith
publish-value fails (some other) d h = ground arith

add_stats-size :
    (summary : DownloadSummary) (stats : Stats) → (add_stats summary stats).size ≡ summary.size
unfolding add_stats
add_stats-size summary stats = refl

-- A download with chunks that are not empty and at least one at a time, of an object whose size is in
-- the range of a uint64_t, that publishes its file has written every byte of the object to it exactly
-- once, and no byte behind it, whatever the order in which its chunks were read.
pub download-covers :
    (settings : DownloadSettings) (a : Answers) (summary : DownloadSummary) (d : Running) (x : ℕ)
    → 0 < settings.chunk_size
    → 0 < settings.parallelism
    → a.size ≤ u64_max
    → download settings a summary ≡ value (some d)
    → total (covers x) d.written ≡ (if ltb x a.size then 1 else 0)
unfolding download
download-covers settings a summary d x pos par fits h =
    let read : DownloadSummary = record summary { size = a.size } in
    let counted = add_stats read a.stats in
    let (d0, e0, h0) = >>=-eq-value (start_download settings a summary) _ h in
    let (started, e1, h1) =
      >>=-eq-value (submit_each settings a.submitted (min settings.parallelism d0.chunks) d0) _
        h0 in
    let begun : Running = record started { active = length started.slots } in
    let (finished, e2, h2) = >>=-eq-value (run settings a.rounds begun) _ h1 in
    let filling =
      subst (λ d. Filling settings pos a.size (min settings.parallelism d.chunks) d)
        (sym (start_download-value settings a summary d0 e0))
        (probed-Filling settings pos a.size counted (add_stats-size read a.stats) fits) in
    let filled =
      After-value (Filling settings pos a.size 0) _ started
        (submit_each-Filling settings pos a.size a.submitted _ d0 filling) e1 in
    let over =
      After-value (Over settings pos a.size) (run settings a.rounds begun) (some d)
        (run-Over settings pos a.size a.rounds begun
          (started-Covered settings pos a.size started par filled))
        (e2 ∙ ap value (publish-value a.publish_fails finished d h2)) in
    Covered-over settings pos a.size d x over.0 over.1
