-- ===== src/Http/Resumed.antt =====
-- A transfer that is read in several attempts has the bytes of one version of its object.
use karu.Base.{
  ℕ, ◌+◌, ◌<◌, ◌≤◌, ◌≡◌, ◌⊎◌, refl, sym, ◌∙◌, subst, Bool, true, false, Option, List, [], ◌∷◌,
  Bytes, length, ◌==◌, if◌then◌else◌, Bool-cases, inl, inr, arith, All, Expected-cases,
}
use karu.Transfer.{Transfer}
use karu.Scatter.{Sink}
use karu.Scatter.Stream.{IsReady, Full}
use karu.Http.{Response, version_pin, is_success}
use karu.Http.Write.{check_status}
use karu.Http.Accept.{check_status-refused}
use karu.Http.Receive.{receive, receive_fills}
use karu.Http.Resume.{reset_response}
use karu.Http.Headers.{UrlApi, header_callback}
use karu.Http.Prepared.{
  IsKept, IsOpen, SameRead-IsKept, header_callback-IsOpen, header_callback-SameRead,
}
use karu.Http.Keeps.{receive-failed}
use karu.Http.Planned.{IsAttempted, plan_resume-IsKept, fresh-IsKept}
use karu.Http.Pinned.{
  body-IsAttempted, kept-IsAttempted, error_or_success, reads, takes, refused_out,
}
use karu.Http.Attempts.{
  Attempt, Serves, Answers, AllAnswer, read_headers, headed, known_status, replan, attempt,
  attempts,
}

-- A transfer before its first attempt.
pub record IsNew (t : Transfer) (sink : ℕ) (r : Response) : Type 0 where
  pub transfer_is : r.transfer ≡ t
  pub sink_is : r.sink.sink ≡ sink
  pub resumed_is : r.resumed ≡ 0
  pub no_pin : r.resume_etag ≡ []

module _ (t : Transfer) (content : Bytes → ℕ → ℕ) (sink : ℕ) where
  known_status-IsAttempted :
      (status : ℕ) (r : Response)
      → IsAttempted t content sink r
      → IsAttempted t content sink (known_status status r)
  unfolding known_status version_pin
  known_status-IsAttempted status r k = elim (Bool-cases (r.http_status == 0)) [
    | inr e ↦ rw (e) k
    | inl e ↦ subst (IsAttempted t content sink) (ground arith) (record {
      kept =
          SameRead-IsKept t content sink r (record r { http_status = status }) (ground arith)
            k.kept;
      tag_strong = k.tag_strong;
      by_pin = k.by_pin;
      by_tag = k.by_tag;
    })
  ]

  replan-IsKept :
      (planned : Bool) (r : Response)
      → IsAttempted t content sink r
      → IsKept t content sink (replan planned r)
  unfolding replan
  replan-IsKept true r k = plan_resume-IsKept t content sink r k
  replan-IsKept false r k = k.kept

  new-IsKept : (r : Response) → 0 < t.length → IsNew t sink r → IsKept t content sink r
  new-IsKept r some_bytes n =
      fresh-IsKept t content sink r n.transfer_is n.sink_is some_bytes
        (λ e. ground (arith, n.no_pin)) n.resumed_is

  -- A body satisfies a transfer only with all of its bytes.
  body_fills :
      (a : Attempt) (h : Response) (sizes : List ℕ)
      → IsReady t sink
      → IsKept t content sink h
      → IsOpen h
      → (a.status ≡ 200) ⊎ ((a.status ≡ 206) ⊎ (300 ≤ a.status))
      → All (λ n. 0 < n) sizes
      → (is_success a.status ≡ true → Serves content a h)
      → let r = (receive a.status a.body_length a.body sizes 0 h).0 in
        r.satisfied ≡ true → All (Full (λ k. a.object (t.offset + k)) r.sink.heap) t.parts
  unfolding receive
  body_fills a h [] ready k open_is status_is more serves done = ground (arith, open_is.unsatisfied)
  body_fills a h (size ∷ sizes) ready k open_is status_is more serves done =
      elim (error_or_success a.status status_is) [
        | inl failed ↦
            let (_, _, going) =
              receive-failed a.status failed a.body_length a.body (size ∷ sizes) h
                open_is.unsatisfied open_is.unchecked in
            cc
        | inr (range, success) ↦ elim (Expected-cases (check_status a.status a.body_length h)) [
          | inl (c, checked) ↦
              (receive_fills t a.object a.body sink a.status a.body_length size sizes h ready range
                  (reads t content sink a h k open_is (serves success)
                    (takes t content sink a.status a.body_length h c checked success))
                  more.0 (serves success).body_is).1.0
                done
          | inr (c, refused) ↦
              let out =
                refused_out a.status a.body_length a.body h c size sizes open_is more.0 refused in
              let (_, going) = check_status-refused a.status a.body_length h c refused in
              ground (arith, open_is.unsatisfied)
        ]
      ]

  module _ {Url : Type 0} (api : UrlApi Url) (getdate : Bytes → Option ℕ) where
    read_headers-IsOpen :
        (now : ℕ) (lines : List Bytes) (r : Response)
        → IsOpen r × IsKept t content sink r
        → let h = (read_headers api getdate now lines r).0 in IsOpen h × IsKept t content sink h
    unfolding read_headers
    read_headers-IsOpen now [] r k = k
    read_headers-IsOpen now (line ∷ lines) r (open_is, k) =
        let next = header_callback api getdate now 1 (length line) line r in
        let one : IsOpen next.0 × IsKept t content sink next.0 = (
          header_callback-IsOpen api getdate now 1 (length line) line r open_is,
          SameRead-IsKept t content sink r next.0
              (header_callback-SameRead api getdate now 1 (length line) line r) k,
        ) in
        elim (Bool-cases (next.1 == length line)) [
          | inl e ↦ rw (e) (read_headers-IsOpen now lines next.0 one)
          | inr e ↦ rw (e) one
        ]

    headed-IsOpen :
        (limit : ℕ) (a : Attempt) (r : Response)
        → IsKept t content sink r
        → let h = (headed api getdate limit a r).0 in IsOpen h × IsKept t content sink h
    unfolding headed reset_response
    headed-IsOpen limit a r k =
        let start = record (reset_response r) {
          range_fallback_limit = limit;
          request_url = a.url;
        } in
        read_headers-IsOpen a.now a.lines start
          (ground arith, SameRead-IsKept t content sink r start (ground arith) k)

    attempt-IsAttempted :
        (limit : ℕ) (a : Attempt) (r : Response)
        → IsReady t sink
        → IsKept t content sink r
        → Answers content a (headed api getdate limit a r).0
        → IsAttempted t content sink (attempt api getdate limit a r)
    unfolding attempt
    attempt-IsAttempted limit a r ready k answers =
        let h = headed api getdate limit a r in
        let (open_is, kept) = headed-IsOpen limit a r k in
        elim (Bool-cases h.1) [
          | inl e ↦ rw (e) (
              known_status-IsAttempted a.status _ (
                body-IsAttempted t content sink a h.0 a.sizes ready kept open_is answers.status_is
                  answers.not_empty answers.serves))
          | inr e ↦ rw (e) (
              known_status-IsAttempted a.status h.0 (
                kept-IsAttempted t content sink h.0 h.0 kept open_is (ground arith) refl
                  (omega (arith, open_is.kept))))
        ]

    attempts-IsKept :
        (limit : ℕ) (before : List Attempt) (r : Response)
        → IsReady t sink
        → IsKept t content sink r
        → AllAnswer api getdate content limit before r
        → IsKept t content sink (attempts api getdate limit before r)
    unfolding attempts
    attempts-IsKept limit [] r ready k answers = k
    attempts-IsKept limit (a ∷ later) r ready k (answers, rest) =
        attempts-IsKept limit later (replan a.planned (attempt api getdate limit a r)) ready
          (replan-IsKept a.planned (attempt api getdate limit a r)
            (attempt-IsAttempted limit a r ready k answers))
          rest

known_status_lem :
    (status : ℕ) (r : Response)
    → ((known_status status r).sink ≡ r.sink) × ((known_status status r).satisfied ≡ r.satisfied)
unfolding known_status
known_status_lem status r = (ground arith, ground arith)

-- A transfer that is laid out, whose parts' buffers do not overlap, whose sink is their buffer
-- where it is not scattered, and that was not attempted before, is attempted any number of times,
-- each with any headers and with a body in chunks, none empty, of any sizes, that may end or be
-- aborted anywhere. The status of each attempt is 200, 206 or from 300 on, and no other status of
-- success. Where an attempt succeeds, the servers hand over the bytes of the object from where the
-- response says that they begin, name each version of the object by one ETag, and obey If-Match
-- where they name none. Then a last attempt that satisfies the transfer leaves in the buffer of
-- every part the bytes of the one version that this attempt reads, those that earlier attempts have
-- kept included.
pub attempts_fill :
    (t : Transfer) (content : Bytes → ℕ → ℕ) (sink : ℕ) {Url : Type 0} (api : UrlApi Url)
    (getdate : Bytes → Option ℕ) (limit : ℕ) (before : List Attempt) (last : Attempt) (r : Response)
    → IsReady t sink
    → IsNew t sink r
    → AllAnswer api getdate content limit before r
    → Answers content last (headed api getdate limit last (attempts api getdate limit before r)).0
    → (attempt api getdate limit last (attempts api getdate limit before r)).satisfied ≡ true
    → All
        (Full
          (λ k. last.object (t.offset + k))
          (attempt api getdate limit last (attempts api getdate limit before r)).sink.heap)
        t.parts
unfolding attempt
attempts_fill t content sink api getdate limit before last r ready new answers answer done =
    let start = attempts api getdate limit before r in
    let some_bytes = ready.laid_out.not_empty in
    let kept =
      attempts-IsKept t content sink api getdate limit before r ready
        (new-IsKept t content sink r some_bytes new) answers in
    let (open_is, k) = headed-IsOpen t content sink api getdate limit last start kept in
    let h = headed api getdate limit last start in
    let body = receive last.status last.body_length last.body last.sizes 0 h.0 in
    let (sink_is, done_is) = known_status_lem last.status (if h.1 then body.0 else h.0) in
    let holds = λ (s : Sink). All (Full (λ k. last.object (t.offset + k)) s.heap) t.parts in
    subst holds (sym sink_is) (elim (Bool-cases h.1) [
      | inl e ↦ rw (e) (
          body_fills t content sink last h.0 last.sizes ready k open_is answer.status_is
            answer.not_empty answer.serves (rw (e) at (sym done_is ∙ done)))
      | inr e ↦ ground (arith, open_is.unsatisfied)
    ])
