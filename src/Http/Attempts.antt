-- ===== src/Http/Attempts.antt =====
-- The attempts of a transfer: `configure` of runtime/transport.cpp resets the response, libcurl hands
-- over headers and a body, and the loop of runtime/engine.cpp plans what the retry keeps.
use karu.Base.{
  ℕ, ◌+◌, ◌<◌, ◌≤◌, ◌≡◌, ◌⊎◌, Bool, true, false, Option, List, [], ◌∷◌, Bytes, length, is_empty,
  ◌==◌, if◌then◌else◌, All,
}
use karu.Http.{Response, version_pin, is_success}
use karu.Http.Resume.{reset_response, plan_resume}
use karu.Http.Headers.{UrlApi, header_callback}
use karu.Http.Receive.{receive}
use karu.Http.Accept.{body_base}
use karu.Http.Prepared.{Strong}

-- What libcurl hands over in an attempt, from an object whose bytes are given; `planned` says whether the
-- loop then plans what to keep, which it does but before a retry with another region or with new
-- credentials.
pub record Attempt : Type 0 where
  pub url : Bytes
  pub now : ℕ
  pub lines : List Bytes
  pub status : ℕ
  pub body_length : Option ℕ
  pub object : ℕ → ℕ
  pub body : ℕ → ℕ
  pub sizes : List ℕ
  pub planned : Bool

-- What is relied on of a server and of libcurl in an attempt that has the state `h` behind its headers:
-- of a status of success only 200 and 206 have a body, which is the object's from where the status says
-- that it begins; an ETag names one version of the object; and without one in the response, If-Match was
-- obeyed. There are no empty chunks.
pub record Serves (content : Bytes → ℕ → ℕ) (a : Attempt) (h : Response) : Type 0 where
  pub body_is : (k : ℕ) → a.body k ≡ a.object (body_base a.status h + k)
  pub tagged : is_empty h.response_etag ≡ false → (k : ℕ) → a.object k ≡ content h.response_etag k
  pub obeys :
      is_empty h.response_etag ≡ true
      → Strong (version_pin h)
      → (k : ℕ) → a.object k ≡ content (version_pin h) k

pub record Answers (content : Bytes → ℕ → ℕ) (a : Attempt) (h : Response) : Type 0 where
  pub status_is : (a.status ≡ 200) ⊎ ((a.status ≡ 206) ⊎ (300 ≤ a.status))
  pub not_empty : All (λ n. 0 < n) a.sizes
  pub serves : is_success a.status ≡ true → Serves content a h

-- A status that no header gave is the one that libcurl knows.
unfoldable pub known_status : ℕ → Response → Response
known_status status r = if r.http_status == 0 then record r { http_status = status } else r

unfoldable pub replan : Bool → Response → Response
replan planned r = if planned then plan_resume r else r

module _ {Url : Type 0} (api : UrlApi Url) (getdate : Bytes → Option ℕ) where
  -- The callbacks for the lines of the headers, until one of them aborts, and whether none did.
  unfoldable pub read_headers : ℕ → List Bytes → Response → Response × Bool
  read_headers now [] r = (r, true)
  read_headers now (line ∷ lines) r =
      let (r', accepted) = header_callback api getdate now 1 (length line) line r in
      let later = read_headers now lines r' in
      if accepted == length line then later else (r', false)

  -- The response after its headers, and whether it goes on.
  unfoldable pub headed : ℕ → Attempt → Response → Response × Bool
  headed fallback_limit a r =
      read_headers a.now a.lines
        (record (reset_response r) { range_fallback_limit = fallback_limit; request_url = a.url })

  unfoldable pub attempt : ℕ → Attempt → Response → Response
  unfolding known_status
  attempt fallback_limit a r =
      let (h, going) = headed fallback_limit a r in
      known_status a.status
        (if going then (receive a.status a.body_length a.body a.sizes 0 h).0 else h)

  unfoldable pub attempts : ℕ → List Attempt → Response → Response
  attempts fallback_limit [] r = r
  attempts fallback_limit (a ∷ later) r =
      attempts fallback_limit later (replan a.planned (attempt fallback_limit a r))

  -- Each of the attempts is answered so.
  abbrev pub AllAnswer : (Bytes → ℕ → ℕ) → ℕ → List Attempt → Response → Type 0
  AllAnswer content fallback_limit [] r = Unit
  AllAnswer content fallback_limit (a ∷ later) r =
      Answers content a (headed fallback_limit a r).0
      × AllAnswer content fallback_limit later (replan a.planned (attempt fallback_limit a r))
