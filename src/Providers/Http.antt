-- ===== src/Providers/Http.antt =====
-- verifier_providers/http_client.py, SafeHttpJsonClient: one POST with its checks and its retries.
-- The network, the URL parser and the JSON parser are arguments.
pub mod Calls
use verification_engine.Audit.Counts.{get_field}
use verification_engine.Base.{
  Bool, List, Option, Result, String, [], bool_eq, contains, err, if◌then◌else◌, lower, ltb, nat_eq,
  none, nonempty, not, ok, option_eq, or_empty, some, string_eq, strip, suc, text_take, truthy,
  zero, ℕ, ◌&&◌, ◌+◌, ◌<>◌, ◌==◌, ◌∷◌,
}
use verification_engine.Json.{Fields, Json, bytes, dict, end, field, flag, list, null, number, text}

-- SafeHttpClientError
-- An exception of another class has its name as the code.
pub record HttpError : Type 0 where
  pub code : String
  pub message : String
  pub http_status : Option ℕ

pub record HttpJsonResponse (F : Type 0) : Type 0 where
  pub payload : Fields F
  pub http_status : Option ℕ
  pub retry_count : ℕ

-- `urlparse`: the scheme, and the hostname where there is one
pub record Url : Type 0 where
  pub scheme : String
  pub hostname : Option String

-- A body: its length in bytes, and what `json.loads` makes of it, none where that raises.
pub record Body (F : Type 0) : Type 0 where
  pub size : ℕ
  pub loaded : Option (Json F)

-- What `urlopen` and the reading of its response do: a response, an HTTPError, another URLError, a
-- socket.timeout, or an exception that `post_json` does not catch, by its class and its text.
pub data Reply (F : Type 0) : Type 0 where
  answered : Option ℕ → Body F → Reply F
  http_error : ℕ → String → Body F → Reply F
  url_error : Bool → String → Reply F
  socket_timeout : String → Reply F
  uncaught : String → String → Reply F

-- How an attempt ends: with a result of the call, or with the error to raise if it was the last.
pub data Attempt (F : Type 0) : Type 0 where
  done : Result HttpError (HttpJsonResponse F) → Attempt F
  failed_once : HttpError → Attempt F

abbrev pub raised : {F : Type 0} → String → String → Option ℕ → Result HttpError F
raised code message http_status =
    err (record { code = code; message = message; http_status = http_status })

abbrev pub blocked_domain : String → HttpError
blocked_domain message = record { code = "blocked_domain"; message = message; http_status = none }

abbrev pub not_allowlisted : String → HttpError
not_allowlisted host = blocked_domain ("Provider host '" <> host <> "' is not allowlisted.")

abbrev pub request_too_large : HttpError
request_too_large = record {
  code = "request_too_large";
  message = "Outbound provider request exceeded the configured size limit.";
  http_status = none;
}

abbrev pub lowered : List String → List String
lowered [] = []
lowered (d ∷ ds) = let rest = lowered ds in if truthy d then lower d ∷ rest else rest

-- `_validate_url`
unfoldable pub validate_url : Url → List String → Result HttpError Unit
validate_url url domain_allowlist =
    let host = lower (or_empty url.hostname) in
    let allowed = lowered domain_allowlist in
    if not (contains ("http" ∷ "https" ∷ []) url.scheme)
    then err (blocked_domain "Only HTTP and HTTPS provider URLs are allowed.")
    else if not (truthy host)
    then err (blocked_domain "Provider URL is missing a hostname.")
    else if nonempty allowed && not (contains allowed host)
    then err (not_allowlisted host)
    else ok tt

abbrev pub too_large : {A : Type 0} → Option ℕ → Result HttpError A
too_large status =
    raised "response_too_large" "Provider response exceeded the configured size limit." status

-- The call's result, and how many requests were sent.
abbrev pub CallResult : Type 0 → Type 0
CallResult F = Result HttpError (HttpJsonResponse F) × ℕ

module _ {F : Type 0} where
  abbrev pub as_payload : Json F → Fields F
  as_payload null = field "data" null end
  as_payload (flag b) = field "data" (flag b) end
  as_payload (number n) = field "data" (number n) end
  as_payload (text s) = field "data" (text s) end
  as_payload bytes = field "data" bytes end
  as_payload (list items) = field "data" (list items) end
  as_payload (dict fields) = fields

  abbrev pub parsed : Option (Json F) → Result HttpError (Fields F)
  parsed none = raised "invalid_json" "Provider returned a non-JSON response." none
  parsed (some x) = ok (as_payload x)

  -- `_parse_json`
  unfoldable pub parse_json : Body F → Result HttpError (Fields F)
  parse_json body = if body.size == 0 then ok end else parsed body.loaded

  abbrev pub text_or : Option (Json F) → Option String → Option String
  text_or none other = other
  text_or (some null) other = other
  text_or (some (flag b)) other = other
  text_or (some (number n)) other = other
  text_or (some (text s)) other = if truthy (strip s) then some (text_take 240 (strip s)) else other
  text_or (some bytes) other = other
  text_or (some (list items)) other = other
  text_or (some (dict fields)) other = other

  -- `_safe_error_message`
  unfoldable pub safe_error_message : Fields F → String → String
  safe_error_message payload fallback = or_empty (
      text_or (get_field "error" payload) (
        text_or (get_field "message" payload)
          (text_or (get_field "detail" payload) (some (text_take 240 fallback)))))

  abbrev pub with_payload :
      Option ℕ → ℕ → Result HttpError (Fields F) → Result HttpError (HttpJsonResponse F)
  with_payload status attempt (err e) = err e
  with_payload status attempt (ok payload) =
      ok (record { payload = payload; http_status = status; retry_count = attempt })

  abbrev pub status_error : ℕ → String → Fields F → HttpError
  status_error code message payload = record {
    code = "http_error";
    message = safe_error_message payload message;
    http_status = some code;
  }

  abbrev pub after_error : ℕ → String → Result HttpError (Fields F) → Attempt F
  after_error code message (err e) = done (err e)
  after_error code message (ok payload) =
      if ltb code 500
      then done (err (status_error code message payload))
      else failed_once (status_error code message payload)

  -- The body of the loop; an error that is raised in it is not one of those it catches.
  unfoldable pub settle_reply : (response_size_limit_bytes attempt : ℕ) → Reply F → Attempt F
  unfolding parse_json
  settle_reply limit attempt (answered status body) =
      if ltb limit body.size
      then done (too_large status)
      else done (with_payload status attempt (parse_json body))
  settle_reply limit attempt (http_error code message body) =
      if ltb limit body.size
      then done (too_large (some code))
      else after_error code message (parse_json body)
  settle_reply limit attempt (url_error is_timeout reason) = failed_once (record {
    code = if is_timeout then "timeout" else "network_error";
    message = reason;
    http_status = none;
  })
  settle_reply limit attempt (socket_timeout message) =
      failed_once (record { code = "timeout"; message = message; http_status = none })
  settle_reply limit attempt (uncaught name message) =
      done (err (record { code = name; message = message; http_status = none }))

  abbrev pub go_on : ℕ → Attempt F → (HttpError → CallResult F) → CallResult F
  go_on attempt (done result) next = (result, attempt + 1)
  go_on attempt (failed_once e) next = next e

  -- `for attempt in range(attempts)` from `attempt` on, with as many attempts after it as `left`
  unfoldable pub attempts_from : ℕ → (ℕ → Reply F) → (left attempt : ℕ) → CallResult F
  unfolding settle_reply
  attempts_from limit send zero attempt =
      go_on attempt (settle_reply limit attempt (send attempt)) (λ e. (err e, attempt + 1))
  attempts_from limit send (suc left) attempt =
      go_on attempt (settle_reply limit attempt (send attempt))
        (λ _. attempts_from limit send left (attempt + 1))

  -- `post_json`: `request_size` is the length of the encoded payload, and `send` what the network
  -- does at each attempt.
  unfoldable pub post_json :
      (request_size_limit_bytes response_size_limit_bytes : ℕ)
      → Url
      → (request_size retry_budget : ℕ) → List String
      → (ℕ → Reply F)
      → CallResult F
  unfolding validate_url attempts_from
  post_json request_limit response_limit url request_size retry_budget domain_allowlist send =
      elim (validate_url url domain_allowlist) [
        | err e ↦ (err e, 0)
        | ok _ ↦
            if ltb request_limit request_size
            then (err request_too_large, 0)
            else attempts_from response_limit send retry_budget 0
      ]
