-- ===== src/Providers/Http/Calls.antt =====
-- verifier_providers/http_client.py, post_json: which requests are sent, and which reply decides.
use mathlib.Core.Path.{subst}
use verification_engine.Base.{
  Bool, List, Option, Result, String, [], ap, arith, bool_eq, contains, err, false, if_either,
  if◌then◌else◌, inl, inr, lower, ltb, nat_eq, none, nonempty, not, ok, option_eq, or_empty, refl,
  some, string_eq, suc, sym, true, truthy, zero, ℕ, ◌&&◌, ◌+◌, ◌==◌, ◌||◌, ◌∙◌, ◌∷◌, ◌≡◌, ◌≤◌, ◌⊎◌,
}
use verification_engine.Json.{Json, end}
use verification_engine.Providers.Http.{
  Attempt, CallResult, HttpError, HttpJsonResponse, Reply, Url, after_error, answered, as_payload,
  attempts_from, blocked_domain, done, failed_once, go_on, http_error, lowered, not_allowlisted,
  parse_json, parsed, post_json, request_too_large, settle_reply, socket_timeout, status_error,
  too_large, uncaught, url_error, validate_url, with_payload,
}

abbrev pub is_json : {F : Type 0} → Option (Json F) → Bool
is_json none = false
is_json (some x) = true

-- A reply after which another attempt may help: no connection, a timeout, or a server's error
-- whose body is empty or JSON and not too large.
abbrev pub is_transient : {F : Type 0} → ℕ → Reply F → Bool
is_transient limit (answered status body) = false
is_transient limit (http_error code message body) =
    not (ltb limit body.size) && (body.size == 0 || is_json body.loaded) && not (ltb code 500)
is_transient limit (url_error is_timeout reason) = true
is_transient limit (socket_timeout message) = true
is_transient limit (uncaught name message) = false

-- The first replies, from a given attempt on, are transient.
abbrev pub all_transient : {F : Type 0} → ℕ → (ℕ → Reply F) → (number from : ℕ) → Bool
all_transient limit send zero from = true
all_transient limit send (suc n) from =
    is_transient limit (send from) && all_transient limit send n (from + 1)

-- What the call comes to if this attempt is the last.
abbrev pub ending : {F : Type 0} → Attempt F → Result HttpError (HttpJsonResponse F)
ending (done result) = result
ending (failed_once e) = err e

abbrev pub may_retry : {F : Type 0} → Attempt F → Bool
may_retry (done result) = false
may_retry (failed_once e) = true

retried :
    (F : Type 0) (client_error : Bool) (e : HttpError)
    → may_retry {F = F} (if client_error then done (err e) else failed_once e) ≡ not client_error
retried F true e = refl
retried F false e = refl

parsed_retry :
    {F : Type 0} (empty : Bool) (loaded : Option (Json F)) (code : ℕ) (message : String)
    → may_retry (after_error code message (if empty then ok end else parsed loaded))
      ≡ ((empty || is_json loaded) && not (ltb code 500))
parsed_retry {F} true loaded code message = retried F (ltb code 500) (status_error code message end)
parsed_retry false none code message = refl
parsed_retry false (some x) code message =
    retried _ (ltb code 500) (status_error code message (as_payload x))

settle_reply-transient :
    {F : Type 0} (limit attempt : ℕ) (reply : Reply F)
    → may_retry (settle_reply limit attempt reply) ≡ is_transient limit reply
unfolding settle_reply parse_json
settle_reply-transient {F} limit attempt (answered status body) =
    if_either (λ (a : Attempt F). may_retry a ≡ false) (ltb limit body.size)
      (done (too_large status)) (done (with_payload status attempt (parse_json body))) (λ _. refl)
      (λ _. refl)
settle_reply-transient limit attempt (http_error code message body) =
    ground (arith, parsed_retry (body.size == 0) body.loaded code message)
settle_reply-transient limit attempt (url_error is_timeout reason) = refl
settle_reply-transient limit attempt (socket_timeout message) = refl
settle_reply-transient limit attempt (uncaught name message) = refl

-- The requests that are sent: `last` of them before the one at `place` that decides, which is the
-- first one whose reply is not transient, or the last one of the budget.
pub record IsDecidedBy {F : Type 0} (limit : ℕ) (send : ℕ → Reply F) (left from last place : ℕ)
    (c : CallResult F) : Type 0 where
  pub position : place ≡ from + last
  pub within_budget : last ≤ left
  pub earlier : all_transient limit send last from ≡ true
  pub final : (is_transient limit (send place) ≡ false) ⊎ (last ≡ left)
  pub result : c.0 ≡ ending (settle_reply limit place (send place))
  pub sent : c.1 ≡ place + 1

module _ {F : Type 0} (limit : ℕ) (send : ℕ → Reply F) where
  decided_last :
      (from : ℕ) (a : Attempt F)
      → settle_reply limit from (send from) ≡ a
      → IsDecidedBy limit send zero from zero from (go_on from a (λ e. (err e, from + 1)))
  decided_last from (done r) e = record {
    position = omega arith;
    within_budget = omega arith;
    earlier = refl;
    final = inr refl;
    result = ap ending (sym e);
    sent = refl;
  }
  decided_last from (failed_once x) e = record {
    position = omega arith;
    within_budget = omega arith;
    earlier = refl;
    final = inr refl;
    result = ap ending (sym e);
    sent = refl;
  }

  decided_first :
      (left from : ℕ) (a : Attempt F) (next : CallResult F)
      → settle_reply limit from (send from) ≡ a
      → ((last place : ℕ) × IsDecidedBy limit send left (from + 1) last place next)
      → (last place : ℕ) × IsDecidedBy limit send
          (suc left)
          from
          last
          place
          (go_on from a (λ _. next))
  decided_first left from (done r) next e later = (
    zero,
    from,
    record {
      position = omega arith;
      within_budget = omega arith;
      earlier = refl;
      final = inl (sym (settle_reply-transient limit from (send from)) ∙ ap may_retry e);
      result = ap ending (sym e);
      sent = refl;
    },
  )
  decided_first left from (failed_once x) next e (last, place, d) = (
    suc last,
    place,
    record {
      position = omega (arith, d.position);
      within_budget = omega (arith, d.within_budget);
      earlier =
          ground (
            arith,
            sym (settle_reply-transient limit from (send from)) ∙ ap may_retry e,
            d.earlier,
          );
      final = elim d.final [ inl p ↦ inl p | inr p ↦ inr (ap suc p) ];
      result = d.result;
      sent = d.sent;
    },
  )

  attempts_from-IsDecidedBy :
      (left from : ℕ)
      → (last place : ℕ) × IsDecidedBy limit send left from last place
          (attempts_from limit send left from)
  unfolding attempts_from
  attempts_from-IsDecidedBy zero from = (zero, from, decided_last from _ refl)
  attempts_from-IsDecidedBy (suc left) from =
      decided_first left from _ _ refl (attempts_from-IsDecidedBy left (from + 1))

-- What is never sent: an address that is no HTTP address with a host on the allowlist, if there is
-- one, and a payload that is too large.
abbrev pub is_blocked : (request_limit request_size : ℕ) → Url → List String → Bool
is_blocked request_limit request_size url domain_allowlist =
    not (contains ("http" ∷ "https" ∷ []) url.scheme)
    || not (truthy (lower (or_empty url.hostname)))
    || nonempty (lowered domain_allowlist)
      && not (contains (lowered domain_allowlist) (lower (or_empty url.hostname)))
    || ltb request_limit request_size

abbrev gate :
    {A : Type 0}
    → (scheme host listed large : Bool) (a b c d : HttpError) → Result HttpError A × ℕ
    → Result HttpError A × ℕ
gate scheme host listed large a b c d next =
    elim (if scheme then err a else if host then err b else if listed then err c else ok tt) [
      | err e ↦ (err e, 0)
      | ok _ ↦ if large then (err d, 0) else next
    ]

gated :
    {A : Type 0} (scheme host listed large : Bool) (a b c d : HttpError)
    (next : Result HttpError A × ℕ)
    → ((scheme || host || listed || large ≡ true)
        × ((e : HttpError) × (gate scheme host listed large a b c d next ≡ (err e, 0))))
      ⊎ ((scheme || host || listed || large ≡ false)
          × (gate scheme host listed large a b c d next ≡ next))
gated true host listed large a b c d next = inl (refl, (a, refl))
gated false true listed large a b c d next = inl (refl, (b, refl))
gated false false true large a b c d next = inl (refl, (c, refl))
gated false false false true a b c d next = inl (refl, (d, refl))
gated false false false false a b c d next = inr (refl, refl)

-- For every call, with its limits, budget, allowlist and network: either it is blocked, it raises
-- and no request is sent; or it is not, and between one request and one more than the retry budget
-- are sent, all replies before the last one are transient, the last one is not or the budget is
-- spent, and the call gives or raises what that last reply comes to.
pub post_json-IsDecidedBy :
    {F : Type 0} (request_limit response_limit : ℕ) (url : Url) (request_size retry_budget : ℕ)
    (domain_allowlist : List String) (send : ℕ → Reply F)
    → ((is_blocked request_limit request_size url domain_allowlist ≡ true)
        × ((e : HttpError) × (post_json request_limit response_limit url request_size retry_budget
                domain_allowlist send
              ≡ (err e, 0))))
      ⊎ ((is_blocked request_limit request_size url domain_allowlist ≡ false)
          × ((last place : ℕ) × IsDecidedBy response_limit send retry_budget 0 last place (
                post_json request_limit response_limit url request_size retry_budget
                  domain_allowlist send)))
unfolding post_json validate_url
post_json-IsDecidedBy request_limit response_limit url request_size retry_budget domain_allowlist
      send =
    elim (gated (not (contains ("http" ∷ "https" ∷ []) url.scheme))
      (not (truthy (lower (or_empty url.hostname))))
      (nonempty (lowered domain_allowlist)
        && not (contains (lowered domain_allowlist) (lower (or_empty url.hostname))))
      (ltb request_limit request_size)
      (blocked_domain "Only HTTP and HTTPS provider URLs are allowed.")
      (blocked_domain "Provider URL is missing a hostname.")
      (not_allowlisted (lower (or_empty url.hostname))) request_too_large
      (attempts_from response_limit send retry_budget 0)) [
        | inl refused ↦ inl refused
        | inr (passes, e) ↦
            let (last, place, d) = attempts_from-IsDecidedBy response_limit send retry_budget 0 in
            inr (
              passes,
              (
                last,
                place,
                subst (IsDecidedBy response_limit send retry_budget 0 last place) (sym e) d,
              ),
            )
      ]
