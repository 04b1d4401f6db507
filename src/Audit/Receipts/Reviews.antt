-- ===== src/Audit/Receipts/Reviews.antt =====
-- audit/service.py: what a review leaves in the table of receipts.
use mathlib.Core.Path.{subst}
use verification_engine.Base.{
  ==-refl, Bool, Bool-cases, HasUniqueKeys, IsDistinct, List, Option, Option-cases, Result, String,
  [], added-HasUniqueKeys, ap, arith, bool_eq, contains, count, count-append, count-put_back, err,
  false, find, find-added, find-put_back, if◌then◌else◌, inl, inr, keys, keys-put_back, lower,
  nat_eq, none, ok, option_eq, refl, select, some, string_eq, sym, ℕ, ◌++◌, ◌==◌, ◌∙◌, ◌∷◌, ◌≡◌,
  ◌⊎◌,
}
use verification_engine.Json.{Json}
use verification_engine.Audit.Payloads.{
  assert_audit_safe_payload, audit_unsafe_keys, find_unsafe_key, is_unsafe_key, strip_audit_unsafe,
}
use verification_engine.Audit.Payloads.Safe.{assert_audit_safe_payload-ok}
use verification_engine.Workflow.Sessions.{Session}
use verification_engine.Audit.Counts.{FindingCounts, build_finding_counts, counts_payload}
use verification_engine.Audit.Receipts.Latest.{counted, latest_found, newest-IsFound, newest-none}
use verification_engine.Audit.Receipts.{
  Codecs, Ledger, Receipt, Reviewed, build_final_receipt_hash, decision_data, decision_timestamp,
  first_time, get_latest_audit_receipt, iso_or_none, newest, note_hash, of_session, or_raise,
  receipt_key, recorded, review_receipt, save_receipt, time_if, upsert_final_review_receipt,
  upsert_with, with_hash,
}

counts_payload-safe :
    {F : Type 0} (of_count : ℕ → F) (c : FindingCounts)
    → assert_audit_safe_payload (counts_payload of_count c) ≡ ok (counts_payload of_count c)
unfolding assert_audit_safe_payload strip_audit_unsafe find_unsafe_key is_unsafe_key
    audit_unsafe_keys lower string_eq
counts_payload-safe of_count c = elim (Bool-cases c.unknown) [
  | inl e ↦ rw e refl
  | inr e ↦ rw e refl
]

decision_data-safe :
    {F : Type 0} (audit_event_id decision : String) (hash : Option String) (counts : Json F)
    → find_unsafe_key counts ≡ none
    → find_unsafe_key (decision_data audit_event_id decision hash counts) ≡ none
unfolding decision_data find_unsafe_key is_unsafe_key audit_unsafe_keys lower string_eq
decision_data-safe audit_event_id decision hash counts h = rw h refl

counts_payload-find :
    {F : Type 0} (of_count : ℕ → F) (c : FindingCounts)
    → find_unsafe_key (counts_payload of_count c) ≡ none
unfolding find_unsafe_key is_unsafe_key audit_unsafe_keys lower string_eq
counts_payload-find of_count c = elim (Bool-cases c.unknown) [
  | inl e ↦ rw e refl
  | inr e ↦ rw e refl
]

assert-same :
    {F : Type 0} (payload : Json F)
    → find_unsafe_key payload ≡ none
    → assert_audit_safe_payload payload ≡ ok payload
assert-same payload h =
    let (passes, _, (safe, _), _) = assert_audit_safe_payload-ok payload in passes ∙ ap ok (safe h)

or_raise-ok :
    {E A B : Type 0} (r : Result E A) (raised : E → B) (next : A → B) (a : A)
    → r ≡ ok a
    → or_raise r raised next ≡ next a
or_raise-ok r raised next a e = ap (λ x. or_raise x raised next) e

module _ {F : Type 0} (codecs : Codecs F) (now : ℕ) (uuid reviewer_ref decision : String)
    (note : Option String) (s : Reviewed F) (ledger : Ledger F) (found : FindingCounts) where
  abbrev counts : Json F
  counts = counts_payload codecs.of_count found

  abbrev the_receipt : Receipt F
  the_receipt = with_hash codecs (
      review_receipt codecs now uuid reviewer_ref decision note counts s.session
        (get_latest_audit_receipt ledger.receipts s.session.id))

  abbrev event : Json F
  event = decision_data the_receipt.audit_event_id decision (note_hash codecs note) counts

  counts-safe : find_unsafe_key counts ≡ none
  counts-safe = counts_payload-find codecs.of_count found

  upsert_with-eq :
      upsert_with codecs now uuid reviewer_ref decision note s ledger found
      ≡ recorded s ledger the_receipt event
  unfolding upsert_with
  upsert_with-eq =
      or_raise-ok _ _ _ counts (assert-same counts counts-safe)
      ∙ or_raise-ok _ _ _ event (
          assert-same event (
            decision_data-safe the_receipt.audit_event_id decision (note_hash codecs note) counts
              counts-safe))

-- The decisions that have a column for their time.
abbrev pub timed_decisions : List String
timed_decisions = "APPROVED" ∷ "REJECTED" ∷ "MANUAL_REVIEW_REQUIRED" ∷ []

-- What a review is to leave: `r` is the session's, it holds the decision and its time, its hash is
-- the one that is computed of it, and it stands in the table of receipts, where the session has one
-- receipt more only if it had none, and where every other receipt is as before.
pub record IsReview {F : Type 0} (codecs : Codecs F) (now : ℕ) (decision session_id : String)
    (before after : List (Receipt F)) (r : Receipt F) : Type 0 where
  pub of_the_session : r.session_id ≡ session_id
  pub decision_held : r.reviewer_decision ≡ some decision
  pub decision_time :
      decision_timestamp codecs r
      ≡ (if contains timed_decisions decision then some (codecs.isoformat now) else none)
  pub hash_of_itself : r.receipt_hash ≡ build_final_receipt_hash codecs r
  pub unique : HasUniqueKeys receipt_key after
  pub number_of_receipts : count (of_session session_id) after ≡ (
      if count (of_session session_id) before == 0 then 1 else count (of_session session_id) before)
  pub rows :
      (j : String)
      → find receipt_key j after
        ≡ (if j == r.audit_event_id then some r else find receipt_key j before)

decision_timestamp-time_if :
    {F : Type 0} (codecs : Codecs F) (decision : String) (now : ℕ)
    → iso_or_none codecs (
        first_time (time_if (decision == "APPROVED") now) (
          first_time
            (time_if (decision == "REJECTED") now)
            (time_if (decision == "MANUAL_REVIEW_REQUIRED") now)))
      ≡ (if contains timed_decisions decision then some (codecs.isoformat now) else none)
decision_timestamp-time_if codecs decision now = ground arith

module _ {F : Type 0} (codecs : Codecs F) (now : ℕ) (uuid reviewer_ref decision : String)
    (note : Option String) (counts : Json F) (s : Session) (before : List (Receipt F))
    (u : HasUniqueKeys receipt_key before)
    (new : contains (keys receipt_key before) uuid ≡ false) where
  abbrev reviewed : Option (Receipt F) → Receipt F
  reviewed o =
      with_hash codecs (review_receipt codecs now uuid reviewer_ref decision note counts s o)

  added-count :
      newest (select (of_session s.id) before) ≡ none
      → count (of_session s.id) (before ++ (reviewed none ∷ []))
        ≡ (if count (of_session s.id) before == 0 then 1 else count (of_session s.id) before)
  unfolding review_receipt
  added-count e = ground (
    arith,
    newest-none s.id before e,
    count-append (of_session s.id) before (reviewed none ∷ []),
    ==-refl s.id,
  )

  IsReview-saved :
      (o : Option (Receipt F))
      → newest (select (of_session s.id) before) ≡ o
      → IsReview codecs now decision s.id before (save_receipt (reviewed o) o before) (reviewed o)
  unfolding review_receipt save_receipt build_final_receipt_hash
  IsReview-saved none e = record {
    of_the_session = refl;
    decision_held = refl;
    decision_time = decision_timestamp-time_if codecs decision now;
    hash_of_itself = refl;
    unique = added-HasUniqueKeys receipt_key (reviewed none) before new u;
    number_of_receipts = added-count e;
    rows = λ j. find-added receipt_key (reviewed none) j before new;
  }
  IsReview-saved (some old) e =
      let (found, named) = newest-IsFound s.id before old u e in
      record {
        of_the_session = named;
        decision_held = refl;
        decision_time = decision_timestamp-time_if codecs decision now;
        hash_of_itself = refl;
        unique =
            subst IsDistinct
              (sym
                (keys-put_back receipt_key (of_session s.id) old (reviewed (some old)) refl before))
              u;
        number_of_receipts =
            count-put_back receipt_key (of_session s.id) old (reviewed (some old)) refl before u
              found refl
            ∙ ap (λ (b : Bool). if b then 1 else count (of_session s.id) before)
                (sym (counted s.id before old found named));
        rows = λ j.
            find-put_back receipt_key (of_session s.id) old (reviewed (some old)) refl j before
              found;
      }

Result-cases :
    {A : Type 0} (r : Result String A) → ((a : A) × (r ≡ ok a)) ⊎ ((e : String) × (r ≡ err e))
Result-cases (ok a) = inl (a, refl)
Result-cases (err e) = inr (e, refl)

abbrev counted_of : {F : Type 0} → Codecs F → Reviewed F → Result String FindingCounts
counted_of codecs s =
    build_finding_counts codecs.int_of s.workspace_payload s.verification_execution_summary_payload
      s.session.trust_outcome

module _ {F : Type 0} (codecs : Codecs F) (now : ℕ) (uuid reviewer_ref decision : String)
    (note : Option String) (s : Reviewed F) (ledger : Ledger F) where
  upsert-raises :
      (error : String)
      → counted_of codecs s ≡ err error
      → upsert_final_review_receipt codecs now uuid reviewer_ref decision note s ledger
        ≡ (err error, s, ledger)
  unfolding upsert_final_review_receipt
  upsert-raises error e =
      ap
        (λ c.
          or_raise c (λ error. (err error, s, ledger))
            (upsert_with codecs now uuid reviewer_ref decision note s ledger))
        e

  upsert-goes_on :
      (found : FindingCounts)
      → counted_of codecs s ≡ ok found
      → upsert_final_review_receipt codecs now uuid reviewer_ref decision note s ledger
        ≡ upsert_with codecs now uuid reviewer_ref decision note s ledger found
  unfolding upsert_final_review_receipt
  upsert-goes_on found e = or_raise-ok _ _ _ found e

  counts_held :
      (found : FindingCounts)
      → (the_receipt codecs now uuid reviewer_ref decision note s ledger found).finding_counts
        ≡ some (counts_payload codecs.of_count found)
  unfolding review_receipt
  counts_held found = elim (Option-cases (get_latest_audit_receipt ledger.receipts s.session.id)) [
    | inl e ↦ rw e refl
    | inr (old, e) ↦ rw e refl
  ]

-- With receipts of distinct ids and a fresh uuid, whatever note and decision a session comes with,
-- and up to the flush, which the database is taken to accept: recording the review raises exactly
-- what counting the session's findings raises, and then changes nothing; otherwise the session then
-- names the receipt that is given back, which holds those counts and is what a review is to leave.
pub upsert_final_review_receipt-IsReview :
    {F : Type 0} (codecs : Codecs F) (now : ℕ) (uuid reviewer_ref decision : String)
    (note : Option String) (s : Reviewed F) (ledger : Ledger F)
    → HasUniqueKeys receipt_key ledger.receipts
    → contains (keys receipt_key ledger.receipts) uuid ≡ false
    → ((error : String) × (build_finding_counts codecs.int_of s.workspace_payload
            s.verification_execution_summary_payload s.session.trust_outcome
          ≡ err error)
        × (upsert_final_review_receipt codecs now uuid reviewer_ref decision note s ledger
            ≡ (err error, s, ledger)))
      ⊎ ((found : FindingCounts) × (r : Receipt F) × (build_finding_counts codecs.int_of
              s.workspace_payload s.verification_execution_summary_payload s.session.trust_outcome
            ≡ ok found)
          × (r.finding_counts ≡ some (counts_payload codecs.of_count found))
          × ((upsert_final_review_receipt codecs now uuid reviewer_ref decision note s ledger).0
              ≡ ok r)
          × ((upsert_final_review_receipt codecs now uuid reviewer_ref decision note s
                ledger).1.session.audit_receipt_id
              ≡ some r.audit_event_id)
          × IsReview codecs now decision s.session.id ledger.receipts
              (upsert_final_review_receipt codecs now uuid reviewer_ref decision note s
                ledger).2.receipts
              r)
upsert_final_review_receipt-IsReview codecs now uuid reviewer_ref decision note s ledger u new =
    elim (Result-cases (counted_of codecs s)) [
      | inr (error, e) ↦
          inl (error, e, upsert-raises codecs now uuid reviewer_ref decision note s ledger error e)
      | inl (found, e) ↦
          let whole =
            upsert-goes_on codecs now uuid reviewer_ref decision note s ledger found e
            ∙ upsert_with-eq codecs now uuid reviewer_ref decision note s ledger found in
          inr (
            found,
            the_receipt codecs now uuid reviewer_ref decision note s ledger found,
            e,
            counts_held codecs now uuid reviewer_ref decision note s ledger found,
            rw whole refl,
            rw whole refl,
            rw whole (
                IsReview-saved codecs now uuid reviewer_ref decision note
                  (counts codecs now uuid reviewer_ref decision note s ledger found) s.session
                  ledger.receipts u new (get_latest_audit_receipt ledger.receipts s.session.id)
                  (latest_found ledger.receipts s.session.id)),
          )
    ]
