-- ===== src/Audit/Receipts/Latest.antt =====
-- audit/service.py, get_latest_audit_receipt: the receipt it finds is one of the session.
use mathlib.Core.Path.{subst}
use mathlib.Core.Option.{none-ne-some, some-injective, some-ne-none}
use verification_engine.Base.{
  ==-refl, Bool, Bool-cases, HasUniqueKeys, List, Option, String, [], ap, arith, bool_eq, contains,
  count, false, find, if_either, if◌then◌else◌, inl, inr, keys, ltb, nat_eq, none, option_eq, refl,
  select, some, string_eq, sym, true, ◌==◌, ◌∙◌, ◌∷◌, ◌≡◌,
}
use verification_engine.Audit.Receipts.{
  Receipt, get_latest_audit_receipt, newer, newest, of_session, receipt_key,
}

find-contains :
    {F : Type 0} (k : String) (rows : List (Receipt F)) (r : Receipt F)
    → find receipt_key k rows ≡ some r
    → contains (keys receipt_key rows) k ≡ true
find-contains k [] r found = ground arith
find-contains k (q ∷ rows) r found = ground (arith, find-contains k rows r)

abbrev pub IsFound : {F : Type 0} → String → List (Receipt F) → Receipt F → Type 0
IsFound session_id rows r =
    (find receipt_key r.audit_event_id rows ≡ some r) × (r.session_id ≡ session_id)

later_IsFound :
    {F : Type 0} (session_id : String) (q r : Receipt F) (rows : List (Receipt F))
    → HasUniqueKeys receipt_key (q ∷ rows)
    → IsFound session_id rows r
    → IsFound session_id (q ∷ rows) r
later_IsFound {F} session_id q r rows u (found, named) = (
  if_either (λ (o : Option (Receipt F)). o ≡ some r) (q.audit_event_id == r.audit_event_id) (some q)
      (find receipt_key r.audit_event_id rows)
      (λ same. ground (arith, same, u, find-contains r.audit_event_id rows r found)) (λ _. found),
  named,
)

here_IsFound :
    {F : Type 0} (session_id : String) (q : Receipt F) (rows : List (Receipt F))
    → of_session session_id q ≡ true
    → IsFound session_id (q ∷ rows) q
here_IsFound session_id q rows own = (
  ap (λ (b : Bool). if b then some q else find receipt_key q.audit_event_id rows)
      (==-refl q.audit_event_id),
  ground arith,
)

newest-select :
    {F : Type 0} (session_id : String) (q : Receipt F) (rows : List (Receipt F))
    → newest (select (of_session session_id) (q ∷ rows)) ≡ (
        if of_session session_id q
        then some (newer q (newest (select (of_session session_id) rows)))
        else newest (select (of_session session_id) rows))
newest-select session_id q rows = elim (Bool-cases (of_session session_id q)) [
  | inl e ↦ rw e refl
  | inr e ↦ rw e refl
]

newer-IsFound :
    {F : Type 0} (session_id : String) (q : Receipt F) (rows : List (Receipt F))
    (o : Option (Receipt F))
    → HasUniqueKeys receipt_key (q ∷ rows)
    → of_session session_id q ≡ true
    → ((t : Receipt F) → o ≡ some t → IsFound session_id rows t)
    → IsFound session_id (q ∷ rows) (newer q o)
newer-IsFound session_id q rows none u own h = here_IsFound session_id q rows own
newer-IsFound session_id q rows (some t) u own h =
    if_either (IsFound session_id (q ∷ rows)) (ltb q.created_at t.created_at) t q
      (λ _. later_IsFound session_id q t rows u (h t refl))
      (λ _. here_IsFound session_id q rows own)

pub newest-IsFound :
    {F : Type 0} (session_id : String) (rows : List (Receipt F)) (r : Receipt F)
    → HasUniqueKeys receipt_key rows
    → newest (select (of_session session_id) rows) ≡ some r
    → IsFound session_id rows r
newest-IsFound session_id [] r u h = absurd (none-ne-some r h)
newest-IsFound session_id (q ∷ rows) r u h = elim (Bool-cases (of_session session_id q)) [
  | inr other ↦ later_IsFound session_id q r rows u (
      newest-IsFound session_id rows r u.1
        (sym (newest-select session_id q rows ∙ rw other refl) ∙ h))
  | inl own ↦
      let o = newest (select (of_session session_id) rows) in
      subst (IsFound session_id (q ∷ rows))
        (some-injective (newer q o) r (sym (newest-select session_id q rows ∙ rw own refl) ∙ h))
        (newer-IsFound session_id q rows o u own (λ t e. newest-IsFound session_id rows t u.1 e))
]

pub newest-none :
    {F : Type 0} (session_id : String) (rows : List (Receipt F))
    → newest (select (of_session session_id) rows) ≡ none
    → count (of_session session_id) rows ≡ 0
newest-none session_id [] h = refl
newest-none session_id (q ∷ rows) h = elim (Bool-cases (of_session session_id q)) [
  | inr other ↦ ground (
    arith,
    other,
    newest-none session_id rows (sym (newest-select session_id q rows ∙ rw other refl) ∙ h),
  )
  | inl own ↦
      let o = newest (select (of_session session_id) rows) in
      absurd (
        some-ne-none (newer q o) (
          sym (
            newest-select session_id q rows
            ∙ ap (λ (b : Bool). if b then some (newer q o) else o) own)
          ∙ h))
]

pub counted :
    {F : Type 0} (session_id : String) (rows : List (Receipt F)) (r : Receipt F)
    → find receipt_key r.audit_event_id rows ≡ some r
    → r.session_id ≡ session_id
    → (count (of_session session_id) rows == 0) ≡ false
counted session_id [] r found named = ground arith
counted {F} session_id (q ∷ rows) r found named =
    elim (Bool-cases (q.audit_event_id == r.audit_event_id)) [
      | inr other ↦ ground (
        arith,
        counted session_id rows r
            (ap (λ (b : Bool). if b then some q else find receipt_key r.audit_event_id rows)
                (sym other)
              ∙ found)
            named,
      )
      | inl same ↦
          let is_r = some-injective q r (
            ap (λ (b : Bool). if b then some q else find receipt_key r.audit_event_id rows)
              (sym same)
            ∙ found) in
          ground (arith, ap (λ (x : Receipt F). x.session_id) is_r ∙ named)
    ]

pub latest_found :
    {F : Type 0} (receipts : List (Receipt F)) (session_id : String)
    → newest (select (of_session session_id) receipts)
      ≡ get_latest_audit_receipt receipts session_id
unfolding get_latest_audit_receipt
latest_found receipts session_id = refl
