-- ===== src/Workflow/Sessions/Laws.antt =====
-- What a transition of workflow/repository.py does to the table, on every branch.
use mathlib.Core.Path.{subst}
use verification_engine.Base.{
  Bool, Option-cases, String, [], any, any-eq-matching, ap, arith, bool_eq, contains, count, err,
  false, find-update, find-update_ne, if◌then◌else◌, inl, inr, keys, keys-update, matching, nat_eq,
  none, ok, option_eq, some, string_eq, sym, true, update, ℕ, ◌&&◌, ◌==◌, ◌↔◌, ◌∙◌, ◌∷◌, ◌≡◌, ◌⊎◌,
}
use verification_engine.Workflow.States.{
  Allowed, SessionState, allowed_transitions, atomic_transition_failed, state_eq, verifying,
}
use verification_engine.Workflow.Sessions.{
  HasUniqueIds, LeaseGuard, Session, Sessions, abandon, acquire_lease, find_session, key,
  lease_permits, mark_stale_sessions, null_lease, stale, swap_state, take_lease, transition_state,
  unchanged_since,
}

-- Sets columns, and leaves the primary key.
abbrev pub KeepsId : (Session → Session) → Type 0
KeepsId extra = (s : Session) → (extra s).id ≡ s.id

unchanged_since-id :
    (session_id : String) (current : SessionState) (lease_guard : LeaseGuard) (s : Session)
    → unchanged_since session_id current lease_guard s ≡ true
    → s.id ≡ session_id
unchanged_since-id session_id current lease_guard s h = ground arith

pub find_session-id :
    (session_id : String) (db : Sessions) {s : Session}
    → find_session session_id db ≡ some s
    → s.id ≡ session_id
find_session-id session_id [] h = cc
find_session-id session_id (r ∷ db) {s} h = ground (arith, find_session-id session_id db {s = s})

module _ (now : ℕ) (session_id : String) (next : SessionState) (extra : Session → Session)
    (lease_guard : LeaseGuard) (db : Sessions) (keeps_id : KeepsId extra) where
  abbrev pub moved : Session → Session
  moved s = extra (record s { status = next; updated_at = now })

  abbrev pub after : SessionState → Sessions
  after current = update (unchanged_since session_id current lease_guard) moved db

  moved-id : (s : Session) → (moved s).id ≡ s.id
  moved-id s = keeps_id (record s { status = next; updated_at = now })

  -- The conditional update hits the session's row exactly if that row still has the state and a
  -- lease that permits the change.
  any-unchanged_since :
      (current : SessionState)
      → HasUniqueIds db
      → any (unchanged_since session_id current lease_guard) db
        ≡ matching (unchanged_since session_id current lease_guard) (find_session session_id db)
  any-unchanged_since current u =
      any-eq-matching key session_id (unchanged_since session_id current lease_guard)
        (unchanged_since-id session_id current lease_guard) db u

  -- The conditional update when the session's row still fits, and when it does not.
  pub swap_state-hit :
      (s : Session)
      → HasUniqueIds db
      → find_session session_id db ≡ some s
      → lease_permits lease_guard s ≡ true
      → swap_state now session_id s.status next extra lease_guard db ≡ (ok s.status, after s.status)
  unfolding swap_state
  swap_state-hit s u found permits =
      ground (arith, any-unchanged_since s.status u, find_session-id session_id db found)

  pub swap_state-miss :
      (current : SessionState) (s : Session)
      → HasUniqueIds db
      → find_session session_id db ≡ some s
      → (s.status == current && lease_permits lease_guard s) ≡ false
      → swap_state now session_id current next extra lease_guard db
        ≡ (err (atomic_transition_failed current next), db)
  unfolding swap_state
  swap_state-miss current s u found refused = ground (arith, any-unchanged_since current u)

  pub keys-after : (current : SessionState) → keys key (after current) ≡ keys key db
  keys-after current =
      keys-update key (unchanged_since session_id current lease_guard) moved moved-id db

  -- With unique ids, for columns other than the id and for a session that is there: a transition
  -- succeeds, returning the state before it, exactly if the table of transitions permits it and the
  -- lease is as demanded.
  pub transition_state_ok_iff :
      (s : Session)
      → HasUniqueIds db
      → find_session session_id db ≡ some s
      → ((transition_state now session_id next extra lease_guard db).0 ≡ ok s.status)
        ↔ ((contains (allowed_transitions s.status) next && lease_permits lease_guard s) ≡ true)
  unfolding transition_state
  transition_state_ok_iff s u found =
      ground (arith, any-unchanged_since s.status u, find_session-id session_id db found)

  pub transition_state-eq :
      (s : Session)
      → HasUniqueIds db
      → find_session session_id db ≡ some s
      → (contains (allowed_transitions s.status) next && lease_permits lease_guard s) ≡ true
      → transition_state now session_id next extra lease_guard db ≡ (ok s.status, after s.status)
  unfolding transition_state
  transition_state-eq s u found permitted =
      ground (arith, any-unchanged_since s.status u, find_session-id session_id db found)

  pub unchanged_since_self :
      (s : Session)
      → s.id ≡ session_id
      → lease_permits lease_guard s ≡ true
      → unchanged_since session_id s.status lease_guard s ≡ true
  unchanged_since_self s named permits = ground arith

  pub find-after :
      (s : Session)
      → find_session session_id db ≡ some s
      → lease_permits lease_guard s ≡ true
      → find_session session_id (after s.status) ≡ some (moved s)
  find-after s found permits =
      find-update key (unchanged_since session_id s.status lease_guard) moved moved-id session_id db
      ∙ rw found (
          ap (λ (hit : Bool). some (if hit then moved s else s))
            (unchanged_since_self s (find_session-id session_id db found) permits))

  pub find-after_ne :
      (current : SessionState) (j : String)
      → (j == session_id) ≡ false
      → find_session j (after current) ≡ find_session j db
  find-after_ne current j ne =
      find-update_ne key session_id (unchanged_since session_id current lease_guard)
        (unchanged_since-id session_id current lease_guard) moved j db moved-id ne

  found_session :
      (prior : SessionState)
      → (transition_state now session_id next extra lease_guard db).0 ≡ ok prior
      → (s : Session) × (find_session session_id db ≡ some s) × (s.status ≡ prior)
  unfolding transition_state
  found_session prior h = elim (Option-cases (find_session session_id db)) [
    | inl e ↦ ground arith
    | inr (s, e) ↦ (s, e, ground arith)
  ]

  -- With unique ids and for columns other than the id: a transition that succeeds was permitted by
  -- the table of transitions and by the lease, writes the session with exactly the given columns
  -- set, and leaves every other session as it was.
  pub transition_state-ok :
      (prior : SessionState)
      → HasUniqueIds db
      → (transition_state now session_id next extra lease_guard db).0 ≡ ok prior
      → (s : Session) × (find_session session_id db ≡ some s)
        × (s.status ≡ prior)
        × Allowed prior next
        × (lease_permits lease_guard s ≡ true)
        × (find_session session_id (transition_state now session_id next extra lease_guard db).1
            ≡ some (extra (record s { status = next; updated_at = now })))
        × ((j : String)
            → (j == session_id) ≡ false
            → find_session j (transition_state now session_id next extra lease_guard db).1
              ≡ find_session j db)
  transition_state-ok prior u h =
      let (s, found, at_prior) = found_session prior h in
      let permitted = (transition_state_ok_iff s u found).0 (h ∙ sym (ap ok at_prior)) in
      let moves = transition_state-eq s u found permitted in
      (
        s,
        found,
        at_prior,
        ground arith,
        ground arith,
        rw moves (find-after s found (ground arith)),
        λ j ne. rw moves (find-after_ne s.status j ne),
      )

pub transition_state-found :
    (now : ℕ) (session_id : String) (next : SessionState) (extra : Session → Session)
    (lease_guard : LeaseGuard) (db : Sessions) (s : Session)
    → find_session session_id db ≡ some s
    → ((transition_state now session_id next extra lease_guard db).1 ≡ db)
      ⊎ ((transition_state now session_id next extra lease_guard db).1
          ≡ update
              (unchanged_since session_id s.status lease_guard)
              (λ r. extra (record r { status = next; updated_at = now }))
              db)
unfolding transition_state
transition_state-found now session_id next extra lease_guard db s found = ground arith

-- The table after a transition is the old one or the one that its UPDATE gives.
pub transition_state-table :
    (now : ℕ) (session_id : String) (next : SessionState) (extra : Session → Session)
    (lease_guard : LeaseGuard) (db : Sessions) (P : Sessions → Type 0)
    → P db
    → ((current : SessionState)
        → P (
            update
              (unchanged_since session_id current lease_guard)
              (λ s. extra (record s { status = next; updated_at = now }))
              db))
    → P (transition_state now session_id next extra lease_guard db).1
unfolding transition_state
transition_state-table now session_id next extra lease_guard db P old new =
    elim (Option-cases (find_session session_id db)) [
      | inl e ↦ subst P (sym (unfounded e)) old
      | inr (s, e) ↦ elim (transition_state-found now session_id next extra lease_guard db s e) [
        | inl q ↦ subst P (sym q) old
        | inr q ↦ subst P (sym q) (new s.status)
      ]
    ]
  where
    unfounded :
        find_session session_id db ≡ none
        → (transition_state now session_id next extra lease_guard db).1 ≡ db
    unfounded e = ground arith

pub acquire_lease-cases :
    (now : ℕ) (session_id worker_id : String) (db : Sessions)
    → ((acquire_lease now session_id worker_id db).1 ≡ db)
      ⊎ ((acquire_lease now session_id worker_id db).1
          ≡ (transition_state now session_id verifying (take_lease now worker_id) null_lease db).1)
unfolding acquire_lease
acquire_lease-cases now session_id worker_id db = ground arith

pub mark_stale_sessions-eq :
    (now timeout : ℕ) (db : Sessions)
    → mark_stale_sessions now timeout db
      ≡ (ok (count (stale now timeout) db), update (stale now timeout) (abandon now) db)
unfolding mark_stale_sessions allowed_transitions
mark_stale_sessions-eq now timeout db = ground arith
