-- ===== src/Workflow/Sessions/Races.antt =====
-- Workers that race for one session: `acquire_lease` reads the state and then issues a conditional
-- UPDATE, and other workers may run between the two. The database makes each statement atomic.
use mathlib.Core.Path.{subst}
use mathlib.Core.Option.{some-injective}
use verification_engine.Base.{
  ==-refl, Bool, Bool-cases, IsDistinct, List, Option, Result, String, [], arith, contains, err,
  false, find-update, if◌then◌else◌, inl, inr, nat_eq, none, ok, option_eq, refl, some, string_eq,
  sym, true, ℕ, ◌&&◌, ◌==◌, ◌∙◌, ◌≡◌, ◌≢◌,
}
use verification_engine.Workflow.States.{
  SessionState, TransitionError, pending_human_review, state_eq, verifying,
}
use verification_engine.Workflow.Sessions.{
  HasUniqueIds, LeaseGuard, Session, Sessions, any_lease, complete_processing, completed,
  fail_processing, failed, find_session, get_session_state, key, lease_acquirable_states,
  lease_permits, null_lease, swap_state, take_lease, transition_state, unchanged_since,
}
use verification_engine.Workflow.Sessions.Laws.{
  KeepsId, after, find-after, keys-after, moved, swap_state-hit, swap_state-miss,
  transition_state-table,
}

-- Where a worker stands: outside, past its read of the state, or holding the lease.
pub data Standing : Type 0 where
  outside : Standing
  has_read : SessionState → Standing
  holding : Standing

abbrev pub Standings : Type 0
Standings = String → Standing

abbrev pub put : Standings → String → Standing → Standings
put at w p v = if v == w then p else at v

pub record System : Type 0 where
  pub db : Sessions
  pub at : Standings

-- The standing after the conditional UPDATE of `acquire_lease`.
abbrev pub standing_after : Result TransitionError SessionState → Standing
standing_after (ok _) = holding
standing_after (err _) = outside

abbrev pub attempt :
    ℕ → String → String → SessionState → Sessions → Result TransitionError SessionState × Sessions
attempt now session_id w current db =
    swap_state now session_id current verifying (take_lease now w) null_lease db

abbrev pub completion :
    ℕ → String → String → Sessions → Result TransitionError SessionState × Sessions
completion now session_id outcome db =
    complete_processing now session_id pending_human_review outcome [] [] none db

-- A step of any worker. A holder gives the lease up when it completes or fails the session.
pub data Move (session_id : String) : System → System → Type 0 where
  read :
      (c : System) (w : String) (current : SessionState)
      → get_session_state c.db session_id ≡ some current
      → contains lease_acquirable_states current ≡ true
      → Move session_id c (record c { at = put c.at w (has_read current) })
  write :
      (now : ℕ) (c : System) (w : String) (current : SessionState)
      → c.at w ≡ has_read current
      → Move session_id c (record {
        db = (attempt now session_id w current c.db).1;
        at = put c.at w (standing_after (attempt now session_id w current c.db).0);
      })
  complete :
      (now : ℕ) (c : System) (w outcome : String)
      → c.at w ≡ holding
      → Move session_id c
          (record { db = (completion now session_id outcome c.db).1; at = put c.at w outside })
  give_up :
      (now : ℕ) (c : System) (w : String) (state : SessionState) (reason_codes : List String)
      → c.at w ≡ holding
      → Move session_id c (record {
        db = (fail_processing now session_id state reason_codes c.db).1;
        at = put c.at w outside;
      })

pub data Moves (session_id : String) (c : System) : System → Type 0 where
  start : Moves session_id c c
  later : {d e : System} → Moves session_id c d → Move session_id d e → Moves session_id c e

-- Whoever holds the lease is the worker that the session's row names.
pub record IsExclusive (session_id : String) (c : System) : Type 0 where
  pub unique_ids : HasUniqueIds c.db
  pub row : Session
  pub found : find_session session_id c.db ≡ some row
  pub named : (w : String) → c.at w ≡ holding → row.lease_id ≡ some w

same_worker : (l : Option String) (v w : String) → l ≡ some v → l ≡ some w → v ≡ w
same_worker l v w p q = some-injective v w (sym p ∙ q)

holding-put :
    (at : Standings) (w v : String) (p : Standing)
    → p ≢ holding
    → put at w p v ≡ holding
    → (v == w) ≡ false × (at v ≡ holding)
holding-put at w v p ne h = ground arith

read-IsExclusive :
    (session_id : String) (c : System) (w : String) (current : SessionState)
    → IsExclusive session_id c
    → IsExclusive session_id (record c { at = put c.at w (has_read current) })
read-IsExclusive session_id c w current inv = record {
  unique_ids = inv.unique_ids;
  row = inv.row;
  found = inv.found;
  named = λ v h. inv.named v (holding-put c.at w v (has_read current) (λ e. ground arith) h).1;
}

module _ (now : ℕ) (session_id : String) (c : System) (w : String) (current : SessionState)
    (inv : IsExclusive session_id c) where
  abbrev fits : Bool
  fits = inv.row.status == current && lease_permits null_lease inv.row

  take_lease-id : KeepsId (take_lease now w)
  take_lease-id s = refl

  write-miss :
      fits ≡ false
      → IsExclusive session_id (record {
        db = (attempt now session_id w current c.db).1;
        at = put c.at w (standing_after (attempt now session_id w current c.db).0);
      })
  write-miss refused =
      subst
        (λ (r : Result TransitionError SessionState × Sessions).
          IsExclusive session_id (record { db = r.1; at = put c.at w (standing_after r.0) }))
        (sym (
          swap_state-miss now session_id verifying (take_lease now w) null_lease c.db take_lease-id
            current inv.row inv.unique_ids inv.found refused))
        (record {
          unique_ids = inv.unique_ids;
          row = inv.row;
          found = inv.found;
          named = λ v h. inv.named v (holding-put c.at w v outside (λ e. ground arith) h).1;
        })

  taken : Session
  taken = moved now session_id verifying (take_lease now w) null_lease c.db take_lease-id inv.row

  named-taken :
      lease_permits null_lease inv.row ≡ true
      → (v : String) → put c.at w holding v ≡ holding
      → taken.lease_id ≡ some v
  unfolding taken
  named-taken free v h = elim (Bool-cases (v == w)) [
    | inl same ↦ ground arith
    | inr other ↦ ground (arith, inv.named v)
  ]

  write-hit :
      (inv.row.status ≡ current)
      → lease_permits null_lease inv.row ≡ true
      → IsExclusive session_id (record {
        db = (attempt now session_id w current c.db).1;
        at = put c.at w (standing_after (attempt now session_id w current c.db).0);
      })
  unfolding taken
  write-hit at_current free =
      subst
        (λ (r : Result TransitionError SessionState × Sessions).
          IsExclusive session_id (record { db = r.1; at = put c.at w (standing_after r.0) }))
        (sym (
          subst
            (λ (current : SessionState).
              swap_state now session_id current verifying (take_lease now w) null_lease c.db
              ≡ (ok current, taken_table current))
            at_current
            (swap_state-hit now session_id verifying (take_lease now w) null_lease c.db
              take_lease-id inv.row inv.unique_ids inv.found free)))
        (record {
          unique_ids =
              subst IsDistinct
                (sym (
                  keys-after now session_id verifying (take_lease now w) null_lease c.db
                    take_lease-id current))
                inv.unique_ids;
          row = taken;
          found =
              subst (λ current. find_session session_id (taken_table current) ≡ some taken)
                at_current
                (find-after now session_id verifying (take_lease now w) null_lease c.db
                  take_lease-id inv.row inv.found free);
          named = named-taken free;
        })
    where
      taken_table : SessionState → Sessions
      taken_table = after now session_id verifying (take_lease now w) null_lease c.db take_lease-id

  write-IsExclusive : IsExclusive session_id (record {
    db = (attempt now session_id w current c.db).1;
    at = put c.at w (standing_after (attempt now session_id w current c.db).0);
  })
  write-IsExclusive = elim (Bool-cases fits) [
    | inl fit ↦ write-hit (ground arith) (ground arith)
    | inr miss ↦ write-miss miss
  ]

-- The session's row is still there after a transition.
abbrev StillThere : String → Sessions → Type 0
StillThere session_id db = HasUniqueIds db × ((s : Session) × (find_session session_id db ≡ some s))

transition_state-StillThere :
    (now : ℕ) (session_id : String) (next : SessionState) (extra : Session → Session)
    (lease_guard : LeaseGuard) (db : Sessions)
    → KeepsId extra
    → StillThere session_id db
    → StillThere session_id (transition_state now session_id next extra lease_guard db).1
transition_state-StillThere now session_id next extra lease_guard db keeps_id (u, (s, found)) =
    transition_state-table now session_id next extra lease_guard db (StillThere session_id)
      (u, (s, found))
      λ current.
        let hit = unchanged_since session_id current lease_guard in
        let set_columns = moved now session_id next extra lease_guard db keeps_id in
        (
          subst IsDistinct
              (sym (keys-after now session_id next extra lease_guard db keeps_id current)) u,
          (
            if hit s then set_columns s else s,
            find-update key hit set_columns (λ r. keeps_id _) session_id db ∙ rw found refl,
          ),
        )

release-IsExclusive :
    (session_id : String) (c : System) (w : String) (db : Sessions)
    → c.at w ≡ holding
    → IsExclusive session_id c
    → StillThere session_id db
    → IsExclusive session_id (record { db = db; at = put c.at w outside })
release-IsExclusive session_id c w db holds inv (u, (s, found)) = record {
  unique_ids = u;
  row = s;
  found = found;
  named = λ v h.
      let (other, also) = holding-put c.at w v outside (λ e. ground arith) h in
      absurd (
        let e = same_worker inv.row.lease_id v w (inv.named v also) (inv.named w holds) in
        ground (arith, ==-refl w));
}

Move-IsExclusive :
    {session_id : String} {c d : System}
    → Move session_id c d
    → IsExclusive session_id c
    → IsExclusive session_id d
unfolding complete_processing fail_processing
Move-IsExclusive {session_id} (read c w current seen acquirable) inv =
    read-IsExclusive session_id c w current inv
Move-IsExclusive {session_id} (write now c w current at_w) inv =
    write-IsExclusive now session_id c w current inv
Move-IsExclusive {session_id} (complete now c w outcome holds) inv =
    release-IsExclusive session_id c w _ holds inv (
      transition_state-StillThere now session_id pending_human_review (completed outcome [] [] none)
        any_lease c.db (λ s. refl) (inv.unique_ids, (inv.row, inv.found)))
Move-IsExclusive {session_id} (give_up now c w state reason_codes holds) inv =
    release-IsExclusive session_id c w _ holds inv (
      transition_state-StillThere now session_id state (failed reason_codes) any_lease c.db
        (λ s. refl) (inv.unique_ids, (inv.row, inv.found)))

Moves-IsExclusive :
    {session_id : String} {c d : System}
    → Moves session_id c d
    → IsExclusive session_id c
    → IsExclusive session_id d
Moves-IsExclusive start inv = inv
Moves-IsExclusive (later run m) inv = Move-IsExclusive m (Moves-IsExclusive run inv)

-- From a table with unique ids that holds the session, and with no worker holding it, however the
-- reads, the conditional updates and the releases of any workers interleave, no two workers hold
-- the session's lease at once, and the row names the worker that holds it.
pub lease_mutual_exclusion :
    (session_id : String) (db : Sessions) (s : Session) (c : System)
    → HasUniqueIds db
    → find_session session_id db ≡ some s
    → Moves session_id (record { db = db; at = λ _. outside }) c
    → (v w : String) → c.at v ≡ holding
    → c.at w ≡ holding
    → (v ≡ w)
      × ((row : Session) × (find_session session_id c.db ≡ some row) × (row.lease_id ≡ some v))
lease_mutual_exclusion session_id db s c u found run v w hv hw =
    let inv =
      Moves-IsExclusive run
        (record { unique_ids = u; row = s; found = found; named = λ x h. absurd (nobody h) }) in
    (
      same_worker inv.row.lease_id v w (inv.named v hv) (inv.named w hw),
      (inv.row, inv.found, inv.named v hv),
    )
  where
    nobody : ¬ (outside ≡ holding)
    nobody e = ground arith
