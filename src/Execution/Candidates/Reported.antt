-- ===== src/Execution/Candidates/Reported.antt =====
-- verifier_execution/executor.py, _execute_task_with_provider_candidates: what it reports of the
-- candidates that it passed over.
use mathlib.Core.Path.{subst}
use verification_engine.Base.{
  ==-refl, All, Bool, List, Option, String, [], ap, arith, bool_eq, contains, contains-append,
  contains-dedupe, dedupe, false, if◌then◌else◌, nat_eq, none, not, option_eq, refl, select, some,
  string_eq, sym, true, truthy, ◌++◌, ◌==◌, ◌∙◌, ◌∷◌, ◌≡◌,
}
use verification_engine.Execution.Candidates.Fallback.{
  IsTried, PassedOver, blank, failing, no_verifier, not_registered, not_supporting,
}
use verification_engine.Execution.{CheckResult, Credential, Task}
use verification_engine.Execution.Candidates.{
  Attempts, Execution, Pass, Provider, Registries, answered, attempt, canonical_provider_key,
  distinct_codes, ended, executed_through, failed_with, manual_selected, next, no_provider, raised,
  report, skip, stop, try_candidate, try_candidates, try_provider, try_verifier,
}

contains-select-truthy :
    (codes : List String) (code : String)
    → truthy code ≡ true
    → contains codes code ≡ true
    → contains (select truthy codes) code ≡ true
contains-select-truthy [] code t h = h
contains-select-truthy (x ∷ codes) code t h = elim (string_eq.dec x code) [
  | yes e ↦ ground (arith, subst (λ s. truthy s ≡ true) (sym e) t, e)
  | no n ↦ ground (arith, contains-select-truthy codes code t, n)
]

pub contains-distinct_codes :
    (codes : List String) (code : String)
    → truthy code ≡ true
    → contains codes code ≡ true
    → contains (distinct_codes codes) code ≡ true
unfolding distinct_codes
contains-distinct_codes codes code t h =
    contains-select-truthy (dedupe codes) code t (contains-dedupe codes code ∙ h)

skip-code :
    (code key reason : String) (a : Attempts)
    → contains a.failures code ≡ true
    → contains (a.failures ++ reason ∷ []) code ≡ true
skip-code code key reason a h = ground (arith, contains-append a.failures (reason ∷ []) code)

module _ {F : Type 0} (registries : Registries F) (task : Task) (credential : Credential F) where
  -- A code of the attempts is still there after a pass.
  abbrev Keeps : String → Pass F → Type 0
  Keeps code (stop r) = contains r.reason_codes code ≡ true
  Keeps code (next a) = contains a.failures code ≡ true

  if_either :
      (code : String) (b : Bool) (x y : Pass F)
      → Keeps code x
      → Keeps code y
      → Keeps code (if b then x else y)
  if_either code true x y hx hy = hx
  if_either code false x y hx hy = hy

  report-code :
      (code : String) (a : Attempts) (codes : List String) (reason : Option String)
      (r : CheckResult F)
      → truthy code ≡ true
      → contains a.failures code ≡ true
      → contains (report a codes reason r).reason_codes code ≡ true
  unfolding report
  report-code code a codes reason r t h =
      contains-distinct_codes (r.reason_codes ++ a.failures ++ codes) code t (
        ground (
          arith,
          contains-append (r.reason_codes ++ a.failures) codes code,
          contains-append r.reason_codes a.failures code,
        ))

  abbrev outcome : (Attempts → CheckResult F) → Pass F → CheckResult F
  outcome later (stop r) = r
  outcome later (next b) = later b

  module _ (code : String) (t : truthy code ≡ true) where
    ended-Keeps :
        (key : String) (provider : Provider) (a : Attempts) (x : Execution F)
        → contains a.failures code ≡ true
        → Keeps code (ended registries task credential key provider a x)
    unfolding executed_through
    ended-Keeps key provider a (answered r) h = report-code code a _ _ _ t h
    ended-Keeps key provider a (raised m) h = skip-code code key _ a h

    try_provider-Keeps :
        (key : String) (execute : Task → Credential F → Execution F) (a : Attempts)
        (o : Option Provider)
        → contains a.failures code ≡ true
        → Keeps code (try_provider registries task credential key execute a o)
    try_provider-Keeps key execute a none h = skip-code code key _ a h
    try_provider-Keeps key execute a (some provider) h =
        if_either code (provider.supports task.verifier_key credential.category) _ _
          (ended-Keeps key provider a _ h) (skip-code code key _ a h)

    try_verifier-Keeps :
        (key : String) (a : Attempts) (o : Option (Task → Credential F → Execution F))
        → contains a.failures code ≡ true
        → Keeps code (try_verifier registries task credential key a o)
    try_verifier-Keeps key a none h = skip-code code key _ a h
    try_verifier-Keeps key a (some execute) h =
        try_provider-Keeps key execute a (registries.provider key) h

    try_candidate-Keeps :
        (key : String) (a : Attempts)
        → contains a.failures code ≡ true
        → Keeps code (try_candidate registries task credential key a)
    unfolding try_candidate manual_selected
    try_candidate-Keeps key a h = if_either code (not (truthy key)) _ _ h (
        if_either code (key == "manual_review") _ _ (report-code code (attempt key a) _ _ _ t h)
          (try_verifier-Keeps key (attempt key a) (registries.verifier task.verifier_key) h))

    pass_on :
        (rest : List String) (p : Pass F)
        → ((b : Attempts)
            → contains b.failures code ≡ true
            → contains (try_candidates registries task credential rest b).reason_codes code ≡ true)
        → Keeps code p
        → contains (outcome (try_candidates registries task credential rest) p).reason_codes code
          ≡ true
    pass_on rest (stop r) later kept = kept
    pass_on rest (next b) later kept = later b kept

    codes_kept :
        (candidates : List String) (a : Attempts)
        → contains a.failures code ≡ true
        → contains (try_candidates registries task credential candidates a).reason_codes code ≡ true
    unfolding try_candidates no_provider
    codes_kept [] a h = report-code code a _ _ _ t h
    codes_kept (raw ∷ rest) a h =
        pass_on rest _ (codes_kept rest) (try_candidate-Keeps (canonical_provider_key raw) a h)

  -- The reason is among those of the attempts.
  abbrev IsRecorded : Option String → Attempts → Type 0
  IsRecorded none b = Unit
  IsRecorded (some code) b = contains b.failures code ≡ true

  abbrev GoesOn : String → Option String → Attempts → Type 0
  GoesOn key code a =
      (b : Attempts) × (try_candidate registries task credential key a ≡ next b) × IsRecorded code b

  recorded-last : (codes : List String) (code : String) → contains (codes ++ code ∷ []) code ≡ true
  recorded-last codes code = ground (arith, contains-append codes (code ∷ []) code, ==-refl code)

  tried :
      (key : String) (a : Attempts)
      → IsTried key
      → try_candidate registries task credential key a
        ≡ try_verifier registries task credential key
            (attempt key a)
            (registries.verifier task.verifier_key)
  unfolding try_candidate
  tried key a (named, other) = rw (named, other) refl

  -- A reason code that is given is not blank.
  abbrev IsNamed : Option String → Type 0
  IsNamed none = Unit
  IsNamed (some code) = truthy code ≡ true

  code-IsNamed :
      (key : String) (code : Option String)
      → PassedOver registries task credential key code
      → IsNamed code
  code-IsNamed key _ (blank e) = tt
  code-IsNamed key _ (no_verifier m v) = refl
  code-IsNamed key _ (not_registered execute m v p) = refl
  code-IsNamed key _ (not_supporting execute provider m v p s) = refl
  code-IsNamed key _ (failing execute provider message m v p s e) = refl

  -- Passing over a candidate records why.
  passed-GoesOn :
      (key : String) (code : Option String) (a : Attempts)
      → PassedOver registries task credential key code
      → GoesOn key code a
  unfolding try_candidate
  passed-GoesOn key _ a (blank e) = (a, rw e refl, tt)
  passed-GoesOn key _ a (no_verifier m v) = (
    skip key "VERIFIER_NOT_REGISTERED" (attempt key a),
    tried key a m ∙ rw v refl,
    recorded-last a.failures _,
  )
  passed-GoesOn key _ a (not_registered execute m v p) = (
    skip key "PROVIDER_NOT_REGISTERED" (attempt key a),
    tried key a m ∙ rw (v, p) refl,
    recorded-last a.failures _,
  )
  passed-GoesOn key _ a (not_supporting execute provider m v p s) = (
    skip key "PROVIDER_CAPABILITY_MISMATCH" (attempt key a),
    tried key a m ∙ rw (v, p, s) refl,
    recorded-last a.failures _,
  )
  passed-GoesOn key _ a (failing execute provider message m v p s e) = (
    failed_with message (attempt key a),
    tried key a m ∙ rw (v, p, s, e) refl,
    recorded-last a.failures _,
  )

  go_on :
      (raw : String) (rest : List String) (a b : Attempts)
      → try_candidate registries task credential (canonical_provider_key raw) a ≡ next b
      → try_candidates registries task credential (raw ∷ rest) a
        ≡ try_candidates registries task credential rest b
  unfolding try_candidates
  go_on raw rest a b e = rw (try_candidates, e) refl

  -- Whenever the chain passes over a candidate that is not blank, having passed over all those
  -- before it, the reason code that says why is among the reason codes of the result, whichever of
  -- the later candidates, or of the manual verifiers, produces it.
  pub failed_attempts_are_reported :
      (before : List String) (raw : String) (rest : List String) (a : Attempts) (code : String)
      → All
          (λ c.
            (reason : Option String) × PassedOver registries task credential
              (canonical_provider_key c)
              reason)
          before
      → PassedOver registries task credential (canonical_provider_key raw) (some code)
      → contains
          (try_candidates registries task credential (before ++ raw ∷ rest) a).reason_codes
          code
        ≡ true
  failed_attempts_are_reported [] raw rest a code overs over =
      let (b, goes, recorded) = passed-GoesOn (canonical_provider_key raw) (some code) a over in
      ap (λ (r : CheckResult F). contains r.reason_codes code) (go_on raw rest a b goes)
      ∙ codes_kept code (code-IsNamed (canonical_provider_key raw) (some code) over) rest b recorded
  failed_attempts_are_reported (c ∷ before) raw rest a code ((reason, over), overs) last =
      let (b, goes, _) = passed-GoesOn (canonical_provider_key c) reason a over in
      ap (λ (r : CheckResult F). contains r.reason_codes code)
        (go_on c (before ++ raw ∷ rest) a b goes)
      ∙ failed_attempts_are_reported before raw rest b code overs last
