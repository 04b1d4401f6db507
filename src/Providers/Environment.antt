-- ===== src/Providers/Environment.antt =====
-- verifier_providers/policies.py: how the settings are read from the process's environment.
use verification_engine.Base.{
  Bool, List, Option, String, [], bool_eq, contains, dedupe, if◌then◌else◌, lower, nat_eq, none,
  occurs_in, option_eq, some, string_eq, strip, truthy, ℕ, ◌++◌, ◌==◌, ◌∷◌,
}
use Prim.Native.Char.{code}

-- `os.getenv`
abbrev pub Environment : Type 0
Environment = String → Option String

comma_parts : String → String × List String
comma_parts String.[] = ("", [])
comma_parts (String.◌∷◌ c s) =
    let (part, parts) = comma_parts s in
    if code c == b',' then ("", part ∷ parts) else (String.◌∷◌ c part, parts)

-- `[item.strip() for item in items if item.strip()]`
abbrev pub stripped : List String → List String
stripped [] = []
stripped (x ∷ xs) = let rest = stripped xs in if truthy (strip x) then strip x ∷ rest else rest

abbrev pub truthy_words : List String
truthy_words = "1" ∷ "true" ∷ "yes" ∷ "on" ∷ []

-- `_read_bool`
unfoldable pub read_bool : Environment → String → Bool → Bool
read_bool getenv name default = elim (getenv name) [
  | none ↦ default
  | some value ↦ contains truthy_words (lower (strip value))
]

-- `value in (None, "")`, and what is read otherwise
abbrev pub unless_blank : {A : Type 0} → Option String → A → (String → A) → A
unless_blank none default read = default
unless_blank (some value) default read = if truthy value then read value else default

abbrev pub or_default : Option ℕ → ℕ → ℕ
or_default none default = default
or_default (some n) default = n

-- `_read_int`, by `max(int(value), 0)`, none on a ValueError
unfoldable pub read_int : (String → Option ℕ) → Environment → String → ℕ → ℕ
read_int int_of getenv name default =
    unless_blank (getenv name) default (λ value. or_default (int_of value) default)

-- `_read_csv`
unfoldable pub read_csv : Environment → String → List String → List String
unfolding comma_parts
read_csv getenv name default =
    unless_blank (getenv name) default
      (λ value. let (part, parts) = comma_parts value in stripped (part ∷ parts))

abbrev lowered_hosts : Option String → List String
lowered_hosts none = []
lowered_hosts (some host) = if truthy host then lower host ∷ [] else []

-- `normalize_domain_allowlist`; `url_host` is `urlparse(…).hostname`
unfoldable pub normalize_domain_allowlist : (String → Option String) → List String → List String
unfolding occurs_in dedupe
normalize_domain_allowlist url_host values = dedupe (hosts (stripped values))
  where
    hosts : List String → List String
    hosts [] = []
    hosts (x ∷ xs) = lowered_hosts (if occurs_in "://" x then url_host x else some x) ++ hosts xs
