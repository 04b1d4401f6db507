-- ===== src/Providers/Registry/Found.antt =====
-- verifier_providers/registry.py: what holds of all registered providers holds of the one found.
use mathlib.Core.Path.{subst}
use mathlib.Core.Option.{none-ne-some, some-injective}
use verification_engine.Base.{
  All, Bool, Bool-cases, Option, String, [], ap, bool_eq, get_key, if_either, if◌then◌else◌, inl,
  inr, nat_eq, none, option_eq, put_key, some, string_eq, sym, true, truthy, ◌==◌, ◌∙◌, ◌∷◌, ◌≡◌,
  ◌⊎◌,
}
use verification_engine.Providers.Registry.{
  Provider, Registry, find_provider, first_supporting, preferred_in, supporting, supports,
}

pub All-put_key :
    (P : Provider → Type 0) (key : String) (p : Provider) (registry : Registry)
    → P p
    → All (λ e. P e.1) registry
    → All (λ e. P e.1) (put_key key p registry)
unfolding put_key
All-put_key P key p [] h hs = (h, tt)
All-put_key P key p (e ∷ rest) h hs =
    if_either (All (λ (e : String × Provider). P e.1)) (e.0 == key) ((key, p) ∷ rest)
      (e ∷ put_key key p rest) (λ _. (h, hs.1)) (λ _. (hs.0, All-put_key P key p rest h hs.1))

get_key-All :
    (P : Provider → Type 0) (key : String) (registry : Registry) (p : Provider)
    → All (λ e. P e.1) registry
    → get_key key registry ≡ some p
    → P p
unfolding get_key
get_key-All P key [] p hs found = absurd (none-ne-some p found)
get_key-All P key (e ∷ rest) p hs found = elim (Bool-cases (e.0 == key)) [
  | inl same ↦
      subst P
        (some-injective e.1 p
          (ap (λ (b : Bool). if b then some e.1 else get_key key rest) (sym same) ∙ found))
        hs.0
  | inr other ↦
      get_key-All P key rest p hs.1
        (ap (λ (b : Bool). if b then some e.1 else get_key key rest) (sym other) ∙ found)
]

first_supporting-All :
    (P : Provider → Type 0) (verifier_key category : String) (registry : Registry) (p : Provider)
    → All (λ e. P e.1) registry
    → first_supporting verifier_key category registry ≡ some p
    → P p × (supports verifier_key category p ≡ true)
unfolding first_supporting
first_supporting-All P verifier_key category [] p hs found = absurd (none-ne-some p found)
first_supporting-All P verifier_key category (e ∷ rest) p hs found =
    elim (Bool-cases (supports verifier_key category e.1)) [
      | inl yes_it ↦
          subst (λ q. P q × (supports verifier_key category q ≡ true))
            (some-injective e.1 p (
              ap (λ (b : Bool). if b then some e.1 else first_supporting verifier_key category rest)
                (sym yes_it)
              ∙ found))
            (hs.0, yes_it)
      | inr other ↦ first_supporting-All P verifier_key category rest p hs.1 (
          ap (λ (b : Bool). if b then some e.1 else first_supporting verifier_key category rest)
            (sym other)
          ∙ found)
    ]

supporting-cases :
    (verifier_key category : String) (o other : Option Provider) (p : Provider)
    → supporting verifier_key category o other ≡ some p
    → ((o ≡ some p) × (supports verifier_key category p ≡ true)) ⊎ (other ≡ some p)
supporting-cases verifier_key category none other p found = inr found
supporting-cases verifier_key category (some q) other p found =
    elim (Bool-cases (supports verifier_key category q)) [
      | inl yes_it ↦
          let e = ap (λ (b : Bool). if b then some q else other) (sym yes_it) ∙ found in
          inl
            (e, subst (λ r. supports verifier_key category r ≡ true) (some-injective q p e) yes_it)
      | inr no_it ↦ inr (ap (λ (b : Bool). if b then some q else other) (sym no_it) ∙ found)
    ]

preferred_in-All :
    (P : Provider → Type 0) (registry : Registry) (preferred : Option String) (p : Provider)
    → All (λ e. P e.1) registry
    → preferred_in registry preferred ≡ some p
    → P p
preferred_in-All P registry none p hs found = absurd (none-ne-some p found)
preferred_in-All P registry (some key) p hs found = elim (Bool-cases (truthy key)) [
  | inl named ↦
      get_key-All P key registry p hs
        (ap (λ (b : Bool). if b then get_key key registry else none) (sym named) ∙ found)
  | inr blank ↦ absurd (
      none-ne-some p
        (ap (λ (b : Bool). if b then get_key key registry else none) (sym blank) ∙ found))
]

-- Whatever holds of all registered providers holds of the one that is found, and it supports what
-- it is asked for.
pub find_provider-All :
    (P : Provider → Type 0) (registry : Registry) (verifier_key category : String)
    (preferred : Option String) (p : Provider)
    → All (λ e. P e.1) registry
    → find_provider registry verifier_key category preferred ≡ some p
    → P p × (supports verifier_key category p ≡ true)
unfolding find_provider
find_provider-All P registry verifier_key category preferred p hs found =
    elim (supporting-cases verifier_key category (preferred_in registry preferred)
      (first_supporting verifier_key category registry) p found) [
        | inl (e, ok_it) ↦ (preferred_in-All P registry preferred p hs e, ok_it)
        | inr e ↦ first_supporting-All P verifier_key category registry p hs e
      ]
