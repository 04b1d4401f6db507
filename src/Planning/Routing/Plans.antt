-- ===== src/Planning/Routing/Plans.antt =====
-- verification_domain/routing.py: what a planned route rests on.

use mathlib.Core.Bool.{true≢false}
use mathlib.Core.Option.{none-ne-some}
use verification_engine.Base.{
  Bool, Option, String, ap, apart, arith, bool_eq, false, get_key, if_either, if◌then◌else◌, inl,
  inr, nat_eq, none, not, option_eq, refl, some, string_eq, sym, true, ◌&&◌, ◌==◌, ◌∙◌, ◌≡◌, ◌⊎◌,
}
use verification_engine.Providers.Environment.{Environment}
use verification_engine.Providers.Policy.{ProviderRuntimePolicy, demo_mock, external_configured}
use verification_engine.Providers.Policy.Loading.{Parsers, load_provider_runtime_policy}
use verification_engine.Providers.Registry.{
  Provider, Registry, build_default_provider_registry, find_provider, get_capabilities, key_of,
  supports,
}
use verification_engine.Providers.Registry.Live.{IsSwitchedOn, find_provider-IsPermitted, is_live}
use verification_engine.Planning.Routing.{
  Credential, VerifierRouteDecision, manual_route, not_required, planned_mode,
  preferred_provider_for_category, provider_route, route, route_by_category, route_category,
  route_with,
}

-- Either no provider is planned, and manual review is recommended if verification is required; or
-- one is that supports the selected verifier and the category, manual review is not recommended,
-- and a live result is planned only for a provider that the environment switches on.
pub data IsPlanned (parsers : Parsers) (getenv : Environment) (c : Credential)
    (d : VerifierRouteDecision) : Type 0 where
  nobody :
      d.planned_provider_key ≡ none
      → d.planned_is_live_result ≡ false
      → d.manual_review_recommended ≡ c.requires_verification
      → IsPlanned parsers getenv c d
  provided :
      (p : Provider)
      → d.planned_provider_key ≡ some (key_of p)
      → supports d.selected_verifier_key c.category p ≡ true
      → d.manual_review_recommended ≡ false
      → c.requires_verification ≡ true
      → (d.planned_is_live_result ≡ false) ⊎ IsSwitchedOn parsers getenv (key_of p)
      → IsPlanned parsers getenv c d

is_live_mode : String → Bool
is_live_mode mode = mode == "LIVE_PROVIDER"

live_of :
    (local demo external : Bool)
    → (demo && external) ≡ false
    → is_live_mode (
        if local
        then "LOCAL_MOCK"
        else if demo
        then "DEMO_PROVIDER"
        else if external
        then "LIVE_PROVIDER"
        else "PROVIDER")
      ≡ (not local && external)
unfolding string_eq is_live_mode
live_of true demo external apart = refl
live_of false true true apart = absurd (true≢false apart)
live_of false true false apart = refl
live_of false false true apart = refl
live_of false false false apart = refl

live_mode :
    (key mode : String)
    → (planned_mode key mode == "LIVE_PROVIDER")
      ≡ (not (key == "local_mock") && mode == external_configured)
unfolding planned_mode is_live_mode
live_mode key mode =
    live_of (key == "local_mock") (mode == demo_mock) (mode == external_configured)
      (apart mode demo_mock external_configured refl)

nothing_unknown :
    (category : String) → category ≡ "unknown" → get_key category route_by_category ≡ none
unfolding get_key route_by_category string_eq
nothing_unknown category e = ap (λ k. get_key k route_by_category) e

unknown_category :
    (category : String) (verifier : String × String)
    → get_key category route_by_category ≡ some verifier
    → (category == "unknown") ≡ false
unknown_category category verifier found = elim (string_eq.dec category "unknown") [
  | no n ↦ ground arith
  | yes e ↦ absurd (none-ne-some verifier (sym (nothing_unknown category e) ∙ found))
]

module _ (parsers : Parsers) (getenv : Environment) (c : Credential)
    (needed : c.requires_verification ≡ true) where
  abbrev policy : ProviderRuntimePolicy
  policy = load_provider_runtime_policy parsers getenv

  abbrev registry : Registry
  registry = build_default_provider_registry policy

  live_plan :
      (p : Provider)
      → (is_live p ≡ false) ⊎ IsSwitchedOn parsers getenv (key_of p)
      → ((planned_mode (key_of p) (get_capabilities p).operating_mode == "LIVE_PROVIDER") ≡ false)
        ⊎ IsSwitchedOn parsers getenv (key_of p)
  live_plan p (inl idle) = inl (live_mode (key_of p) (get_capabilities p).operating_mode ∙ idle)
  live_plan p (inr on) = inr on

  with_IsPlanned :
      (verifier : String × String) (o : Option Provider)
      → (c.category == "unknown") ≡ false
      → find_provider registry verifier.0 c.category (preferred_provider_for_category c.category).0
        ≡ o
      → IsPlanned parsers getenv c (route_with registry policy c verifier o)
  unfolding route_with manual_route provider_route
  with_IsPlanned verifier none known e = nobody refl refl (sym needed)
  with_IsPlanned verifier (some p) known e =
      let (supported, permitted) =
        find_provider-IsPermitted parsers getenv verifier.0 c.category
          (preferred_provider_for_category c.category).0 p e in
      provided p refl supported (ground (arith, known)) needed (live_plan p permitted)

  category_IsPlanned :
      (o : Option (String × String))
      → get_key c.category route_by_category ≡ o
      → IsPlanned parsers getenv c (route_category registry policy c o)
  unfolding route_category manual_route
  category_IsPlanned none e = nobody refl refl (sym needed)
  category_IsPlanned (some verifier) e =
      with_IsPlanned verifier _ (unknown_category c.category verifier e) refl

-- For every environment and credential: the decision of a router with the default registry and
-- policy plans no provider, and then recommends manual review exactly if verification is required;
-- or it plans one that supports the verifier and the category, recommends no manual review, and
-- announces a live result only if the environment switches external providers and this one on.
pub route-IsPlanned :
    (parsers : Parsers) (getenv : Environment) (c : Credential)
    → IsPlanned parsers getenv c (
        route
          (build_default_provider_registry (load_provider_runtime_policy parsers getenv))
          (load_provider_runtime_policy parsers getenv)
          c)
unfolding route not_required
route-IsPlanned parsers getenv c =
    if_either (IsPlanned parsers getenv c) c.requires_verification
      (route_category
        (build_default_provider_registry (load_provider_runtime_policy parsers getenv))
        (load_provider_runtime_policy parsers getenv) c (get_key c.category route_by_category))
      (not_required c) (λ needed. category_IsPlanned parsers getenv c needed _ refl)
      (λ needless. nobody refl refl (sym needless))
