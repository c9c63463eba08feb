-- ===== src/Registry.antt =====
-- internal/provider/registry.go: the registered providers, the routing tables that `refresh` builds
-- from their model lists, and the queries on them. A refresh sees, for each provider, the result of
-- `Models(ctx)` (`none` for an error); a query that sorts sees the request counts of the moment.
pub mod Offers
pub mod Refresh
pub mod Selector
pub mod Glob
pub mod Route
pub mod Live
use go_ai_proxy.Common.{
  ℕ, Bool, true, false, ◌||◌, Option, none, some, List, [], ◌∷◌, ◌++◌, any, ◌==◌, or_default,
  if◌then◌else◌,
}
use go_ai_proxy.Common.Text.{Text}
use go_ai_proxy.Common.Eq.{nat_eq, list_eq}
use go_ai_proxy.Common.Assoc.{Assoc, lookup, insert, has_key}
use go_ai_proxy.Domain.{Model, ProviderId, inf}

pub record ProviderEntry : Type 0 where
  pub provider : ProviderId
  pub capability_overrides : Option (Assoc Text (List Text))
  pub context_length_overrides : Option (Assoc Text ℕ)

-- RegisterOption: what it does to an entry.
abbrev pub with_capabilities : Assoc Text (List Text) → ProviderEntry → ProviderEntry
with_capabilities caps e = record e { capability_overrides = some caps }

abbrev pub with_context_lengths : Assoc Text ℕ → ProviderEntry → ProviderEntry
with_context_lengths lengths e = record e { context_length_overrides = some lengths }

abbrev pub bare_entry : ProviderId → ProviderEntry
bare_entry p = record { provider = p; capability_overrides = none; context_length_overrides = none }

-- The fields that the mutex guards.
pub record Tables : Type 0 where
  pub index : Assoc Text ProviderId
  pub fallbacks : Assoc Text (List ProviderId)
  pub globs : List Text
  pub all_models : List Model

pub record Registry : Type 0 where
  pub providers : List ProviderEntry
  pub tables : Tables
  pub open tables use *

abbrev pub no_tables : Tables
no_tables = record { index = []; fallbacks = []; globs = []; all_models = [] }

unfoldable pub new_registry : Registry
new_registry = record { providers = []; tables = no_tables }

unfoldable pub register : ProviderEntry → Registry → Registry
register e r = record r { providers = r.providers ++ e ∷ [] }

abbrev is_meta : ℕ → Bool
is_meta c = c == b'*' || c == b'?' || c == b'['

-- isGlob
unfoldable pub is_glob : Text → Bool
is_glob id = any is_meta id

override_caps : Option (Assoc Text (List Text)) → Model → Model
override_caps none m = m
override_caps (some caps) m = record m {
  capabilities = or_default (lookup m.id caps) m.capabilities;
}

override_length : Option (Assoc Text ℕ) → Model → Model
override_length none m = m
override_length (some lengths) m = record m {
  max_model_len = or_default (lookup m.id lengths) m.max_model_len;
}

abbrev clear_costs : Bool → Model → Model
clear_costs glob m =
    if glob then record m { input_cost_per_token = none; output_cost_per_token = none } else m

abbrev or_inf : Option ℕ → Option ℕ
or_inf c = some (or_default c inf)

normalise : Model → Model
normalise m =
    let c = clear_costs (is_glob m.id) m in
    record c {
      input_cost_per_token = or_inf c.input_cost_per_token;
      output_cost_per_token = or_inf c.output_cost_per_token;
    }

-- A model as one provider's entry turns it into a row of the tables.
unfoldable pub prepare : ProviderEntry → Model → Model
unfolding override_caps override_length normalise
prepare e m =
    normalise (override_length e.context_length_overrides (override_caps e.capability_overrides m))

-- The body of the loop over one provider's models.
unfoldable pub add_model : ProviderId → Model → Tables → Tables
add_model p m t =
    let listed = if has_key m.id t.index then t else record t {
      index = insert m.id p t.index;
      all_models = t.all_models ++ m ∷ [];
      globs = if is_glob m.id then t.globs ++ m.id ∷ [] else t.globs;
    } in
    record listed {
      fallbacks = insert m.id (or_default (lookup m.id t.fallbacks) [] ++ p ∷ []) t.fallbacks;
    }

unfoldable pub add_models : ProviderEntry → List Model → Tables → Tables
add_models e [] t = t
add_models e (m ∷ ms) t = add_models e ms (add_model e.provider (prepare e m) t)

-- A provider that fails is skipped.
unfoldable pub add_entry : ProviderEntry → Option (List Model) → Tables → Tables
add_entry e none t = t
add_entry e (some models) t = add_models e models t

unfoldable pub build : (ProviderId → Option (List Model)) → List ProviderEntry → Tables → Tables
build models [] t = t
build models (e ∷ es) t = build models es (add_entry e (models e.provider) t)

unfoldable pub refresh : (ProviderId → Option (List Model)) → Registry → Registry
refresh models r = record r { tables = build models r.providers no_tables }

-- CapabilitiesFor
find_caps : Text → List Model → Option (List Text)
find_caps id [] = none
find_caps id (m ∷ ms) = if list_eq.same m.id id then some m.capabilities else find_caps id ms

unfoldable pub capabilities_for : Registry → Text → Option (List Text)
unfolding find_caps
capabilities_for r id = find_caps id r.all_models
