-- ===== src/Registry/Live.antt =====
-- internal/provider/registry.go: Start with its goroutine, and any number of calls of Refresh beside it,
-- interleaved. A refresh in progress is a `Run`: each fetch from a provider is one step, and the writes under
-- the lock at its end are one more. Queries hold the lock, so that each sees the registry of one state.
-- A run has, for each provider, what Models answers in it. How many calls of Refresh golang.org/x/sync
-- lets through together is left open.
pub mod Underway
pub mod Whole
use go_ai_proxy.Common.{◌≡◌, ◌⊎◌, inl, inr, refl, Option, none, some, List, [], ◌∷◌, ◌++◌}
use go_ai_proxy.Common.All.{All, All-append}
use go_ai_proxy.Domain.{Model, ProviderId}
use go_ai_proxy.Registry.{ProviderEntry, Registry, Tables, no_tables, add_entry, build, refresh}

abbrev pub Models : Type 0
Models = ProviderId → Option (List Model)

-- A call of refresh: the providers that it has not asked yet, and the new tables so far.
pub record Run : Type 0 where
  pub models : Models
  pub rest : List ProviderEntry
  pub built : Tables

abbrev pub begin : Models → Registry → Run
begin models r = record { models = models; rest = r.providers; built = no_tables }

-- A step of refresh: one round of the loop over the providers, or the writes at the end.
pub data Moved : Type 0 where
  fetched : Run → Moved
  swapped : Registry → Moved

advance_rest : List ProviderEntry → Run → Registry → Moved
advance_rest [] run r = swapped (record r { tables = run.built })
advance_rest (e ∷ es) run r =
    fetched (record run { rest = es; built = add_entry e (run.models e.provider) run.built })

unfoldable pub advance_run : Run → Registry → Moved
unfolding advance_rest
advance_run run r = advance_rest run.rest run r

-- Start, and the goroutine that it launches.
pub data Loop : Type 0 where
  before : Loop
  starting : Run → Loop
  selecting : Loop
  refreshing : Run → Loop
  stopped : Loop

-- What the loop goes on by: Start or a tick with the answers of the providers, its own turn, or the
-- end of its context.
pub data Event : Type 0 where
  launch : Models → Event
  tick : Models → Event
  turn : Event
  ctx_done : Event

abbrev started : Moved → Registry → Loop × Registry
started (fetched run) r = (starting run, r)
started (swapped r') r = (selecting, r')

abbrev refreshed : Moved → Registry → Loop × Registry
refreshed (fetched run) r = (refreshing run, r)
refreshed (swapped r') r = (selecting, r')

unfoldable pub loop_step : Loop → Event → Registry → Option (Loop × Registry)
unfolding advance_run
loop_step before (launch models) r = some (starting (begin models r), r)
loop_step (starting run) turn r = some (started (advance_run run r) r)
loop_step selecting (tick models) r = some (refreshing (begin models r), r)
loop_step selecting ctx_done r = some (stopped, r)
loop_step (refreshing run) turn r = some (refreshed (advance_run run r) r)
loop_step _ _ r = none

-- The registry, the loop, and the calls of Refresh that have not returned.
pub record System : Type 0 where
  pub registry : Registry
  pub loop : Loop
  pub calls : List Run

pub data Step (s t : System) : Type 0 where
  loop_moves :
      (ev : Event) (loop : Loop) (r : Registry)
      → loop_step s.loop ev s.registry ≡ some (loop, r)
      → t ≡ record s { registry = r; loop = loop }
      → Step s t
  refresh_called :
      (models : Models) → t ≡ record s { calls = begin models s.registry ∷ s.calls } → Step s t
  call_fetches :
      (xs ys : List Run) (run run' : Run)
      → s.calls ≡ xs ++ run ∷ ys
      → advance_run run s.registry ≡ fetched run'
      → t ≡ record s { calls = xs ++ run' ∷ ys }
      → Step s t
  call_ends :
      (xs ys : List Run) (run : Run) (r : Registry)
      → s.calls ≡ xs ++ run ∷ ys
      → advance_run run s.registry ≡ swapped r
      → t ≡ record s { registry = r; calls = xs ++ ys }
      → Step s t

-- The states from a registry whose providers are registered and which nothing has used yet.
pub data Reach (r : Registry) : System → Type 0 where
  here : Reach r (record { registry = r; loop = before; calls = [] })
  next : {s t : System} → Reach r s → Step s t → Reach r t
