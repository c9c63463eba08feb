-- ===== src/Registry/Live/Underway.antt =====
-- internal/provider/registry.go: what a step of the registry keeps, when every refresh under way has its
-- answers from one of the rounds.
use go_ai_proxy.Common.{◌≡◌, ◌⊎◌, inr, refl, ap, ◌∙◌, Option, none, some, List, [], ◌∷◌}
use go_ai_proxy.Common.All.{All, All-middle, All-insert}
use go_ai_proxy.Common.In.{In}
use go_ai_proxy.Registry.{ProviderEntry, Registry, Tables, no_tables, build, refresh}
use go_ai_proxy.Registry.Live.{
  Models, Run, begin, Moved, fetched, swapped, advance_run, Loop, before, starting, selecting,
  refreshing, stopped, Event, launch, tick, turn, ctx_done, loop_step, System, Step, loop_moves,
  refresh_called, call_fetches, call_ends, started, refreshed, advance_rest,
}

-- Start has returned.
abbrev pub HasStarted : Loop → Type 0
HasStarted before = ⊥
HasStarted (starting run) = ⊥
HasStarted _ = Unit {0}

module _ (rounds : List Models) where
  -- The registry is as one whole refresh leaves it, with the answers of one of the rounds.
  abbrev pub IsRefreshed : Registry → Registry → Type 0
  IsRefreshed r now = (models : Models) × In models rounds × (now ≡ refresh models r)

  -- It is that, or as it was before the first refresh.
  abbrev pub IsWhole : Registry → Registry → Type 0
  IsWhole r now = (now ≡ r) ⊎ IsRefreshed r now

  -- The round of a run is one of them, and these are the tables that the run is on its way to.
  abbrev pub IsUnderway : Registry → Run → Type 0
  IsUnderway r run =
      In run.models rounds
      × (build run.models run.rest run.built ≡ build run.models r.providers no_tables)

  abbrev pub LoopSound : Registry → Registry → Loop → Type 0
  LoopSound r now before = Unit {0}
  LoopSound r now (starting run) = IsUnderway r run
  LoopSound r now selecting = IsRefreshed r now
  LoopSound r now (refreshing run) = IsUnderway r run × IsRefreshed r now
  LoopSound r now stopped = IsRefreshed r now

  pub record Inv (r : Registry) (s : System) : Type 0 where
    pub same : s.registry.providers ≡ r.providers
    pub whole : IsWhole r s.registry
    pub loop_lem : LoopSound r s.registry s.loop
    pub underway : All (IsUnderway r) s.calls

  begin-IsUnderway :
      (r now : Registry) (models : Models)
      → In models rounds
      → now.providers ≡ r.providers
      → IsUnderway r (begin models now)
  begin-IsUnderway r now models b e = (b, ap (λ es. build models es no_tables) e)

  -- What a step of a run keeps, and what its last step makes.
  abbrev MovedSound : Registry → Run → Moved → Type 0
  MovedSound r run (fetched run') = IsUnderway r run'
  MovedSound r run (swapped now) = IsRefreshed r now

  same_tables :
      (r now : Registry) (t u : Tables)
      → now.providers ≡ r.providers
      → t ≡ u
      → record now { tables = t } ≡ record r { tables = u }
  same_tables r now t u e h = λ i. record { providers = e i; tables = h i }

  advance_rest-MovedSound :
      (r now : Registry) (run : Run) (rest : List ProviderEntry)
      → run.rest ≡ rest
      → now.providers ≡ r.providers
      → IsUnderway r run
      → MovedSound r run (advance_rest rest run now)
  unfolding advance_rest refresh build
  advance_rest-MovedSound r now run [] h e u =
      (run.models, u.0, same_tables r now run.built _ e (rw h at u.1))
  advance_rest-MovedSound r now run (x ∷ xs) h e u = (u.0, rw h at u.1)

  advance_run-MovedSound :
      (r now : Registry) (run : Run)
      → now.providers ≡ r.providers
      → IsUnderway r run
      → MovedSound r run (advance_run run now)
  unfolding advance_run
  advance_run-MovedSound r now run e u = advance_rest-MovedSound r now run run.rest refl e u

  refresh-providers : (models : Models) (r : Registry) → (refresh models r).providers ≡ r.providers
  unfolding refresh
  refresh-providers models r = refl

  IsRefreshed-providers : (r now : Registry) → IsRefreshed r now → now.providers ≡ r.providers
  IsRefreshed-providers r now (models, b, h) = ap (λ x. x.providers) h ∙ refresh-providers models r

  -- What a step of the loop leaves: the same providers, whole tables, and a loop that fits them.
  abbrev Kept : Registry → Loop × Registry → Type 0
  Kept r (loop, now) = (now.providers ≡ r.providers) × IsWhole r now × LoopSound r now loop

  after_start :
      (r now : Registry) (run : Run) (m : Moved)
      → now.providers ≡ r.providers
      → IsWhole r now
      → MovedSound r run m
      → Kept r (started m now)
  after_start r now run (fetched run') e w h = (e, w, h)
  after_start r now run (swapped r') e w h = (IsRefreshed-providers r r' h, inr h, h)

  after_turn :
      (r now : Registry) (run : Run) (m : Moved)
      → now.providers ≡ r.providers
      → IsRefreshed r now
      → MovedSound r run m
      → Kept r (refreshed m now)
  after_turn r now run (fetched run') e w h = (e, inr w, (h, w))
  after_turn r now run (swapped r') e w h = (IsRefreshed-providers r r' h, inr h, h)

  abbrev KeptIf : Registry → Option (Loop × Registry) → Type 0
  KeptIf r none = Unit {0}
  KeptIf r (some x) = Kept r x

  -- The round that an event begins is one of them.
  abbrev IsBegun : Event → Type 0
  IsBegun (launch models) = In models rounds
  IsBegun (tick models) = In models rounds
  IsBegun turn = Unit {0}
  IsBegun ctx_done = Unit {0}

  loop_step-Kept :
      (r now : Registry) (loop : Loop) (ev : Event)
      → now.providers ≡ r.providers
      → IsWhole r now
      → LoopSound r now loop
      → IsBegun ev
      → KeptIf r (loop_step loop ev now)
  unfolding loop_step
  loop_step-Kept r now before (launch models) e w l b = (e, w, begin-IsUnderway r now models b e)
  loop_step-Kept r now before (tick models) e w l b = tt
  loop_step-Kept r now before turn e w l b = tt
  loop_step-Kept r now before ctx_done e w l b = tt
  loop_step-Kept r now (starting run) turn e w l b =
      after_start r now run (advance_run run now) e w (advance_run-MovedSound r now run e l)
  loop_step-Kept r now (starting run) (launch models) e w l b = tt
  loop_step-Kept r now (starting run) (tick models) e w l b = tt
  loop_step-Kept r now (starting run) ctx_done e w l b = tt
  loop_step-Kept r now selecting (tick models) e w l b =
      (e, w, (begin-IsUnderway r now models b e, l))
  loop_step-Kept r now selecting ctx_done e w l b = (e, w, l)
  loop_step-Kept r now selecting (launch models) e w l b = tt
  loop_step-Kept r now selecting turn e w l b = tt
  loop_step-Kept r now (refreshing run) turn e w l b =
      after_turn r now run (advance_run run now) e l.1 (advance_run-MovedSound r now run e l.0)
  loop_step-Kept r now (refreshing run) (launch models) e w l b = tt
  loop_step-Kept r now (refreshing run) (tick models) e w l b = tt
  loop_step-Kept r now (refreshing run) ctx_done e w l b = tt
  loop_step-Kept r now stopped ev e w l b = stopped_stays r now ev
    where
      stopped_stays : (r now : Registry) (ev : Event) → KeptIf r (loop_step stopped ev now)
      stopped_stays r now (launch models) = tt
      stopped_stays r now (tick models) = tt
      stopped_stays r now turn = tt
      stopped_stays r now ctx_done = tt

  -- Tables of another whole refresh are as good for the loop.
  LoopSound-refreshed :
      (r now now' : Registry) (loop : Loop)
      → LoopSound r now loop
      → IsRefreshed r now'
      → LoopSound r now' loop
  LoopSound-refreshed r now now' before l w = tt
  LoopSound-refreshed r now now' (starting run) l w = l
  LoopSound-refreshed r now now' selecting l w = w
  LoopSound-refreshed r now now' (refreshing run) l w = (l.0, w)
  LoopSound-refreshed r now now' stopped l w = w

  abbrev pub Begins : {s t : System} → Step s t → Type 0
  Begins (loop_moves ev loop r e h) = IsBegun ev
  Begins (refresh_called models h) = In models rounds
  Begins (call_fetches xs ys run run' split e h) = Unit {0}
  Begins (call_ends xs ys run r split e h) = Unit {0}

  pub Step-Inv : (r : Registry) (s t : System) (st : Step s t) → Begins st → Inv r s → Inv r t
  Step-Inv r s t (loop_moves ev loop now e h) b v =
      let k : Kept r (loop, now) =
        rw e at (loop_step-Kept r s.registry s.loop ev v.same v.whole v.loop_lem b) in
      rw h (record { same = k.0; whole = k.1; loop_lem = k.2; underway = v.underway })
  Step-Inv r s t (refresh_called models h) b v = rw h (record {
    same = v.same;
    whole = v.whole;
    loop_lem = v.loop_lem;
    underway = (begin-IsUnderway r s.registry models b v.same, v.underway);
  })
  Step-Inv r s t (call_fetches xs ys run run' split e h) b v =
      let (u, rest) = All-middle (IsUnderway r) xs ys run (rw split at v.underway) in
      let u' : IsUnderway r run' = rw e at (advance_run-MovedSound r s.registry run v.same u) in
      rw h (record {
        same = v.same;
        whole = v.whole;
        loop_lem = v.loop_lem;
        underway = All-insert (IsUnderway r) xs ys run' u' rest;
      })
  Step-Inv r s t (call_ends xs ys run now split e h) b v =
      let (u, rest) = All-middle (IsUnderway r) xs ys run (rw split at v.underway) in
      let made : IsRefreshed r now = rw e at (advance_run-MovedSound r s.registry run v.same u) in
      rw h (record {
        same = IsRefreshed-providers r now made;
        whole = inr made;
        loop_lem = LoopSound-refreshed r s.registry now s.loop v.loop_lem made;
        underway = rest;
      })

  pub started-IsRefreshed :
      (r now : Registry) (loop : Loop) → LoopSound r now loop → HasStarted loop → IsRefreshed r now
  started-IsRefreshed r now before l h = absurd h
  started-IsRefreshed r now (starting run) l h = absurd h
  started-IsRefreshed r now selecting l h = l
  started-IsRefreshed r now (refreshing run) l h = l.1
  started-IsRefreshed r now stopped l h = l
