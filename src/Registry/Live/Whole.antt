-- ===== src/Registry/Live/Whole.antt =====
-- internal/provider/registry.go: what queries can see while refreshes run.
use go_ai_proxy.Common.{inl, inr, refl, List, [], ◌∷◌, ◌++◌}
use go_ai_proxy.Common.All.{All-mono}
use go_ai_proxy.Common.In.{In-append_right}
use go_ai_proxy.Registry.{Registry}
use go_ai_proxy.Registry.Live.{
  Models, Run, Loop, before, starting, selecting, refreshing, stopped, launch, tick, turn, ctx_done,
  System, Step, loop_moves, refresh_called, call_fetches, call_ends, Reach, here, next,
}
use go_ai_proxy.Registry.Live.Underway.{
  HasStarted, IsRefreshed, IsWhole, IsUnderway, LoopSound, Inv, Begins, Step-Inv,
  started-IsRefreshed,
}

-- The rounds that a step begins, and those that have been begun on the way to a state: one when Start is
-- called, one at each tick, and one at each call of Refresh.
abbrev begun_by : {s t : System} → Step s t → List Models
begun_by (loop_moves (launch models) loop r e h) = models ∷ []
begun_by (loop_moves (tick models) loop r e h) = models ∷ []
begun_by (loop_moves turn loop r e h) = []
begun_by (loop_moves ctx_done loop r e h) = []
begun_by (refresh_called models h) = models ∷ []
begun_by (call_fetches xs ys run run' split e h) = []
begun_by (call_ends xs ys run r split e h) = []

abbrev pub begun : {r : Registry} {s : System} → Reach r s → List Models
begun here = []
begun (next p st) = begun_by st ++ begun p

begun_by-Begins :
    {s t : System} (st : Step s t) (rounds : List Models) → Begins (begun_by st ++ rounds) st
begun_by-Begins (loop_moves (launch models) loop r e h) rounds = inl refl
begun_by-Begins (loop_moves (tick models) loop r e h) rounds = inl refl
begun_by-Begins (loop_moves turn loop r e h) rounds = tt
begun_by-Begins (loop_moves ctx_done loop r e h) rounds = tt
begun_by-Begins (refresh_called models h) rounds = inl refl
begun_by-Begins (call_fetches xs ys run run' split e h) rounds = tt
begun_by-Begins (call_ends xs ys run r split e h) rounds = tt

-- More rounds do no harm.
module _ (more rounds : List Models) (r now : Registry) where
  IsRefreshed-mono : IsRefreshed rounds r now → IsRefreshed (more ++ rounds) r now
  IsRefreshed-mono (models, b, h) = (models, In-append_right models more rounds b, h)

  IsWhole-mono : IsWhole rounds r now → IsWhole (more ++ rounds) r now
  IsWhole-mono (inl e) = inl e
  IsWhole-mono (inr h) = inr (IsRefreshed-mono h)

  IsUnderway-mono : (run : Run) → IsUnderway rounds r run → IsUnderway (more ++ rounds) r run
  IsUnderway-mono run (b, h) = (In-append_right run.models more rounds b, h)

  LoopSound-mono :
      (loop : Loop) → LoopSound rounds r now loop → LoopSound (more ++ rounds) r now loop
  LoopSound-mono before l = tt
  LoopSound-mono (starting run) l = IsUnderway-mono run l
  LoopSound-mono selecting l = IsRefreshed-mono l
  LoopSound-mono (refreshing run) l = (IsUnderway-mono run l.0, IsRefreshed-mono l.1)
  LoopSound-mono stopped l = IsRefreshed-mono l

Inv-mono :
    (more rounds : List Models) (r : Registry) (s : System)
    → Inv rounds r s
    → Inv (more ++ rounds) r s
Inv-mono more rounds r s v = record {
  same = v.same;
  whole = IsWhole-mono more rounds r s.registry v.whole;
  loop_lem = LoopSound-mono more rounds r s.registry s.loop v.loop_lem;
  underway = All-mono (IsUnderway-mono more rounds r s.registry) s.calls v.underway;
}

Reach-Inv : {r : Registry} {s : System} (p : Reach r s) → Inv (begun p) r s
Reach-Inv here = record { same = refl; whole = inl refl; loop_lem = tt; underway = tt }
Reach-Inv {r} (next {s} {t} p st) =
    Step-Inv (begun_by st ++ begun p) r s t st (begun_by-Begins st (begun p))
      (Inv-mono (begun_by st) (begun p) r s (Reach-Inv p))

-- In every interleaving of Start, its goroutine and calls of Refresh, the registry that a query sees is
-- the one that Start found or the one that a single whole refresh makes of it, with the answers of one of
-- the rounds that were begun on the way: by Start, by a tick or by a call of Refresh. So it is never made
-- of some of the providers only, and never a mix of two rounds. Once Start has returned it is the latter,
-- also after the goroutine has stopped.
pub registry-IsWhole :
    {r : Registry} {s : System} (p : Reach r s)
    → IsWhole (begun p) r s.registry × (HasStarted s.loop → IsRefreshed (begun p) r s.registry)
registry-IsWhole {r} {s} p =
    let v = Reach-Inv p in (v.whole, started-IsRefreshed (begun p) r s.registry s.loop v.loop_lem)
