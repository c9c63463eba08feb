-- ===== src/Tests/Bounded.antt =====
-- A bounded provider of one slot and one waiting place, with one call that runs and one that waits.
use go_ai_proxy.Common.{ℕ, ◌≤◌, ◌≡◌, length, refl, true, some, List, [], ◌∷◌, arith}
use go_ai_proxy.Provider.Errors.{rate_limit, ProviderError}
use go_ai_proxy.Provider.Bounded.{
  Limits, Shared, Thread, Event, new_bounded, advance, cooling, fresh, chat, arrived, acquiring,
  counted, selecting, sent, entered, calling, raising, swapping, leaving, draining, finished, turn,
  clock, admit, inner_ok, inner_err, answered, failed,
}
use go_ai_proxy.Provider.Bounded.System.{System, Step, spawn, move, Reach, here, next, total}
use go_ai_proxy.Provider.Bounded.Counts.{
  running_of, channel_length, IsFinished, concurrency_bounded, finished_leaves_nothing,
}
use go_ai_proxy.Provider.Bounded.Queue.{queued_of, queue_bounded}
use go_ai_proxy.Provider.Bounded.Ends.{Later}
use go_ai_proxy.Provider.Bounded.Progress.{calls_can_finish}
use go_ai_proxy.Common.All.{All}

abbrev limits : Limits
limits = record { slots = some 1; max_waiting = 1; request_timeout = 0 }

limits_made : new_bounded 1 1 0 ≡ limits
unfolding new_bounded
limits_made = refl

abbrev shared_of : ℕ → ℕ → ℕ → ℕ → Shared
shared_of in_sem waiting active cool_until = record {
  in_sem = in_sem;
  waiting = waiting;
  active = active;
  cool_until = cool_until;
}

abbrev system : Shared → List Thread → System
system sh ths = record { shared = sh; threads = ths }

-- The latest thread makes a step.
step_first :
    (l : Limits) (sh sh' : Shared) (th th' : Thread) (ths : List Thread) (ev : Event)
    → Reach l (system sh (th ∷ ths))
    → advance l sh th ev ≡ some (sh', th')
    → Reach l (system sh' (th' ∷ ths))
step_first l sh sh' th th' ths ev r e = next r (move [] ths th th' sh' ev refl e refl)

abbrev calling_now : System
calling_now = system (shared_of 1 0 1 0) (calling chat ∷ [])

Reach-calling : Reach (new_bounded 1 1 0) calling_now
unfolding new_bounded advance cooling
Reach-calling =
    let l = new_bounded 1 1 0 in
    let a = next here (spawn chat refl) in
    let b = step_first l fresh fresh (arrived chat) (acquiring chat) [] (clock 5) a refl in
    let c =
      step_first l fresh (shared_of 0 1 0 0) (acquiring chat) (counted chat 1) [] turn b refl in
    let d =
      step_first l _ (shared_of 0 1 0 0) (counted chat 1) (selecting chat true) [] turn c refl in
    let e =
      step_first l _ (shared_of 1 1 0 0) (selecting chat true) (sent chat true) [] admit d refl in
    let f =
      step_first l _ (shared_of 1 1 1 0) (sent chat true) (entered chat true) [] turn e refl in
    step_first l _ (shared_of 1 0 1 0) (entered chat true) (calling chat) [] turn f refl

concurrency_bounded_example : total running_of calling_now.threads ≤ 1
concurrency_bounded_example = concurrency_bounded 1 1 0 refl Reach-calling

-- A second call that waits for the slot.
abbrev waiting_now : System
waiting_now = system (shared_of 1 1 1 0) (selecting chat true ∷ calling chat ∷ [])

Reach-waiting : Reach (new_bounded 1 1 0) waiting_now
unfolding new_bounded advance cooling
Reach-waiting =
    let l = new_bounded 1 1 0 in
    let sh = shared_of 1 0 1 0 in
    let ths = calling chat ∷ [] in
    let a = next Reach-calling (spawn chat refl) in
    let b = step_first l sh sh (arrived chat) (acquiring chat) ths (clock 6) a refl in
    let c = step_first l sh (shared_of 1 1 1 0) (acquiring chat) (counted chat 1) ths turn b refl in
    step_first l _ (shared_of 1 1 1 0) (counted chat 1) (selecting chat true) ths turn c refl

calls_can_finish_example :
    (u : System) × Later (new_bounded 1 1 0) u waiting_now
    × All IsFinished u.threads
    × (length u.threads ≡ length waiting_now.threads)
calls_can_finish_example = calls_can_finish 1 1 0 refl Reach-waiting

queue_bounded_example : total queued_of waiting_now.threads ≤ 1
unfolding new_bounded
queue_bounded_example = queue_bounded (new_bounded 1 1 0) refl Reach-waiting (omega arith)

-- A call that answers and leaves.
abbrev draining_now : System
draining_now = system (shared_of 1 0 0 0) (draining answered ∷ [])

Reach-draining : Reach (new_bounded 1 1 0) draining_now
unfolding new_bounded advance
Reach-draining =
    let l = new_bounded 1 1 0 in
    let a =
      step_first l (shared_of 1 0 1 0) (shared_of 1 0 1 0) (calling chat) (leaving answered) []
        inner_ok Reach-calling refl in
    step_first l _ (shared_of 1 0 0 0) (leaving answered) (draining answered) [] turn a refl

Reach-finished : Reach (new_bounded 1 1 0) (system (shared_of 0 0 0 0) (finished answered ∷ []))
unfolding new_bounded advance
Reach-finished =
    step_first (new_bounded 1 1 0) _ (shared_of 0 0 0 0) (draining answered) (finished answered) []
      turn Reach-draining refl

finished_leaves_nothing_example :
    (channel_length (new_bounded 1 1 0).slots (shared_of 0 0 0 0) ≡ 0)
    × ((shared_of 0 0 0 0).active ≡ 0)
    × ((shared_of 0 0 0 0).waiting ≡ 0)
finished_leaves_nothing_example =
    finished_leaves_nothing (new_bounded 1 1 0) Reach-finished ((answered, refl), tt)

-- A call that was rate limited for 100 ns at time 7, about to set the deadline.
abbrev limited : ProviderError
limited = rate_limit 100

Reach-swapping :
    Reach (new_bounded 1 1 0) (system (shared_of 1 0 1 0) (swapping limited 107 0 ∷ []))
unfolding new_bounded advance
Reach-swapping =
    let l = new_bounded 1 1 0 in
    let a =
      step_first l (shared_of 1 0 1 0) (shared_of 1 0 1 0) (calling chat) (raising limited 107) []
        (inner_err limited 7) Reach-calling refl in
    step_first l _ (shared_of 1 0 1 0) (raising limited 107) (swapping limited 107 0) [] turn a refl

Step-cooldown :
    Step
      (new_bounded 1 1 0)
      (system (shared_of 1 0 1 0) (swapping limited 107 0 ∷ []))
      (system (shared_of 1 0 1 107) (leaving (failed limited) ∷ []))
unfolding new_bounded advance
Step-cooldown =
    move [] [] (swapping limited 107 0) (leaving (failed limited)) (shared_of 1 0 1 107) turn refl
      refl refl
