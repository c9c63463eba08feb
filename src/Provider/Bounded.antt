-- ===== src/Provider/Bounded.antt =====
-- internal/provider/bounded.go: each call of a bounded provider as a thread of atomic steps on the
-- fields that the calls share. A step is an atomic operation or a channel operation of the code.
pub mod System
pub mod Counts
pub mod Queue
pub mod Cooldown
pub mod Ends
pub mod Progress
use go_ai_proxy.Common.{
  ℕ, suc, ◌+◌, ◌-◌, ◌≡◌, Bool, true, false, Option, none, some, ltb, ◌==◌, if◌then◌else◌,
}
use go_ai_proxy.Common.Int64.{
  lt_int, le_int, is_positive, add_int, biased, max_int, inc32, dec32, of_int32,
}
use go_ai_proxy.Provider.Errors.{ProviderError, rate_limit, upstream, queue_full, other}

-- What NewBounded fixes; `slots` is the capacity of `sem`, `none` where that is nil.
pub record Limits : Type 0 where
  pub slots : Option ℕ
  pub max_waiting : ℕ
  pub request_timeout : ℕ

-- The fields that calls write; `in_sem` counts the elements in the channel `sem`.
pub record Shared : Type 0 where
  pub in_sem : ℕ
  pub waiting : ℕ
  pub active : ℕ
  pub cool_until : ℕ

-- NewBounded
unfoldable pub new_bounded : ℕ → ℕ → ℕ → Limits
new_bounded max_concurrent max_queue_size request_timeout = record {
  slots = if is_positive max_concurrent then some max_concurrent else none;
  max_waiting = max_queue_size;
  request_timeout = request_timeout;
}

abbrev pub fresh : Shared
fresh = record { in_sem = 0; waiting = 0; active = 0; cool_until = 0 }

abbrev min_int : ℕ → ℕ
min_int d = if ltb max_int d then max_int else d

-- cooling: the time that remains, if the deadline is set and still ahead. time.Until saturates.
unfoldable pub cooling : ℕ → ℕ → Option ℕ
cooling now nano =
    if nano == 0
    then none
    else if le_int nano now
    then none
    else some (min_int (biased nano - biased now))

-- Chat, Embeddings (of an inner provider that has them or not) and ChatStream.
pub data Call : Type 0 where
  chat : Call
  embeddings : Bool → Call
  chat_stream : Call

pub data Outcome : Type 0 where
  unsupported : Outcome
  cooling_down : ℕ → Outcome
  refused : Outcome
  cancelled : Outcome
  answered : Outcome
  failed : ProviderError → Outcome
  closed_early : Outcome
  no_first_token : Outcome
  stream_over : Outcome

-- Where a call stands. The Boolean says that acquire's deferred `waitingCount.Add(-1)` is due.
pub data Thread : Type 0 where
  arrived : Call → Thread
  acquiring : Call → Thread
  counted : Call → ℕ → Thread
  selecting : Call → Bool → Thread
  sent : Call → Bool → Thread
  entered : Call → Bool → Thread
  calling : Call → Thread
  raising : ProviderError → ℕ → Thread
  swapping : ProviderError → ℕ → ℕ → Thread
  awaiting : Thread
  streaming : Thread
  leaving : Outcome → Thread
  draining : Outcome → Thread
  finished : Outcome → Thread

-- What lets a thread go on: its own turn, the clock read at `time.Until`, a free slot, the end of
-- its context, and the inner provider's results.
pub data Event : Type 0 where
  turn : Event
  clock : ℕ → Event
  admit : Event
  ctx_done : Event
  inner_ok : Event
  inner_err : ProviderError → ℕ → Event
  token : Event
  closed : Event
  timer : Event

abbrev undo_waiting : Bool → Shared → Shared
undo_waiting queued s = if queued then record s { waiting = dec32 s.waiting } else s

check_cooling : Shared → Call → ℕ → Shared × Thread
check_cooling s c now = elim (cooling now s.cool_until) [
  | some d ↦ (s, finished (cooling_down d))
  | none ↦ (s, acquiring c)
]

-- The first lines of a call: Embeddings asserts the interface before it looks at the cooldown.
arrive : Shared → Call → ℕ → Shared × Thread
unfolding check_cooling
arrive s (embeddings false) now = (s, finished unsupported)
arrive s c now = check_cooling s c now

-- acquire, up to its first atomic operation
start_acquire : Limits → Shared → Call → Shared × Thread
start_acquire l s c = elim l.slots [
  | none ↦ (record s { active = inc32 s.active }, calling c)
  | some k ↦
      if is_positive l.max_waiting
      then (record s { waiting = inc32 s.waiting }, counted c (inc32 s.waiting))
      else (s, selecting c false)
]

check_queue : Limits → Shared → Call → ℕ → Shared × Thread
check_queue l s c n =
    if lt_int l.max_waiting (of_int32 n)
    then (record s { waiting = dec32 s.waiting }, finished refused)
    else (s, selecting c true)

-- The send on `sem` goes through while the channel is not full.
send : Option ℕ → Shared → Call → Bool → Option (Shared × Thread)
send none s c q = none
send (some k) s c q =
    if ltb s.in_sem k then some (record s { in_sem = suc s.in_sem }, sent c q) else none

-- The start of setCooldown, and the rest of a call that failed.
fail_with : Shared → ProviderError → ℕ → Shared × Thread
fail_with s (rate_limit d) now = (s, raising (rate_limit d) (add_int now d))
fail_with s e now = (s, leaving (failed e))

inner_result : Limits → Shared → Call → Shared × Thread
inner_result l s chat_stream =
    if is_positive l.request_timeout then (s, awaiting) else (s, streaming)
inner_result l s c = (s, leaving answered)

-- The loop of setCooldown: a load, then a compare-and-swap.
load_cooldown : Shared → ProviderError → ℕ → Shared × Thread
load_cooldown s e deadline =
    if le_int deadline s.cool_until
    then (s, leaving (failed e))
    else (s, swapping e deadline s.cool_until)

swap_cooldown : Shared → ProviderError → ℕ → ℕ → Shared × Thread
swap_cooldown s e deadline current =
    if s.cool_until == current
    then (record s { cool_until = deadline }, leaving (failed e))
    else (s, raising e deadline)

-- release: the count first, then the receive from `sem`.
start_release : Limits → Shared → Outcome → Shared × Thread
start_release l s o = elim l.slots [
  | none ↦ (record s { active = dec32 s.active }, finished o)
  | some k ↦ (record s { active = dec32 s.active }, draining o)
]

receive : Shared → Outcome → Option (Shared × Thread)
receive s o = if s.in_sem == 0 then none else some (record s { in_sem = s.in_sem - 1 }, finished o)

-- One step of a thread; `none` where the event does not concern it.
unfoldable pub advance : Limits → Shared → Thread → Event → Option (Shared × Thread)
unfolding arrive start_acquire check_queue send fail_with inner_result load_cooldown swap_cooldown
    start_release receive
advance l s (arrived c) (clock now) = some (arrive s c now)
advance l s (acquiring c) turn = some (start_acquire l s c)
advance l s (counted c n) turn = some (check_queue l s c n)
advance l s (selecting c q) admit = send l.slots s c q
advance l s (selecting c q) ctx_done = some (undo_waiting q s, finished cancelled)
advance l s (sent c q) turn = some (record s { active = inc32 s.active }, entered c q)
advance l s (entered c q) turn = some (undo_waiting q s, calling c)
advance l s (calling c) inner_ok = some (inner_result l s c)
advance l s (calling c) (inner_err e now) = some (fail_with s e now)
advance l s (raising e d) turn = some (load_cooldown s e d)
advance l s (swapping e d k) turn = some (swap_cooldown s e d k)
advance l s awaiting token = some (s, streaming)
advance l s awaiting closed = some (s, leaving closed_early)
advance l s awaiting timer = some (s, leaving no_first_token)
advance l s awaiting ctx_done = some (s, leaving cancelled)
advance l s streaming token = some (s, streaming)
advance l s streaming closed = some (s, leaving stream_over)
advance l s streaming ctx_done = some (s, leaving stream_over)
advance l s (leaving o) turn = some (start_release l s o)
advance l s (draining o) turn = receive s o
advance _ _ _ _ = none
