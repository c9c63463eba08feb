-- ===== src/Gap/Shutdown.antt =====
-- The end of run in cmd/gap/main.go: ListenAndServe on the main goroutine, and beside it the one that waits
-- for a signal and calls Shutdown. Of net/http, once Shutdown has been called ListenAndServe returns
-- ErrServerClosed, and Shutdown returns when no request is open or its context is over. When run
-- returns, the process is over.
use go_ai_proxy.Common.{ℕ, zero, suc, ◌≡◌, ◌≢◌, refl, Bool, true, false, Option, none, some, arith}

-- Where run is: in ListenAndServe, or returned, with whether its error is nil.
pub data Main : Type 0 where
  serving : Main
  returned : Bool → Main

-- The goroutine that waits: before the signal, in Shutdown, and after it.
pub data Waiter : Type 0 where
  waiting : Waiter
  draining : Waiter
  finished : Waiter

-- `requests` counts those that are open.
pub record Process : Type 0 where
  pub main : Main
  pub waiter : Waiter
  pub requests : ℕ

pub data Event : Type 0 where
  arrives : Event
  answered : Event
  listen_fails : Event
  signalled : Event
  listen_returns : Event
  drained : Event
  timed_out : Event

abbrev pub process_at : Main → Waiter → ℕ → Process
process_at m w n = record { main = m; waiter = w; requests = n }

-- A step while run is in ListenAndServe, `none` where the event cannot happen.
in_service : Event → Waiter → ℕ → Option Process
in_service arrives waiting n = some (process_at serving waiting (suc n))
in_service listen_fails waiting n = some (process_at (returned false) waiting n)
in_service answered w (suc n) = some (process_at serving w n)
in_service signalled waiting n = some (process_at serving draining n)
in_service drained draining zero = some (process_at serving finished 0)
in_service timed_out draining n = some (process_at serving finished n)
in_service listen_returns draining n = some (process_at (returned true) draining n)
in_service listen_returns finished n = some (process_at (returned true) finished n)
in_service _ _ _ = none

unfoldable pub step : Event → Process → Option Process
unfolding in_service
step ev p = elim p.main [ returned b ↦ none | serving ↦ in_service ev p.waiter p.requests ]

pub data Reach : Process → Type 0 where
  here : Reach (process_at serving waiting 0)
  next : {p q : Process} (ev : Event) → Reach p → step ev p ≡ some q → Reach q

open_requests : (n : ℕ) → Reach (process_at serving waiting n)
unfolding step
open_requests zero = here
open_requests (suc n) = next arrives (open_requests n) refl

-- However many requests are open, there is a run that gets a signal and in which run returns without an
-- error, and the process is over, while Shutdown still waits for all of them, with time left.
pub returns_while_draining :
    (n : ℕ)
    → (p : Process) × Reach p
      × (p.main ≡ returned true)
      × (p.waiter ≡ draining)
      × (p.requests ≡ n)
      × ((ev : Event) → step ev p ≡ none)
unfolding step
returns_while_draining n = (
  process_at (returned true) draining n,
  next listen_returns (next signalled (open_requests n) refl) refl,
  refl,
  refl,
  refl,
  λ ev. refl,
)

abbrev pub IsSignalled : Process → Type 0
IsSignalled p = p.main ≡ returned true → p.waiter ≢ waiting

step-IsSignalled : (ev : Event) (p q : Process) → step ev p ≡ some q → IsSignalled q
unfolding step
step-IsSignalled ev p q h = ground arith

-- run returns without an error only after a signal, or the end of its context.
pub clean_return-IsSignalled : {p : Process} → Reach p → IsSignalled p
clean_return-IsSignalled here = λ e. absurd (cc e)
clean_return-IsSignalled (next {p} {q} ev r h) = step-IsSignalled ev p q h
