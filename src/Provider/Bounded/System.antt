-- ===== src/Provider/Bounded/System.antt =====
-- The threads of a bounded provider, interleaved.
use go_ai_proxy.Common.{
  ℕ, ◌+◌, ◌≤◌, ◌<◌, ◌%◌, ◌≡◌, Bool, true, false, some, List, [], ◌∷◌, ◌++◌, arith,
}
use go_ai_proxy.Common.Int64.{modulus32}
use go_ai_proxy.Provider.Bounded.{
  Limits, Shared, Call, Thread, Event, advance, fresh, arrived, counted, selecting, sent, entered,
  calling, raising, swapping, awaiting, streaming, leaving, draining,
}

-- The shared fields and the threads, the latest to start first.
pub record System : Type 0 where
  pub shared : Shared
  pub threads : List Thread

-- A new call arrives, or a thread makes a step.
pub data Step (l : Limits) (s t : System) : Type 0 where
  spawn : (c : Call) → t ≡ record s { threads = arrived c ∷ s.threads } → Step l s t
  move :
      (xs ys : List Thread) (th th' : Thread) (sh : Shared) (ev : Event)
      → s.threads ≡ xs ++ th ∷ ys
      → advance l s.shared th ev ≡ some (sh, th')
      → t ≡ record { shared = sh; threads = xs ++ th' ∷ ys }
      → Step l s t

abbrev pub start : System
start = record { shared = fresh; threads = [] }

pub data Reach (l : Limits) : System → Type 0 where
  here : Reach l start
  next : {s t : System} → Reach l s → Step l s t → Reach l t

-- The thread has an element in `sem`.
abbrev pub slot_of : Thread → ℕ
slot_of (sent c q) = 1
slot_of (entered c q) = 1
slot_of (calling c) = 1
slot_of (raising e d) = 1
slot_of (swapping e d k) = 1
slot_of awaiting = 1
slot_of streaming = 1
slot_of (leaving o) = 1
slot_of (draining o) = 1
slot_of _ = 0

-- The thread is counted in `activeCount`.
abbrev pub active_of : Thread → ℕ
active_of (entered c q) = 1
active_of (calling c) = 1
active_of (raising e d) = 1
active_of (swapping e d k) = 1
active_of awaiting = 1
active_of streaming = 1
active_of (leaving o) = 1
active_of _ = 0

abbrev of_bool : Bool → ℕ
of_bool true = 1
of_bool false = 0

-- The thread is counted in `waitingCount`.
abbrev pub waiting_of : Thread → ℕ
waiting_of (counted c n) = 1
waiting_of (selecting c q) = of_bool q
waiting_of (sent c q) = of_bool q
waiting_of (entered c q) = of_bool q
waiting_of _ = 0

abbrev pub total : (Thread → ℕ) → List Thread → ℕ
total w [] = 0
total w (th ∷ ths) = w th + total w ths

pub total-middle :
    (w : Thread → ℕ) (xs ys : List Thread) (th : Thread)
    → total w (xs ++ th ∷ ys) ≡ w th + (total w xs + total w ys)
total-middle w [] ys th = omega arith
total-middle w (x ∷ xs) ys th = omega (arith, total-middle w xs ys th)

module _ (l : Limits) (s s' : Shared) (th th' : Thread) (ev : Event)
    (e : advance l s th ev ≡ some (s', th')) where
  pub in_sem-advance :
      (k : ℕ)
      → l.slots ≡ some k
      → (s'.in_sem + slot_of th ≡ s.in_sem + slot_of th') × (s.in_sem ≤ k → s'.in_sem ≤ k)
  unfolding advance
  in_sem-advance k h = ground arith

  pub active-advance :
      (s'.active + active_of th) % modulus32 ≡ (s.active + active_of th') % modulus32
  unfolding advance
  active-advance = ground arith

  pub waiting-advance :
      (s'.waiting + waiting_of th) % modulus32 ≡ (s.waiting + waiting_of th') % modulus32
  unfolding advance
  waiting-advance = ground arith

  pub small-advance :
      s.active < modulus32
      → s.waiting < modulus32
      → (s'.active < modulus32) × (s'.waiting < modulus32)
  unfolding advance
  small-advance a w = ground arith
