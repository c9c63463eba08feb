-- ===== src/Provider/Bounded/Counts.antt =====
-- The counters of internal/provider/bounded.go count the threads that they are meant to, in every
-- interleaving.
use go_ai_proxy.Common.{
  Option, none, Option-cases, inl, inr, ℕ, ◌-◌, ◌≤◌, ◌<◌, ◌%◌, ◌≡◌, refl, true, some, List, [], ◌∷◌,
  ◌++◌, arith,
}
use go_ai_proxy.Common.Int64.{modulus32, is_positive}
use go_ai_proxy.Common.All.{All}
use go_ai_proxy.Provider.Bounded.{
  Limits, Shared, Call, Outcome, Thread, Event, advance, new_bounded, arrived, calling, awaiting,
  streaming, draining, finished, turn,
}
use go_ai_proxy.Provider.Bounded.System.{
  System, Step, spawn, move, start, Reach, here, next, slot_of, active_of, waiting_of, total,
  total-middle, in_sem-advance, active-advance, waiting-advance, small-advance,
}

pub record Inv (l : Limits) (s : System) : Type 0 where
  pub slots_held : (k : ℕ) → l.slots ≡ some k → s.shared.in_sem ≡ total slot_of s.threads
  pub slots_within : (k : ℕ) → l.slots ≡ some k → s.shared.in_sem ≤ k
  pub small : (s.shared.active < modulus32) × (s.shared.waiting < modulus32)
  pub active_counts : s.shared.active ≡ total active_of s.threads % modulus32
  pub waiting_counts : s.shared.waiting ≡ total waiting_of s.threads % modulus32

start-Inv : (l : Limits) → Inv l start
start-Inv l = record {
  slots_held = λ k h. refl;
  slots_within = λ k h. omega arith;
  small = (omega arith, omega arith);
  active_counts = refl;
  waiting_counts = refl;
}

spawn-Inv :
    (l : Limits) (s : System) (c : Call)
    → Inv l s
    → Inv l (record s { threads = arrived c ∷ s.threads })
spawn-Inv l s c v = record {
  slots_held = λ k h. omega (arith, v.slots_held k h);
  slots_within = v.slots_within;
  small = v.small;
  active_counts = omega (arith, v.active_counts);
  waiting_counts = omega (arith, v.waiting_counts);
}

module _ (l : Limits) (xs ys : List Thread) (s s' : Shared) (th th' : Thread) (ev : Event)
    (e : advance l s th ev ≡ some (s', th'))
    (v : Inv l (record { shared = s; threads = xs ++ th ∷ ys })) where
  move-Inv : Inv l (record { shared = s'; threads = xs ++ th' ∷ ys })
  move-Inv = record {
    slots_held = λ k h. omega (
      arith,
      v.slots_held k h,
      in_sem-advance l s s' th th' ev e k h,
      total-middle slot_of xs ys th,
      total-middle slot_of xs ys th',
    );
    slots_within = λ k h. (in_sem-advance l s s' th th' ev e k h).1 (v.slots_within k h);
    small = small-advance l s s' th th' ev e v.small.0 v.small.1;
    active_counts = omega (
      small-advance l s s' th th' ev e v.small.0 v.small.1,
      v.small,
      arith,
      v.active_counts,
      active-advance l s s' th th' ev e,
      total-middle active_of xs ys th,
      total-middle active_of xs ys th',
    );
    waiting_counts = omega (
      small-advance l s s' th th' ev e v.small.0 v.small.1,
      v.small,
      arith,
      v.waiting_counts,
      waiting-advance l s s' th th' ev e,
      total-middle waiting_of xs ys th,
      total-middle waiting_of xs ys th',
    );
  }

Step-Inv : (l : Limits) (s t : System) → Step l s t → Inv l s → Inv l t
Step-Inv l s t (spawn c e) v = rw e (spawn-Inv l s c v)
Step-Inv l s t (move xs ys th th' sh ev split e r) v =
    rw r (move-Inv l xs ys s.shared sh th th' ev e (rw split at v))

-- In every interleaving the semaphore holds one element for each call between its admission and its
-- release, never more than its capacity, and the two counters agree with the threads, modulo 2 ^ 32.
pub Reach-Inv : (l : Limits) {s : System} → Reach l s → Inv l s
Reach-Inv l here = start-Inv l
Reach-Inv l (next {s} {t} r st) = Step-Inv l s t st (Reach-Inv l r)

active-le-slot : (ths : List Thread) → total active_of ths ≤ total slot_of ths
active-le-slot [] = omega arith
active-le-slot (arrived c ∷ ths) = omega (arith, active-le-slot ths)
active-le-slot (_ ∷ ths) = omega (arith, active-le-slot ths)

-- The thread is in a call of the inner provider, or forwards its stream.
abbrev pub running_of : Thread → ℕ
running_of (calling c) = 1
running_of awaiting = 1
running_of streaming = 1
running_of _ = 0

running-le-active : (ths : List Thread) → total running_of ths ≤ total active_of ths
running-le-active [] = omega arith
running-le-active (arrived c ∷ ths) = omega (arith, running-le-active ths)
running-le-active (_ ∷ ths) = omega (arith, running-le-active ths)

-- With max_concurrent positive, at most that many calls are inside the inner provider at any time.
pub concurrency_bounded :
    (max_concurrent queue timeout : ℕ)
    → is_positive max_concurrent ≡ true
    → {s : System} → Reach (new_bounded max_concurrent queue timeout) s
    → total running_of s.threads ≤ max_concurrent
unfolding new_bounded
concurrency_bounded m q t p {s} r =
    let v = Reach-Inv (new_bounded m q t) r in
    let h : (new_bounded m q t).slots ≡ some m = rw p in
    omega (
      arith,
      v.slots_held m h,
      v.slots_within m h,
      active-le-slot s.threads,
      running-le-active s.threads,
    )

abbrev pub IsFinished : Thread → Type 0
IsFinished th = (o : Outcome) × (th ≡ finished o)

total_finished :
    (ths : List Thread)
    → All IsFinished ths
    → (total slot_of ths ≡ 0) × (total active_of ths ≡ 0) × (total waiting_of ths ≡ 0)
total_finished [] h = (refl, refl, refl)
total_finished (th ∷ ths) ((o, e), h) =
    let (a, b, c) = total_finished ths h in
    rw e (omega (arith, a), omega (arith, b), omega (arith, c))

-- len(sem), which is 0 for a nil channel.
abbrev pub channel_length : Option ℕ → Shared → ℕ
channel_length none sh = 0
channel_length (some k) sh = sh.in_sem

channel_empty :
    (l : Limits) (s : System)
    → Inv l s
    → total slot_of s.threads ≡ 0
    → channel_length l.slots s.shared ≡ 0
channel_empty l s v a = elim (Option-cases l.slots) [
  | inl e ↦ ground (arith, e)
  | inr (k, e) ↦ ground (arith, e, v.slots_held k e, a)
]

-- Once every call is over, whichever way each ended, no slot, no active count and no waiting count
-- is left behind.
pub finished_leaves_nothing :
    (l : Limits) {s : System}
    → Reach l s
    → All IsFinished s.threads
    → (channel_length l.slots s.shared ≡ 0) × (s.shared.active ≡ 0) × (s.shared.waiting ≡ 0)
finished_leaves_nothing l {s} r f =
    let v = Reach-Inv l r in
    let (a, b, c) = total_finished s.threads f in
    (channel_empty l s v a, omega (arith, v.active_counts, b), omega (arith, v.waiting_counts, c))

-- A call that has admitted itself never blocks on its way out: its receive from `sem` goes through.
pub release_never_blocks :
    (l : Limits) (k : ℕ) (xs ys : List Thread) (o : Outcome) (sh : Shared)
    → l.slots ≡ some k
    → Reach l (record { shared = sh; threads = xs ++ draining o ∷ ys })
    → advance l sh (draining o) turn ≡ some (record sh { in_sem = sh.in_sem - 1 }, finished o)
unfolding advance
release_never_blocks l k xs ys o sh h r =
    ground (arith, (Reach-Inv l r).slots_held k h, total-middle slot_of xs ys (draining o))
