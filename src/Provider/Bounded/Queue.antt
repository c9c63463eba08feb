-- ===== src/Provider/Bounded/Queue.antt =====
-- The waiting queue of internal/provider/bounded.go: the check on a counter that others raise and
-- lower in between still bounds the number of calls that wait.
use go_ai_proxy.Common.{
  ℕ, suc, ◌+◌, ◌≤◌, ◌<◌, ◌≡◌, Bool, true, false, not, some, List, [], ◌∷◌, ◌++◌, arith, length,
  length-append, ◌⊎◌, if◌then◌else◌,
}
use go_ai_proxy.Common.Int64.{half32, lt_int, of_int32, is_positive}
use go_ai_proxy.Provider.Bounded.{
  Limits, Shared, Thread, Event, advance, counted, selecting, sent, entered,
}
use go_ai_proxy.Provider.Bounded.System.{
  System, Step, spawn, move, Reach, here, next, waiting_of, total, total-middle,
}
use go_ai_proxy.Provider.Bounded.Counts.{Reach-Inv}

abbrev one_if : Bool → ℕ
one_if true = 1
one_if false = 0

-- The thread waits, or has raised the counter to a value that will let it wait.
abbrev good_of : Limits → Thread → ℕ
good_of l (counted c n) = if lt_int l.max_waiting (of_int32 n) then 0 else 1
good_of l (selecting c q) = one_if q
good_of l (sent c q) = one_if q
good_of l (entered c q) = one_if q
good_of l _ = 0

good-advance :
    (l : Limits) (s s' : Shared) (th th' : Thread) (ev : Event)
    → advance l s th ev ≡ some (s', th')
    → is_positive l.max_waiting ≡ true
    → s.waiting + 1 < half32
    → (good_of l th' ≤ good_of l th)
      ⊎ ((good_of l th ≡ 0) × (good_of l th' ≡ 1) × (s.waiting + 1 ≤ l.max_waiting))
unfolding advance
good-advance l s s' th th' ev e p w = ground arith

good-le-waiting : (l : Limits) (ths : List Thread) → total (good_of l) ths ≤ total waiting_of ths
good-le-waiting l [] = omega arith
good-le-waiting l (counted c n ∷ ths) = ground (arith, good-le-waiting l ths)
good-le-waiting l (selecting c q ∷ ths) = ground (arith, good-le-waiting l ths)
good-le-waiting l (sent c q ∷ ths) = ground (arith, good-le-waiting l ths)
good-le-waiting l (entered c q ∷ ths) = ground (arith, good-le-waiting l ths)
good-le-waiting l (_ ∷ ths) = omega (arith, good-le-waiting l ths)

waiting-le-length : (ths : List Thread) → total waiting_of ths ≤ length ths
waiting-le-length [] = omega arith
waiting-le-length (counted c n ∷ ths) = omega (arith, waiting-le-length ths)
waiting-le-length (selecting c q ∷ ths) = ground (arith, waiting-le-length ths)
waiting-le-length (sent c q ∷ ths) = ground (arith, waiting-le-length ths)
waiting-le-length (entered c q ∷ ths) = ground (arith, waiting-le-length ths)
waiting-le-length (_ ∷ ths) = omega (arith, waiting-le-length ths)

length-middle :
    (xs ys : List Thread) (th : Thread) → length (xs ++ th ∷ ys) ≡ suc (length xs + length ys)
length-middle xs ys th = omega (arith, length-append {0} xs (th ∷ ys))

length-Step : (l : Limits) (s t : System) → Step l s t → length s.threads ≤ length t.threads
length-Step l s t (spawn c e) = rw e (omega arith)
length-Step l s t (move xs ys th th' sh ev split e r) =
    rw (split, r) (omega (arith, length-middle xs ys th, length-middle xs ys th'))

module _ (l : Limits) (p : is_positive l.max_waiting ≡ true) where
  good-move :
      (xs ys : List Thread) (s s' : Shared) (th th' : Thread) (ev : Event)
      → advance l s th ev ≡ some (s', th')
      → s.waiting ≤ total waiting_of (xs ++ th ∷ ys)
      → length (xs ++ th ∷ ys) + 1 < half32
      → total (good_of l) (xs ++ th ∷ ys) ≤ l.max_waiting
      → s.waiting ≡ total waiting_of (xs ++ th ∷ ys)
      → total (good_of l) (xs ++ th' ∷ ys) ≤ l.max_waiting
  good-move xs ys s s' th th' ev e w n g q = omega (
    arith,
    good-advance l s s' th th' ev e p (omega (arith, waiting-le-length (xs ++ th ∷ ys))),
    total-middle (good_of l) xs ys th,
    total-middle (good_of l) xs ys th',
    good-le-waiting l (xs ++ th ∷ ys),
  )

  good-Step :
      (s t : System)
      → Step l s t
      → s.shared.waiting ≡ total waiting_of s.threads
      → length s.threads + 1 < half32
      → total (good_of l) s.threads ≤ l.max_waiting
      → total (good_of l) t.threads ≤ l.max_waiting
  good-Step s t (spawn c e) q n g = rw e (omega arith)
  good-Step s t (move xs ys th th' sh ev split e r) q n g = rw r (
      good-move xs ys s.shared sh th th' ev e (omega (arith, rw split at q)) (rw split at n)
        (rw split at g) (rw split at q))

  waiting_exact :
      {s : System}
      → Reach l s
      → length s.threads + 1 < half32
      → s.shared.waiting ≡ total waiting_of s.threads
  waiting_exact {s} r n = omega (arith, (Reach-Inv l r).waiting_counts, waiting-le-length s.threads)

  good_bounded :
      {s : System}
      → Reach l s
      → length s.threads + 1 < half32
      → total (good_of l) s.threads ≤ l.max_waiting
  good_bounded here n = omega arith
  good_bounded (next {s} {t} r st) n =
      let m : length s.threads + 1 < half32 = omega (arith, length-Step l s t st) in
      good-Step s t st (waiting_exact r m) m (good_bounded r m)

-- The thread stands in the queue: it passed the check and has no slot yet.
abbrev pub queued_of : Thread → ℕ
queued_of (selecting c q) = 1
queued_of _ = 0

-- The thread waits without being counted, as it does where the queue is unlimited.
abbrev free_of : Thread → ℕ
free_of (selecting c q) = one_if (not q)
free_of _ = 0

queued-le :
    (l : Limits) (ths : List Thread)
    → total queued_of ths ≤ total (good_of l) ths + total free_of ths
queued-le l [] = omega arith
queued-le l (selecting c q ∷ ths) = ground (arith, queued-le l ths)
queued-le l (_ ∷ ths) = omega (arith, queued-le l ths)

free-advance :
    (l : Limits) (s s' : Shared) (th th' : Thread) (ev : Event)
    → advance l s th ev ≡ some (s', th')
    → is_positive l.max_waiting ≡ true
    → free_of th' ≤ free_of th
unfolding advance
free-advance l s s' th th' ev e p = ground arith

free-Step :
    (l : Limits) (s t : System)
    → is_positive l.max_waiting ≡ true
    → Step l s t
    → total free_of t.threads ≤ total free_of s.threads
free-Step l s t p (spawn c e) = rw e (omega arith)
free-Step l s t p (move xs ys th th' sh ev split e r) =
    rw (split, r)
      (omega (
        arith,
        free-advance l s.shared sh th th' ev e p,
        total-middle free_of xs ys th,
        total-middle free_of xs ys th',
      ))

none_free :
    (l : Limits) {s : System}
    → is_positive l.max_waiting ≡ true
    → Reach l s
    → total free_of s.threads ≤ 0
none_free l p here = omega arith
none_free l p (next {s} {t} r st) = omega (arith, free-Step l s t p st, none_free l p r)

-- With queue_size positive, at most that many calls wait for a slot at any time, in every
-- interleaving of fewer than 2 ^ 31 - 1 calls, although each call only compares its own reading of
-- the counter.
pub queue_bounded :
    (l : Limits) {s : System}
    → is_positive l.max_waiting ≡ true
    → Reach l s
    → length s.threads + 1 < half32
    → total queued_of s.threads ≤ l.max_waiting
queue_bounded l {s} p r n =
    omega (arith, queued-le l s.threads, none_free l p r, good_bounded l p r n)
