-- ===== src/Provider/Bounded/Progress.antt =====
-- internal/provider/bounded.go: from every state that calls can reach there is a way for all of them to
-- end without a context being cancelled, so that no interleaving locks the provider up.
use go_ai_proxy.Common.{
  ℕ, ◌+◌, ◌≤◌, ◌<◌, ◌≡◌, refl, true, some, inl, inr, List, [], ◌∷◌, arith, length, ap, ◌==◌,
  Bool-cases,
}
use go_ai_proxy.Common.Int64.{is_positive}
use go_ai_proxy.Common.All.{All}
use go_ai_proxy.Provider.Bounded.{Limits, Shared, Thread, new_bounded, finished}
use go_ai_proxy.Provider.Bounded.System.{System, Reach, slot_of, total}
use go_ai_proxy.Provider.Bounded.Counts.{IsFinished, Reach-Inv}
use go_ai_proxy.Provider.Bounded.Ends.{system, Later, there, go, Later-trans, Ends, any-Ends}

abbrev with_call : Thread → System → System
with_call th s = system s.shared (th ∷ s.threads)

-- A call that does nothing is in nobody's way.
Later-with_call :
    {l : Limits} (th : Thread) {t s : System}
    → Later l t s
    → Later l (with_call th t) (with_call th s)
Later-with_call th there = there
Later-with_call th (go xs ys x x' sh ev c split e r p) =
    go (th ∷ xs) ys x x' sh ev c (ap (◌∷◌ th) split) e (ap (with_call th) r) (Later-with_call th p)

module _ (l : Limits) (k : ℕ) (cap : l.slots ≡ some k) where
  -- The calls that hold a slot end; the others stay where they are.
  record Cleared (sh : Shared) (ths : List Thread) : Type 0 where
    pub left : Shared
    pub calls : List Thread
    pub path : Later l (system left calls) (system sh ths)
    pub none_held : total slot_of calls ≡ 0
    pub slots : left.in_sem + total slot_of ths ≡ sh.in_sem
    pub kept : length calls ≡ length ths

  keep-Cleared :
      (th : Thread) {sh : Shared} {ths : List Thread}
      → slot_of th ≡ 0
      → Cleared sh ths
      → Cleared sh (th ∷ ths)
  keep-Cleared th z c = record {
    left = c.left;
    calls = th ∷ c.calls;
    path = Later-with_call th c.path;
    none_held = omega (arith, c.none_held);
    slots = omega (arith, c.slots);
    kept = omega (arith, c.kept);
  }

  end-Cleared :
      (th : Thread) {sh : Shared} {ths : List Thread} (e : Ends l [] ths sh th)
      → Cleared e.left ths
      → Cleared sh (th ∷ ths)
  end-Cleared th e c = record {
    left = c.left;
    calls = finished e.outcome ∷ c.calls;
    path = Later-trans e.path (Later-with_call (finished e.outcome) c.path);
    none_held = omega (arith, c.none_held);
    slots = omega (arith, c.slots, e.slots);
    kept = omega (arith, c.kept);
  }

  clear :
      (ths : List Thread) (sh : Shared)
      → total slot_of ths ≤ sh.in_sem
      → sh.in_sem ≤ k
      → Cleared sh ths
  clear [] sh p q = record {
    left = sh;
    calls = [];
    path = there;
    none_held = refl;
    slots = omega arith;
    kept = refl;
  }
  clear (th ∷ ths) sh p q = elim (Bool-cases (slot_of th == 0)) [
    | inl z ↦ keep-Cleared th (ground arith) (clear ths sh (ground arith) q)
    | inr z ↦
        let e = any-Ends l [] ths k cap sh th (omega arith) (ground arith) in
        end-Cleared th e (clear ths e.left (omega (arith, e.slots)) (omega (arith, e.slots)))
  ]

  record Over (sh : Shared) (ths : List Thread) : Type 0 where
    pub left : Shared
    pub calls : List Thread
    pub path : Later l (system left calls) (system sh ths)
    pub over : All IsFinished calls
    pub kept : length calls ≡ length ths

  settle : (ths : List Thread) (sh : Shared) → total slot_of ths ≡ 0 → sh.in_sem < k → Over sh ths
  settle [] sh p q = record { left = sh; calls = []; path = there; over = tt; kept = refl }
  settle (th ∷ ths) sh p q =
      let e = any-Ends l [] ths k cap sh th (omega arith) (omega arith) in
      let r = settle ths e.left (omega arith) (omega (arith, e.slots)) in
      record {
        left = r.left;
        calls = finished e.outcome ∷ r.calls;
        path = Later-trans e.path (Later-with_call (finished e.outcome) r.path);
        over = ((e.outcome, refl), r.over);
        kept = omega (arith, r.kept);
      }

is_positive-lt : {m : ℕ} → is_positive m ≡ true → 0 < m
is_positive-lt h = ground arith

-- With max_concurrent positive, from every state that calls of the provider can reach in any
-- interleaving they can go on, with no new call and no context that ends, until each of them is over:
-- no interleaving of the semaphore, the counters and the cooldown locks the provider up.
pub calls_can_finish :
    (max_concurrent queue timeout : ℕ)
    → is_positive max_concurrent ≡ true
    → {s : System} → Reach (new_bounded max_concurrent queue timeout) s
    → (u : System) × Later (new_bounded max_concurrent queue timeout) u s
      × All IsFinished u.threads
      × (length u.threads ≡ length s.threads)
unfolding new_bounded
calls_can_finish m q t p {s} r =
    let l = new_bounded m q t in
    let v = Reach-Inv l r in
    let cap : l.slots ≡ some m = rw p in
    let a =
      clear l m cap s.threads s.shared (omega (arith, v.slots_held m cap)) (v.slots_within m cap) in
    let b =
      settle l m cap a.calls a.left a.none_held
        (omega (arith, a.slots, v.slots_held m cap, is_positive-lt p)) in
    (system b.left b.calls, Later-trans a.path b.path, b.over, omega (arith, a.kept, b.kept))
