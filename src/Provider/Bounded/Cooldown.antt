-- ===== src/Provider/Bounded/Cooldown.antt =====
-- The cooldown of internal/provider/bounded.go: setCooldown races against itself and only ever
-- extends the deadline.
use go_ai_proxy.Common.{
  if◌then◌else◌, ltb, ℕ, ◌-◌, ◌≤◌, ◌<◌, ◌≡◌, ◌≢◌, ◌⊎◌, refl, true, false, some, List, [], ◌∷◌, ◌++◌,
  arith,
}
use go_ai_proxy.Common.All.{All}
use go_ai_proxy.Common.Int64.{biased, half}
use go_ai_proxy.Provider.Errors.{ProviderError}
use go_ai_proxy.Provider.Bounded.{
  Limits, Shared, Thread, Event, Call, advance, raising, swapping, leaving, failed, turn, cooling,
  cooling_down, arrived, acquiring, finished, chat, chat_stream, embeddings, clock,
}
use go_ai_proxy.Provider.Bounded.System.{System, Step, spawn, move, Reach, here, next}

-- A swap holds a reading that its deadline is later than.
abbrev IsLater : Thread → Type 0
IsLater (swapping e d k) = biased k < biased d
IsLater _ = Unit

IsLater-advance :
    (l : Limits) (s s' : Shared) (th th' : Thread) (ev : Event)
    → advance l s th ev ≡ some (s', th')
    → IsLater th'
unfolding advance
IsLater-advance l s s' th th' ev e = ground arith

cooldown-advance :
    (l : Limits) (s s' : Shared) (th th' : Thread) (ev : Event)
    → advance l s th ev ≡ some (s', th')
    → IsLater th
    → biased s.cool_until ≤ biased s'.cool_until
unfolding advance
cooldown-advance l s s' th th' ev e h = ground arith

All-middle :
    (xs ys : List Thread) (th th' : Thread)
    → All IsLater (xs ++ th ∷ ys)
    → IsLater th'
    → IsLater th × All IsLater (xs ++ th' ∷ ys)
All-middle [] ys th th' a h = (a.0, (h, a.1))
All-middle (x ∷ xs) ys th th' a h =
    let (l, rest) = All-middle xs ys th th' a.1 h in (l, (a.0, rest))

move-IsLater :
    (l : Limits) (s s' : Shared) (xs ys : List Thread) (th th' : Thread) (ev : Event)
    → advance l s th ev ≡ some (s', th')
    → All IsLater (xs ++ th ∷ ys)
    → (biased s.cool_until ≤ biased s'.cool_until) × All IsLater (xs ++ th' ∷ ys)
move-IsLater l s s' xs ys th th' ev e a =
    let (h, rest) = All-middle xs ys th th' a (IsLater-advance l s s' th th' ev e) in
    (cooldown-advance l s s' th th' ev e h, rest)

Step-IsLater :
    (l : Limits) (s t : System)
    → Step l s t
    → All IsLater s.threads
    → (biased s.shared.cool_until ≤ biased t.shared.cool_until) × All IsLater t.threads
Step-IsLater l s t (spawn c e) a = rw e (omega arith, (tt, a))
Step-IsLater l s t (move xs ys th th' sh ev split e r) a =
    rw r (move-IsLater l s.shared sh xs ys th th' ev e (rw split at a))

Reach-IsLater : (l : Limits) {s : System} → Reach l s → All IsLater s.threads
Reach-IsLater l here = tt
Reach-IsLater l (next {s} {t} r st) = (Step-IsLater l s t st (Reach-IsLater l r)).1

-- No step of any interleaving moves the cooldown deadline back, in the order of int64.
pub cooldown_only_grows :
    (l : Limits) {s t : System}
    → Reach l s
    → Step l s t
    → biased s.shared.cool_until ≤ biased t.shared.cool_until
cooldown_only_grows l {s} {t} r st = (Step-IsLater l s t st (Reach-IsLater l r)).0

-- When a rate-limited call leaves setCooldown, by the early return or by its swap, the deadline is
-- at least its own; when it goes round the loop, nothing has changed.
pub set_cooldown_reaches :
    (l : Limits) (s s' : Shared) (e : ProviderError) (deadline current : ℕ) (th' : Thread)
    (th : Thread)
    → (th ≡ raising e deadline) ⊎ (th ≡ swapping e deadline current)
    → advance l s th turn ≡ some (s', th')
    → ((th' ≡ leaving (failed e)) × (biased deadline ≤ biased s'.cool_until))
      ⊎ ((s' ≡ s) × (th' ≢ leaving (failed e)))
unfolding advance
set_cooldown_reaches l s s' e deadline current th' th h a = ground arith

-- A call that arrives at a time before the deadline is answered with the time that remains, and no
-- slot, counter or inner call is touched; from the deadline on it goes on to acquire. Times are
-- below 2 ^ 63.
pub cooling_short_circuits :
    (l : Limits) (s : Shared) (c : Call) (now : ℕ)
    → c ≢ embeddings false
    → now < half
    → s.cool_until < half
    → advance l s (arrived c) (clock now)
      ≡ some (
        s,
        if ltb now s.cool_until then finished (cooling_down (s.cool_until - now)) else acquiring c,
      )
unfolding advance cooling
cooling_short_circuits l s chat now ne n d = ground arith
cooling_short_circuits l s (embeddings true) now ne n d = ground arith
cooling_short_circuits l s (embeddings false) now ne n d = absurd (ne refl)
cooling_short_circuits l s chat_stream now ne n d = ground arith
