-- ===== src/Provider/Bounded/Ends.antt =====
-- internal/provider/bounded.go: each call that holds a slot can end by itself, and any other once a
-- slot is free, without a context being cancelled.
use go_ai_proxy.Common.{
  ℕ, suc, ◌+◌, ◌-◌, ◌≤◌, ◌<◌, ◌≡◌, refl, Bool, true, false, none, some, Option-cases, inl, inr,
  List, ◌∷◌, ◌++◌, arith, ◌==◌, Bool-cases,
}
use go_ai_proxy.Common.Int64.{dec32, inc32, is_positive, lt_int, le_int, of_int32}
use go_ai_proxy.Provider.Errors.{ProviderError}
use go_ai_proxy.Provider.Bounded.{
  Limits, Shared, Call, Outcome, Thread, Event, advance, arrived, acquiring, counted, selecting,
  sent, entered, calling, raising, swapping, awaiting, streaming, leaving, draining, finished, turn,
  clock, admit, ctx_done, inner_ok, token, closed, chat, embeddings, chat_stream, stream_over,
  answered, refused, cooling_down, unsupported, cooling, failed,
}
use go_ai_proxy.Provider.Bounded.System.{System, slot_of}

-- No context ends here.
abbrev pub is_calm : Event → Bool
is_calm ctx_done = false
is_calm _ = true

abbrev pub system : Shared → List Thread → System
system sh ths = record { shared = sh; threads = ths }

-- The calls there are go on from `s` to `t`, with no new call and no context that ends.
pub data Later (l : Limits) (t : System) : System → Type 0 where
  there : Later l t t
  go :
      {s u : System} (xs ys : List Thread) (th th' : Thread) (sh : Shared) (ev : Event)
      → is_calm ev ≡ true
      → s.threads ≡ xs ++ th ∷ ys
      → advance l s.shared th ev ≡ some (sh, th')
      → u ≡ system sh (xs ++ th' ∷ ys)
      → Later l t u
      → Later l t s

pub Later-trans : {l : Limits} {t u s : System} → Later l t s → Later l u t → Later l u s
Later-trans there q = q
Later-trans (go xs ys th th' sh ev c split e r p) q =
    go xs ys th th' sh ev c split e r (Later-trans p q)

-- A call among others ends, and gives back the slot that it holds.
pub record Ends (l : Limits) (xs ys : List Thread) (sh : Shared) (th : Thread) : Type 0 where
  pub left : Shared
  pub outcome : Outcome
  pub slots : left.in_sem + slot_of th ≡ sh.in_sem
  pub path : Later l (system left (xs ++ finished outcome ∷ ys)) (system sh (xs ++ th ∷ ys))

module _ (l : Limits) (xs ys : List Thread) where
  after :
      (sh sh' : Shared) (th th' : Thread) (ev : Event)
      → is_calm ev ≡ true
      → advance l sh th ev ≡ some (sh', th')
      → sh'.in_sem + slot_of th ≡ sh.in_sem + slot_of th'
      → Ends l xs ys sh' th'
      → Ends l xs ys sh th
  after sh sh' th th' ev c e k r = record {
    left = r.left;
    outcome = r.outcome;
    slots = omega (arith, r.slots);
    path = go xs ys th th' sh' ev c refl e refl r.path;
  }

  finished-Ends : (sh : Shared) (o : Outcome) → Ends l xs ys sh (finished o)
  finished-Ends sh o = record { left = sh; outcome = o; slots = omega arith; path = there }

  module _ (k : ℕ) (cap : l.slots ≡ some k) where
    draining-Ends : (sh : Shared) (o : Outcome) → 0 < sh.in_sem → Ends l xs ys sh (draining o)
    unfolding advance
    draining-Ends sh o p =
        after sh (record sh { in_sem = sh.in_sem - 1 }) (draining o) (finished o) turn refl
          (ground arith) (omega arith) (finished-Ends _ o)

    leaving-Ends : (sh : Shared) (o : Outcome) → 0 < sh.in_sem → Ends l xs ys sh (leaving o)
    unfolding advance
    leaving-Ends sh o p =
        after sh (record sh { active = dec32 sh.active }) (leaving o) (draining o) turn refl
          (rw cap) refl (draining-Ends _ o p)

    streaming-Ends : (sh : Shared) → 0 < sh.in_sem → Ends l xs ys sh streaming
    unfolding advance
    streaming-Ends sh p =
        after sh sh streaming (leaving stream_over) closed refl refl refl (leaving-Ends sh _ p)

    awaiting-Ends : (sh : Shared) → 0 < sh.in_sem → Ends l xs ys sh awaiting
    unfolding advance
    awaiting-Ends sh p = after sh sh awaiting streaming token refl refl refl (streaming-Ends sh p)

    fresh_swap-Ends :
        (sh : Shared) (e : ProviderError) (d : ℕ)
        → 0 < sh.in_sem
        → Ends l xs ys sh (swapping e d sh.cool_until)
    unfolding advance
    fresh_swap-Ends sh e d p =
        after sh (record sh { cool_until = d }) (swapping e d sh.cool_until) (leaving (failed e))
          turn refl (ground arith) refl (leaving-Ends _ _ p)

    raising-Ends :
        (sh : Shared) (e : ProviderError) (d : ℕ) → 0 < sh.in_sem → Ends l xs ys sh (raising e d)
    unfolding advance
    raising-Ends sh e d p = elim (Bool-cases (le_int d sh.cool_until)) [
      | inl h ↦
          after sh sh (raising e d) (leaving (failed e)) turn refl (rw h) refl (leaving-Ends sh _ p)
      | inr h ↦
          after sh sh (raising e d) (swapping e d sh.cool_until) turn refl (rw h) refl
            (fresh_swap-Ends sh e d p)
    ]

    swapping-Ends :
        (sh : Shared) (e : ProviderError) (d c : ℕ)
        → 0 < sh.in_sem
        → Ends l xs ys sh (swapping e d c)
    unfolding advance
    swapping-Ends sh e d c p = elim (Bool-cases (sh.cool_until == c)) [
      | inl h ↦
          after sh (record sh { cool_until = d }) (swapping e d c) (leaving (failed e)) turn refl
            (rw h) refl (leaving-Ends _ _ p)
      | inr h ↦
          after sh sh (swapping e d c) (raising e d) turn refl (rw h) refl (raising-Ends sh e d p)
    ]

    calling-Ends : (sh : Shared) (c : Call) → 0 < sh.in_sem → Ends l xs ys sh (calling c)
    unfolding advance
    calling-Ends sh chat_stream p = elim (Bool-cases (is_positive l.request_timeout)) [
      | inl h ↦
          after sh sh (calling chat_stream) awaiting inner_ok refl (rw h) refl (awaiting-Ends sh p)
      | inr h ↦
          after sh sh (calling chat_stream) streaming inner_ok refl (rw h) refl
            (streaming-Ends sh p)
    ]
    calling-Ends sh chat p =
        after sh sh (calling chat) (leaving answered) inner_ok refl refl refl (leaving-Ends sh _ p)
    calling-Ends sh (embeddings b) p =
        after sh sh (calling (embeddings b)) (leaving answered) inner_ok refl refl refl
          (leaving-Ends sh _ p)

    entered-Ends :
        (sh : Shared) (c : Call) (q : Bool) → 0 < sh.in_sem → Ends l xs ys sh (entered c q)
    unfolding advance
    entered-Ends sh c true p =
        after sh _ (entered c true) (calling c) turn refl refl refl (calling-Ends _ c p)
    entered-Ends sh c false p =
        after sh _ (entered c false) (calling c) turn refl refl refl (calling-Ends _ c p)

    sent-Ends : (sh : Shared) (c : Call) (q : Bool) → 0 < sh.in_sem → Ends l xs ys sh (sent c q)
    unfolding advance
    sent-Ends sh c q p =
        after sh _ (sent c q) (entered c q) turn refl refl refl (entered-Ends _ c q p)

    -- A call that waits is admitted while a slot is free.
    selecting-Ends :
        (sh : Shared) (c : Call) (q : Bool) → sh.in_sem < k → Ends l xs ys sh (selecting c q)
    unfolding advance
    selecting-Ends sh c q p =
        after sh (record sh { in_sem = suc sh.in_sem }) (selecting c q) (sent c q) admit refl
          (ground arith) (omega arith) (sent-Ends _ c q (omega arith))

    counted-Ends : (sh : Shared) (c : Call) (n : ℕ) → sh.in_sem < k → Ends l xs ys sh (counted c n)
    unfolding advance
    counted-Ends sh c n p = elim (Bool-cases (lt_int l.max_waiting (of_int32 n))) [
      | inl h ↦
          after sh (record sh { waiting = dec32 sh.waiting }) (counted c n) (finished refused) turn
            refl (rw h) refl (finished-Ends _ _)
      | inr h ↦
          after sh sh (counted c n) (selecting c true) turn refl (rw h) refl
            (selecting-Ends sh c true p)
    ]

    acquiring-Ends : (sh : Shared) (c : Call) → sh.in_sem < k → Ends l xs ys sh (acquiring c)
    unfolding advance
    acquiring-Ends sh c p = elim (Bool-cases (is_positive l.max_waiting)) [
      | inl h ↦
          after sh (record sh { waiting = inc32 sh.waiting }) (acquiring c)
            (counted c (inc32 sh.waiting)) turn refl (rw (cap, h)) refl (counted-Ends _ c _ p)
      | inr h ↦
          after sh sh (acquiring c) (selecting c false) turn refl (rw (cap, h)) refl
            (selecting-Ends sh c false p)
    ]

    supported-Ends :
        (sh : Shared) (c : Call)
        → sh.in_sem < k
        → ((n : ℕ)
            → advance l sh (arrived c) (clock n)
              ≡ some (elim (cooling n sh.cool_until) [
                | some d ↦ (sh, finished (cooling_down d))
                | none ↦ (sh, acquiring c)
              ]))
        → Ends l xs ys sh (arrived c)
    supported-Ends sh c p step = elim (Option-cases (cooling 0 sh.cool_until)) [
      | inl h ↦
          after sh sh (arrived c) (acquiring c) (clock 0) refl (rw h at (step 0)) refl
            (acquiring-Ends sh c p)
      | inr (d, h) ↦
          after sh sh (arrived c) (finished (cooling_down d)) (clock 0) refl (rw h at (step 0)) refl
            (finished-Ends sh _)
    ]

    arrived-Ends : (sh : Shared) (c : Call) → sh.in_sem < k → Ends l xs ys sh (arrived c)
    unfolding advance
    arrived-Ends sh (embeddings false) p =
        after sh sh (arrived (embeddings false)) (finished unsupported) (clock 0) refl refl refl
          (finished-Ends sh _)
    arrived-Ends sh (embeddings true) p = supported-Ends sh _ p (λ n. refl)
    arrived-Ends sh chat p = supported-Ends sh _ p (λ n. refl)
    arrived-Ends sh chat_stream p = supported-Ends sh _ p (λ n. refl)

    -- A call that holds a slot ends at once, and any other once a slot is free.
    pub any-Ends :
        (sh : Shared) (th : Thread)
        → slot_of th ≤ sh.in_sem
        → sh.in_sem < k + slot_of th
        → Ends l xs ys sh th
    any-Ends sh (arrived c) p q = arrived-Ends sh c (omega arith)
    any-Ends sh (acquiring c) p q = acquiring-Ends sh c (omega arith)
    any-Ends sh (counted c n) p q = counted-Ends sh c n (omega arith)
    any-Ends sh (selecting c b) p q = selecting-Ends sh c b (omega arith)
    any-Ends sh (sent c b) p q = sent-Ends sh c b (omega arith)
    any-Ends sh (entered c b) p q = entered-Ends sh c b (omega arith)
    any-Ends sh (calling c) p q = calling-Ends sh c (omega arith)
    any-Ends sh (raising e d) p q = raising-Ends sh e d (omega arith)
    any-Ends sh (swapping e d c) p q = swapping-Ends sh e d c (omega arith)
    any-Ends sh awaiting p q = awaiting-Ends sh (omega arith)
    any-Ends sh streaming p q = streaming-Ends sh (omega arith)
    any-Ends sh (leaving o) p q = leaving-Ends sh o (omega arith)
    any-Ends sh (draining o) p q = draining-Ends sh o (omega arith)
    any-Ends sh (finished o) p q = finished-Ends sh o
