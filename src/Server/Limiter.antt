-- ===== src/Server/Limiter.antt =====
-- internal/server/ratelimit.go: a token bucket for each caller. The bucket is golang.org/x/time/rate,
-- of which the code uses `NewLimiter` (`fresh`) and `Allow` at a time (`allow`). Times are nanoseconds
-- on a clock that does not go back, and far from overflow.
use go_ai_proxy.Common.{
  ℕ, ◌+◌, ◌≤◌, ◌≡◌, Bool, false, Option, none, some, [], ◌∷◌, keep, arith, leb, length, is_nil,
  if◌then◌else◌, or_default, head?, Option-cases, inl, inr,
}
use go_ai_proxy.Common.Text.{Text, split, trim_space}
use go_ai_proxy.Common.Eq.{list_eq, nat_eq}
use go_ai_proxy.Common.Assoc.{Assoc, lookup, insert, length-insert-le}

abbrev pub max_caller_entries : ℕ
max_caller_entries = 10000

abbrev pub idle_limit : ℕ
idle_limit = 600000000000

module _ (L : Type 0) (fresh : L) (allow : ℕ → L → L × Bool) where
  -- `limiters`, with each caller's bucket and its last use.
  abbrev pub Limiters : Type 0
  Limiters = Assoc Text (L × ℕ)

  -- `!e.lastUse.Before(cutoff)`
  abbrev pub is_recent : ℕ → Text × (L × ℕ) → Bool
  is_recent now (k, (l, last_use)) = leb now (last_use + idle_limit)

  -- The eviction, when the map is at its cap.
  unfoldable pub evict : ℕ → Limiters → Limiters
  evict now m = if leb max_caller_entries (length m) then keep (is_recent now) m else m

  -- getLimiter(key).Allow(): a caller's bucket is found or made, and asked. At the cap a new caller's
  -- bucket is not kept. The pointer that `getLimiter` returns is to the bucket in the map, so that
  -- what Allow does to it is stored.
  unfoldable pub allow_caller : ℕ → Text → Limiters → Limiters × Bool
  unfolding evict
  allow_caller now key m = elim (lookup key m) [
    | some (l, last_use) ↦ let (l', b) = allow now l in (insert key (l', now) m, b)
    | none ↦
        let (l', b) = allow now fresh in
        let m' = evict now m in
        (if leb max_caller_entries (length m') then m' else insert key (l', now) m', b)
  ]

  length-keep : (p : Text × (L × ℕ) → Bool) (m : Limiters) → length (keep p m) ≤ length m
  length-keep p [] = ground arith
  length-keep p (x ∷ m) = ground (arith, length-keep p m)

  length-insert-known :
      (key : Text) (v w : L × ℕ) (m : Limiters)
      → lookup key m ≡ some v
      → length (insert key w m) ≡ length m
  unfolding lookup insert
  length-insert-known key v w [] h = ground (arith, h)
  length-insert-known key v w ((j, u) ∷ m) h = ground (arith, h, length-insert-known key v w m)

  -- However the requests come, no more than the cap is kept.
  pub allow_caller-length :
      (now : ℕ) (key : Text) (m : Limiters)
      → length m ≤ max_caller_entries
      → length (allow_caller now key m).0 ≤ max_caller_entries
  unfolding allow_caller evict
  allow_caller-length now key m h = elim (Option-cases (lookup key m)) [
    | inl e ↦ ground (
      arith,
      e,
      length-keep (is_recent now) m,
      length-insert-le key ((allow now fresh).0, now) m,
      length-insert-le key ((allow now fresh).0, now) (keep (is_recent now) m),
    )
    | inr ((l, t), e) ↦ ground (arith, e, length-insert-known key (l, t) ((allow now l).0, now) m e)
  ]

-- The headers and the address that callerKey reads; an absent header is empty.
pub record Headers : Type 0 where
  pub authorization : Text
  pub forwarded_for : Text
  pub real_ip : Text
  pub remote_addr : Text

-- hex(sha256(s)[:16]) and the host of net.SplitHostPort are outside.
module _ (digest : Text → Text) (split_host : Text → Option Text) where
  remote_host : Headers → Text
  remote_host h = or_default (split_host h.remote_addr) (trim_space h.remote_addr)

  by_real_ip : Headers → Text
  unfolding remote_host
  by_real_ip h = if is_nil h.real_ip then remote_host h else trim_space h.real_ip

  -- callerKey
  unfoldable pub caller_key : Bool → Headers → Text
  unfolding by_real_ip remote_host
  caller_key trust_proxy h =
      if is_nil h.authorization
      then if trust_proxy
        then (let ip = trim_space (or_default (head? (split b',' h.forwarded_for)) []) in
            if is_nil h.forwarded_for then by_real_ip h else if is_nil ip then by_real_ip h else ip)
        else remote_host h
      else digest h.authorization

  -- Without trust in a proxy, what a client writes into the forwarding headers has no effect on its key.
  pub caller_key_untrusted :
      (h h' : Headers)
      → h.authorization ≡ h'.authorization
      → h.remote_addr ≡ h'.remote_addr
      → caller_key false h ≡ caller_key false h'
  unfolding caller_key
  caller_key_untrusted h h' a r = ground (arith, a, r)
