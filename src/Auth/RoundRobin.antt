-- ===== src/Auth/RoundRobin.antt =====
-- internal/auth/roundrobin.go and apikey.go. `GetToken` adds to an atomic counter once, so that
-- concurrent calls are calls in some order.
use go_ai_proxy.Common.{
  ℕ, zero, suc, ◌+◌, ◌-◌, ◌%◌, ◌<◌, ◌≡◌, ◌≢◌, refl, ap, ◌∙◌, false, Option, none, some, List, [],
  ◌∷◌, arith, length, get_elem?, is_nil, if◌then◌else◌,
}
use go_ai_proxy.Common.Text.{Text}
use go_ai_proxy.Common.Int64.{modulus}
use native.Mathlib.Nat.{mod-lt}

-- APIKeyAuthenticator
pub record ApiKey : Type 0 where
  pub key : Text

unfoldable pub api_key_token : ApiKey → Option Text
api_key_token a = some a.key

-- `counter` is a uint64.
pub record RoundRobin : Type 0 where
  pub keys : List Text
  pub counter : ℕ

unfoldable pub new_round_robin : List Text → RoundRobin
new_round_robin keys = record { keys = keys; counter = 0 }

-- GetToken; `none` is an error, for want of keys, or the panic of an index out of range.
unfoldable pub get_token : RoundRobin → RoundRobin × Option Text
get_token r =
    if is_nil r.keys
    then (r, none)
    else let count = (r.counter + 1) % modulus in
      let idx = (count + (modulus - 1)) % modulus in
      (record r { counter = count }, get_elem? r.keys (idx % length r.keys))

-- The results of n calls, oldest first.
unfoldable pub tokens : ℕ → RoundRobin → List (Option Text)
tokens zero r = []
tokens (suc n) r = let (r', t) = get_token r in t ∷ tokens n r'

get_token_lem :
    (r : RoundRobin)
    → r.keys ≢ []
    → get_token r ≡ (
      record r { counter = (r.counter + 1) % modulus },
      get_elem? r.keys (r.counter % modulus % length r.keys),
    )
unfolding get_token
get_token_lem r h =
    let full : is_nil r.keys ≡ false = ground arith in
    let idx : ((r.counter + 1) % modulus + (modulus - 1)) % modulus ≡ r.counter % modulus =
      omega arith in
    rw (full, idx)

get_elem?-lt {ℓ} :
    {A : Type ℓ} (xs : List A) (i : ℕ) → i < length xs → (a : A) × (get_elem? xs i ≡ some a)
get_elem?-lt [] i h = elim h [ ]
get_elem?-lt (x ∷ xs) zero h = (x, refl)
get_elem?-lt (x ∷ xs) (suc i) h = get_elem?-lt xs i (omega arith)

turn : List Text → ℕ → Option Text
turn keys n = get_elem? keys (n % modulus % length keys)

tokens_turns :
    (n : ℕ) (r : RoundRobin) (i : ℕ)
    → r.keys ≢ []
    → i < n
    → get_elem? (tokens n r) i ≡ some (turn r.keys (r.counter + i))
unfolding tokens turn
tokens_turns zero r i h l = elim l [ ]
tokens_turns (suc n) r zero h l =
    let same : r.counter + 0 ≡ r.counter = omega arith in rw (get_token_lem r h, same)
tokens_turns (suc n) r (suc i) h l =
    let same : ((r.counter + 1) % modulus + i) % modulus ≡ (r.counter + suc i) % modulus =
      omega arith in
    rw (get_token_lem r h) (
      tokens_turns n (record r { counter = (r.counter + 1) % modulus }) i h (omega arith)
      ∙ ap (λ k. some (get_elem? r.keys (k % length r.keys))) same)

turn-some : (keys : List Text) (n : ℕ) → keys ≢ [] → (key : Text) × (turn keys n ≡ some key)
unfolding turn
turn-some [] n h = absurd (h refl)
turn-some (k ∷ keys) n h =
    get_elem?-lt (k ∷ keys) (n % modulus % suc (length keys)) (mod-lt _ (omega arith))

-- With at least one key, the call with number i from now returns the key at the counter plus i, the
-- sum taken modulo 2 ^ 64 and then modulo the number of keys, and never fails.
pub tokens_rotate :
    (n : ℕ) (r : RoundRobin) (i : ℕ)
    → r.keys ≢ []
    → i < n
    → (key : Text) × (get_elem? (tokens n r) i ≡ some (some key))
      × (get_elem? r.keys ((r.counter + i) % modulus % length r.keys) ≡ some key)
unfolding turn
tokens_rotate n r i h l =
    let (key, e) = turn-some r.keys (r.counter + i) h in
    (key, tokens_turns n r i h l ∙ ap some e, e)

-- Without a key every call fails and the counter stays.
pub get_token_no_keys : (r : RoundRobin) → r.keys ≡ [] → get_token r ≡ (r, none)
unfolding get_token
get_token_no_keys r h = rw h
