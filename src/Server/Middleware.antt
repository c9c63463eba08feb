-- ===== src/Server/Middleware.antt =====
-- internal/server/middleware.go: the request ID, and the writer that keeps the status.
use go_ai_proxy.Common.{
  Bool-cases, inl, inr, ℕ, ◌*◌, ◌<◌, ◌≡◌, Option, none, some, ltb, refl, Bool, true, false, not,
  ◌&&◌, ◌||◌, List, [], ◌∷◌, all, arith, leb, ◌==◌, is_nil, length, if◌then◌else◌,
}
use go_ai_proxy.Common.Text.{Text}
use go_ai_proxy.Common.Format.{hex}
use go_ai_proxy.Common.All.{All}

abbrev is_alphanumeric : ℕ → Bool
is_alphanumeric c =
    (leb b'a' c && leb c b'z') || (leb b'A' c && leb c b'Z') || (leb b'0' c && leb c b'9')

abbrev pub is_safe : ℕ → Bool
is_safe c = is_alphanumeric c || c == b'-' || c == b'_'

-- isValidRequestID: `len` counts bytes, which are the code points of a text that the loop accepts.
unfoldable pub is_valid_request_id : Text → Bool
is_valid_request_id s = not (is_nil s) && leb (length s) 128 && all is_safe s

-- The ID that loggingMiddleware gives a request: its own if that is valid, a fresh one otherwise.
unfoldable pub request_id : Text → Text → Text
request_id fresh header = if is_valid_request_id header then header else fresh

-- newRequestID: crypto/rand gives eight bytes, or the process panics.
unfoldable pub new_request_id : Option (List ℕ) → Option Text
unfolding hex
new_request_id none = none
new_request_id (some bytes) = some (hex bytes)

-- bodyLimitMiddleware: whether http.MaxBytesReader fails on a body of that size.
abbrev pub over_limit : ℕ → ℕ → Bool
over_limit max_bytes size = not (max_bytes == 0) && ltb max_bytes size

-- What a handler does to a statusWriter.
pub data Write : Type 0 where
  write_header : ℕ → Write
  write_body : Write

-- The field `status`, 0 at first.
unfoldable pub write_status : ℕ → Write → ℕ
write_status status (write_header code) = code
write_status status write_body = if status == 0 then 200 else status

unfoldable pub write_all : ℕ → List Write → ℕ
write_all status [] = status
write_all status (w ∷ ws) = write_all (write_status status w) ws

-- The status that loggingMiddleware logs.
unfoldable pub logged_status : List Write → ℕ
logged_status ws = let status = write_all 0 ws in if status == 0 then 200 else status

-- The status that net/http sends: that of the first WriteHeader, or 200 at the first body bytes or the end.
abbrev pub sent_status : List Write → ℕ
sent_status [] = 200
sent_status (write_header code ∷ ws) = code
sent_status (write_body ∷ ws) = 200

abbrev pub is_body : Write → Bool
is_body (write_header code) = false
is_body write_body = true

bodies_keep :
    (status : ℕ) (ws : List Write)
    → 0 < status
    → all is_body ws ≡ true
    → write_all status ws ≡ status
unfolding write_all write_status
bodies_keep status [] p h = refl
bodies_keep status (write_header code ∷ ws) p h = ground (arith, h)
bodies_keep status (write_body ∷ ws) p h = ground (arith, h, bodies_keep status ws p)

-- A handler that writes its header at most once, and before the body, is logged with the status that was sent.
pub logged_status_sent :
    (code : ℕ) (ws : List Write)
    → 0 < code
    → all is_body ws ≡ true
    → (logged_status (write_header code ∷ ws) ≡ sent_status (write_header code ∷ ws))
      × (logged_status ws ≡ sent_status ws)
unfolding logged_status write_all write_status
logged_status_sent code [] p h = ground arith
logged_status_sent code (write_header c ∷ ws) p h = ground (arith, h)
logged_status_sent code (write_body ∷ ws) p h =
    ground (arith, h, bodies_keep code (write_body ∷ ws) p h, bodies_keep 200 ws)

abbrev IsByte : ℕ → Type 0
IsByte b = b < 256

hex-safe :
    (bytes : List ℕ)
    → All IsByte bytes
    → (all is_safe (hex bytes) ≡ true) × (length (hex bytes) ≡ 2 * length bytes)
unfolding hex
hex-safe [] h = (refl, refl)
hex-safe (b ∷ bs) (p, h) = let (safe, size) = hex-safe bs h in (ground arith, omega arith)

hex-IsValid :
    (bytes : List ℕ) → length bytes ≡ 8 → All IsByte bytes → is_valid_request_id (hex bytes) ≡ true
unfolding is_valid_request_id
hex-IsValid bytes n h = let (safe, size) = hex-safe bytes h in valid (hex bytes) safe (omega arith)
  where
    valid :
        (t : Text)
        → all is_safe t ≡ true
        → length t ≡ 16
        → not (is_nil t) && leb (length t) 128 && all is_safe t ≡ true
    valid [] s e = absurd (omega arith)
    valid (c ∷ cs) s e = ground arith

-- The ID that a request gets is valid, whatever header it came with and whatever eight bytes are drawn,
-- so that a second proxy which it is passed on to keeps it.
pub request_id_kept :
    (bytes : List ℕ) (fresh header later : Text)
    → length bytes ≡ 8
    → All IsByte bytes
    → new_request_id (some bytes) ≡ some fresh
    → let id = request_id fresh header in
      (is_valid_request_id id ≡ true) × (request_id later id ≡ id)
unfolding request_id new_request_id
request_id_kept bytes fresh header later n h e =
    let same : hex bytes ≡ fresh = cc e in
    let v : is_valid_request_id fresh ≡ true = rw same at (hex-IsValid bytes n h) in
    elim (Bool-cases (is_valid_request_id header)) [
      | inl k ↦ rw (k, k) (refl, refl)
      | inr k ↦ rw (k, v) (refl, refl)
    ]
