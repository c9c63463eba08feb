-- ===== src/Server/Stream.antt =====
-- handleStream of internal/server/server.go after a candidate has accepted: the server-sent events,
-- and what is kept for the metrics and the audit log. Each chunk comes with the Unix time at which it
-- is encoded; `marshals` is whether json.Marshal succeeds on it. The times to the first token are
-- left out.
use go_ai_proxy.Common.{
  ℕ, ◌≡◌, refl, sym, Bool, true, false, Option, none, some, List, [], ◌∷◌, ◌++◌, map, arith, is_nil,
  if◌then◌else◌,
}
use mathlib.Core.List.{append-nil, append_assoc}
use go_ai_proxy.Common.Text.{Text}
use go_ai_proxy.Domain.{Chunk, Usage}
use go_ai_proxy.Translator.Wire.{OaChunk}
use go_ai_proxy.Translator.Chunk.{chunk_to_openai}

-- One `data:` line and its empty line.
pub data Event : Type 0 where
  chunk_event : OaChunk → Event
  done_event : Event

pub record StreamLog : Type 0 where
  pub last_usage : Option Usage
  pub last_finish_reason : Text
  pub content : Text

abbrev pub no_log : StreamLog
no_log = record { last_usage = none; last_finish_reason = []; content = [] }

abbrev later_usage : Option Usage → Option Usage → Option Usage
later_usage earlier none = earlier
later_usage earlier (some u) = some u

-- The tests at the head of the loop.
unfoldable pub note_chunk : Chunk → StreamLog → StreamLog
note_chunk c log = record {
  last_usage = later_usage log.last_usage c.usage;
  last_finish_reason = if is_nil c.finish_reason then log.last_finish_reason else c.finish_reason;
  content = log.content ++ c.delta;
}

abbrev prepend : Option Event → List Event × StreamLog → List Event × StreamLog
prepend none r = r
prepend (some e) (es, log) = (e ∷ es, log)

module _ (marshals : OaChunk → Bool) where
  -- A chunk that is not encoded is passed over.
  unfoldable pub encode_chunk : ℕ × Chunk → Option Event
  encode_chunk (created, c) =
      let data' = chunk_to_openai created c in
      if marshals data' then some (chunk_event data') else none

  -- The loop over the channel, which a Done chunk or the channel's end leaves.
  unfoldable pub run_stream : StreamLog → List (ℕ × Chunk) → List Event × StreamLog
  run_stream log [] = (done_event ∷ [], log)
  run_stream log ((created, c) ∷ cs) =
      let log' = note_chunk c log in
      let rest = run_stream log' cs in
      if c.done then (done_event ∷ [], log') else prepend (encode_chunk (created, c)) rest

abbrev pub through_done : List (ℕ × Chunk) → List (ℕ × Chunk)
through_done [] = []
through_done ((created, c) ∷ cs) =
    (created, c) ∷ elim c.done [ true ↦ [] | false ↦ through_done cs ]

abbrev pub deltas : List (ℕ × Chunk) → Text
deltas [] = []
deltas ((created, c) ∷ cs) = c.delta ++ deltas cs

-- The chunks before the first Done chunk.
abbrev pub before_done : List (ℕ × Chunk) → List (ℕ × Chunk)
before_done [] = []
before_done ((created, c) ∷ cs) = elim c.done [ true ↦ [] | false ↦ (created, c) ∷ before_done cs ]

abbrev pub somes {ℓ} : {A : Type ℓ} → List (Option A) → List A
somes [] = []
somes (none ∷ xs) = somes xs
somes (some a ∷ xs) = a ∷ somes xs

module _ (marshals : OaChunk → Bool) where
  pub run_stream_events :
      (log : StreamLog) (cs : List (ℕ × Chunk))
      → (run_stream marshals log cs).0
        ≡ somes (map (encode_chunk marshals) (before_done cs)) ++ done_event ∷ []
  unfolding run_stream
  run_stream_events log [] = refl
  run_stream_events log ((created, c) ∷ cs) =
      ground (arith, run_stream_events (note_chunk c log) cs)

  -- The text kept for the audit log is the content of the chunks up to the first Done chunk, whose own
  -- content is in it although it is not sent.
  pub run_stream_content :
      (log : StreamLog) (cs : List (ℕ × Chunk))
      → (run_stream marshals log cs).1.content ≡ log.content ++ deltas (through_done cs)
  unfolding run_stream note_chunk
  run_stream_content log [] = sym (append-nil log.content)
  run_stream_content log ((created, c) ∷ cs) = ground (
    arith,
    run_stream_content (note_chunk c log) cs,
    append-nil c.delta,
    append_assoc log.content c.delta (deltas (through_done cs)),
  )
