-- ===== src/Stream.antt =====
-- Streaming of large payloads, core/infrastructure/ipc/codec/stream.go. `fmt.Sprintf` and
-- `encoding/json` are outside: `Json` has the two texts that are written and what is read in a text.
pub mod Assembly
use vyx.Base.{
  ℕ, zero, suc, ◌+◌, ◌-◌, ◌*◌, ◌^◌, Bool, true, false, List, [], ◌∷◌, ◌++◌, Option, none, some,
  if◌then◌else◌, leb, ltb, ◌==◌, Text, str_eq, Dict, lookup, insert, delete, length, take, drop,
}
use vyx.Framing.{Message}

abbrev pub default_chunk_size : ℕ
default_chunk_size = 2 ^ 20

pub record Json : Type 0 where
  pub start_text : Text → ℕ → Text
  pub end_text : Text → Text
  pub parse_start : Text → Option (Text × ℕ)
  pub parse_end : Text → Option Text

abbrev pub effective_size : ℕ → ℕ
effective_size size = if size == 0 then default_chunk_size else size

abbrev pub chunk : List ℕ → Message
chunk bytes = record { type = 10; payload = bytes }

-- The loop of `Split` over what is left of the payload; a round takes a positive number of bytes,
-- so that as many rounds as there are bytes are enough.
unfoldable pub chunks : ℕ → ℕ → List ℕ → List Message
chunks zero size bytes = []
chunks (suc f) size [] = []
chunks (suc f) size (b ∷ bytes) =
    chunk (take size (b ∷ bytes)) ∷ chunks f size (drop size (b ∷ bytes))

unfoldable pub split : Json → ℕ → Text → List ℕ → List Message
split json chunk_size id payload =
    record { type = 9; payload = json.start_text id (length payload) }
      ∷ chunks (length payload) (effective_size chunk_size) payload
    ++ record { type = 11; payload = json.end_text id } ∷ []

-- The chunks are in the order in which they came.
pub record StreamState : Type 0 where
  pub total_size : ℕ
  pub received : ℕ
  pub chunks_in : List (List ℕ)

abbrev pub Streams : Type 0
Streams = Dict StreamState

-- What `Feed` returns: nothing yet, the payload, or an error.
pub data Fed : Type 0 where
  pending : Fed
  complete : List ℕ → Fed
  parse_error : Fed
  empty_stream_id : Fed
  unknown_stream : Text → Fed

abbrev pub taking : List ℕ → StreamState → StreamState
taking bytes st = record st {
  chunks_in = st.chunks_in ++ bytes ∷ [];
  received = st.received + length bytes;
}

-- A chunk names no stream, and the loop of `Feed` adds it to each.
unfoldable pub feed_chunk : List ℕ → Streams → Streams
feed_chunk bytes [] = []
feed_chunk bytes ((id, st) ∷ m) = (id, taking bytes st) ∷ feed_chunk bytes m

unfoldable pub concat : List (List ℕ) → List ℕ
concat [] = []
concat (bs ∷ bss) = bs ++ concat bss

abbrev pub feed_start : Option (Text × ℕ) → Streams → Streams × Fed
feed_start none m = (m, parse_error)
feed_start (some (id, total)) m =
    if str_eq id []
    then (m, empty_stream_id)
    else (insert id (record { total_size = total; received = 0; chunks_in = [] }) m, pending)

abbrev pub finish : Text → Option StreamState → Streams → Streams × Fed
finish id none m = (m, unknown_stream id)
finish id (some st) m = (delete id m, complete (concat st.chunks_in))

abbrev pub feed_end : Option Text → Streams → Streams × Fed
feed_end none m = (m, parse_error)
feed_end (some id) m = finish id (lookup id m) m

unfoldable pub feed : Json → Message → Streams → Streams × Fed
feed json msg m =
    if msg.type == 9
    then feed_start (json.parse_start msg.payload) m
    else if msg.type == 10
    then (feed_chunk msg.payload m, pending)
    else if msg.type == 11
    then feed_end (json.parse_end msg.payload) m
    else (m, pending)

-- The messages in turn, with what the last of them returns.
unfoldable pub feed_all : Json → List Message → Streams → Streams × Fed
feed_all json [] m = (m, pending)
feed_all json (x ∷ []) m = feed json x m
feed_all json (x ∷ y ∷ xs) m = feed_all json (y ∷ xs) (feed json x m).0
