-- ===== src/Stream/Assembly.antt =====
-- A payload that is split and fed to an assembler.
use vyx.Base.{
  ℕ, zero, suc, ◌≤◌, ◌<◌, ◌≡◌, refl, sym, ap, ◌∙◌, false, List, [], ◌∷◌, ◌++◌, some, arith, Text,
  str_eq, str_eq_refl, lookup, insert, delete, length, take, drop, length-drop, take-append-drop,
}
use mathlib.Core.List.{append-nil, append_assoc}
use vyx.Framing.{Message}
use vyx.Stream.{
  Json, chunk, chunks, split, effective_size, StreamState, Streams, pending, complete, taking,
  feed_chunk, concat, feed, feed_all,
}

-- Every chunk but the last is full, none is empty, and together they are the payload.
abbrev pub payloads : List Message → List (List ℕ)
payloads [] = []
payloads (m ∷ ms) = m.payload ∷ payloads ms

pub concat-chunks :
    (f size : ℕ) (bytes : List ℕ)
    → 0 < size
    → length bytes ≤ f
    → concat (payloads (chunks f size bytes)) ≡ bytes
unfolding concat chunks
concat-chunks zero size [] p h = refl
concat-chunks zero size (b ∷ bytes) p h = elim h [ ]
concat-chunks (suc f) size [] p h = refl
concat-chunks (suc f) size (b ∷ bytes) p h =
    ap (λ r. take size (b ∷ bytes) ++ r)
      (concat-chunks f size (drop size (b ∷ bytes)) p (omega (arith, length-drop size (b ∷ bytes))))
    ∙ take-append-drop size (b ∷ bytes)

concat-append : (xs : List (List ℕ)) (y : List ℕ) → concat (xs ++ y ∷ []) ≡ concat xs ++ y
unfolding concat
concat-append [] y = append-nil y
concat-append (x ∷ xs) y =
    ap (λ r. x ++ r) (concat-append xs y) ∙ sym (append_assoc x (concat xs) y)

-- One stream, open, with what it has taken so far.
abbrev one : Text → StreamState → Streams
one id st = (id, st) ∷ []

feed_all-cons :
    (json : Json) (x e : Message) (t : List Message) (m : Streams)
    → feed_all json (x ∷ (t ++ e ∷ [])) m ≡ feed_all json (t ++ e ∷ []) (feed json x m).0
unfolding feed_all
feed_all-cons json x e [] m = refl
feed_all-cons json x e (y ∷ t) m = refl

feed-chunk-one :
    (json : Json) (id : Text) (b : List ℕ) (st : StreamState)
    → feed json (chunk b) (one id st) ≡ (one id (taking b st), pending)
unfolding feed feed_chunk
feed-chunk-one json id b st = refl

abbrev end_of : Json → Text → Message
end_of json id = record { type = 11; payload = json.end_text id }

feed_end_one :
    (json : Json) (id : Text) (st : StreamState)
    → json.parse_end (json.end_text id) ≡ some id
    → feed json (end_of json id) (one id st) ≡ ([], complete (concat st.chunks_in))
unfolding feed lookup delete
feed_end_one json id st e = rw (e, str_eq_refl id) (rw (str_eq_refl id))

-- The rest of a stream's messages, behind its start, brings what it has and their bytes.
feed_rest :
    (json : Json) (id : Text) (f size : ℕ) (bytes : List ℕ) (st : StreamState)
    → 0 < size
    → length bytes ≤ f
    → json.parse_end (json.end_text id) ≡ some id
    → feed_all json (chunks f size bytes ++ end_of json id ∷ []) (one id st)
      ≡ ([], complete (concat st.chunks_in ++ bytes))
unfolding feed_all chunks
feed_rest json id zero size [] st p h e =
    feed_end_one json id st e ∙ ap (λ b. ([], complete b)) (sym (append-nil (concat st.chunks_in)))
feed_rest json id zero size (b ∷ bytes) st p h e = elim h [ ]
feed_rest json id (suc f) size [] st p h e =
    feed_end_one json id st e ∙ ap (λ b. ([], complete b)) (sym (append-nil (concat st.chunks_in)))
feed_rest json id (suc f) size (b ∷ bytes) st p h e =
    let front = take size (b ∷ bytes) in
    let back = drop size (b ∷ bytes) in
    let next = taking front st in
    feed_all-cons json (chunk front) (end_of json id) (chunks f size back) (one id st)
    ∙ ap (λ r. feed_all json (chunks f size back ++ end_of json id ∷ []) r.0)
        (feed-chunk-one json id front st)
    ∙ feed_rest json id f size back next p (omega (arith, length-drop size (b ∷ bytes))) e
    ∙ ap (λ c. ([], complete c))
        (ap (λ c. c ++ back) (concat-append st.chunks_in front)
          ∙ append_assoc (concat st.chunks_in) front back
          ∙ ap (λ c. concat st.chunks_in ++ c) (take-append-drop size (b ∷ bytes)))

-- An assembler with no open stream that is fed the messages of one split payload returns that
-- payload at the last of them and has no open stream again, for every chunk size, if the JSON of
-- the first and the last message reads as what was written and the stream's ID is not empty.
pub feed_all-split :
    (json : Json) (size : ℕ) (id : Text) (payload : List ℕ)
    → json.parse_start (json.start_text id (length payload)) ≡ some (id, length payload)
    → json.parse_end (json.end_text id) ≡ some id
    → str_eq id [] ≡ false
    → feed_all json (split json size id payload) [] ≡ ([], complete payload)
unfolding split feed insert
feed_all-split json size id payload s e n =
    let st : StreamState = record { total_size = length payload; received = 0; chunks_in = [] } in
    let start : Message = record { type = 9; payload = json.start_text id (length payload) } in
    let opened : (feed json start []).0 ≡ one id st = rw (s, n) in
    let rest = chunks (length payload) (effective_size size) payload in
    feed_all-cons json start (end_of json id) rest []
    ∙ ap (feed_all json (rest ++ end_of json id ∷ [])) opened
    ∙ feed_rest json id (length payload) (effective_size size) payload st (ground arith)
        (omega arith) e
    ∙ unfold concat in refl

feed_chunk_all :
    (bytes : List ℕ) (m : Streams) (id : Text) (st : StreamState)
    → lookup id m ≡ some st
    → lookup id (feed_chunk bytes m) ≡ some (taking bytes st)
unfolding feed_chunk lookup
feed_chunk_all bytes [] id st e = cc
feed_chunk_all bytes ((j, u) ∷ m) id st e = ground (arith, feed_chunk_all bytes m id st)

-- A chunk is added to every open stream, whichever it belongs to: two payloads whose messages are
-- mixed each come back with the chunks of both.
pub feed-chunk :
    (json : Json) (bytes : List ℕ) (m : Streams) (id : Text) (st : StreamState)
    → lookup id m ≡ some st
    → lookup id (feed json (chunk bytes) m).0 ≡ some (taking bytes st)
unfolding feed
feed-chunk json bytes m id st e = feed_chunk_all bytes m id st e
