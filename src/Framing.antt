-- ===== src/Framing.antt =====
-- The wire protocol of core/infrastructure/ipc/framing/framing.go, over the messages of
-- core/domain/ipc/message.go. A reader is the list of bytes that it gives before its end.
pub mod Roundtrip
use vyx.Base.{
  ℕ, zero, suc, ◌+◌, ◌*◌, ◌/◌, ◌%◌, ◌^◌, Bool, true, false, ◌&&◌, List, [], ◌∷◌, ◌++◌, Option, none,
  some, if◌then◌else◌, leb, ltb, length, take, drop,
}
use Prim.Native.String.{String}

-- A byte; the constants of `MessageType` are 1 to 13.
abbrev pub MessageType : Type 0
MessageType = ℕ

pub record Message : Type 0 where
  pub type : MessageType
  pub payload : List ℕ

abbrev pub max_payload_size : ℕ
max_payload_size = 16 * 2 ^ 20

pub data Error : Type 0 where
  short_header short_payload payload_too_large unknown_message_type : Error

-- The error, or the message, with what is left in the reader.
pub data ReadResult : Type 0 where
  ok : Message → List ℕ → ReadResult
  err : Error → List ℕ → ReadResult

-- `binary.LittleEndian.PutUint32` and `Uint32`.
unfoldable pub put_uint32 : ℕ → List ℕ
put_uint32 n = n % 256 ∷ (n / 2 ^ 8) % 256 ∷ (n / 2 ^ 16) % 256 ∷ (n / 2 ^ 24) % 256 ∷ []

unfoldable pub uint32 : ℕ → ℕ → ℕ → ℕ → ℕ
uint32 a b c d = a + b * 2 ^ 8 + c * 2 ^ 16 + d * 2 ^ 24

-- The bytes that `Write` hands to the writer. The length is cut to 32 bits, and the frame has
-- room for just so many bytes of the payload.
unfoldable pub write : Message → List ℕ
write m =
    let payload_len = length m.payload % 2 ^ 32 in
    put_uint32 payload_len ++ m.type ∷ take payload_len m.payload

abbrev pub is_valid_type : MessageType → Bool
is_valid_type t = leb 1 t && leb t 8

-- `Read` behind the header. `io.ReadFull` of more bytes than there are takes them all.
unfoldable pub read_payload : MessageType → ℕ → List ℕ → ReadResult
read_payload t len rest =
    if is_valid_type t
    then (if ltb max_payload_size len
        then err payload_too_large rest
        else if ltb (length rest) len
        then err short_payload []
        else ok (record { type = t; payload = take len rest }) (drop len rest))
    else err unknown_message_type rest

unfoldable pub read : List ℕ → ReadResult
read (a ∷ b ∷ c ∷ d ∷ t ∷ rest) = read_payload t (uint32 a b c d) rest
read _ = err short_header []

-- `MessageType.String`; `unknown` stands for the text that `fmt.Sprintf` makes of other bytes.
unfoldable pub type_string : MessageType → (ℕ → String) → String
type_string zero unknown = unknown 0
type_string (suc zero) unknown = "request"
type_string (suc (suc zero)) unknown = "response"
type_string (suc (suc (suc zero))) unknown = "heartbeat"
type_string (suc (suc (suc (suc zero)))) unknown = "error"
type_string (suc (suc (suc (suc (suc zero))))) unknown = "handshake"
type_string (suc (suc (suc (suc (suc (suc zero)))))) unknown = "ws_open"
type_string (suc (suc (suc (suc (suc (suc (suc zero))))))) unknown = "ws_message"
type_string (suc (suc (suc (suc (suc (suc (suc (suc zero)))))))) unknown = "ws_close"
type_string (suc (suc (suc (suc (suc (suc (suc (suc (suc n))))))))) unknown =
    stream_string n unknown
  where
    stream_string : ℕ → (ℕ → String) → String
    stream_string zero u = "stream_start"
    stream_string (suc zero) u = "stream_chunk"
    stream_string (suc (suc zero)) u = "stream_end"
    stream_string (suc (suc (suc zero))) u = "arrow_data"
    stream_string (suc (suc (suc (suc zero)))) u = "arrow_shm"
    stream_string (suc (suc (suc (suc (suc k))))) u = u (14 + k)
