-- ===== src/Selector.antt =====
-- The choice of a codec and of a message type by the size of a payload,
-- core/infrastructure/ipc/codec/selector.go. A limit that is not positive is 0.
use vyx.Base.{
  ℕ, ◌*◌, ◌^◌, ◌≤◌, ◌<◌, ◌≡◌, arith, Bool, true, false, List, ◌++◌, if◌then◌else◌, leb, ltb, ◌==◌,
  length,
}
use vyx.Framing.{MessageType, write, read, is_valid_type, err, unknown_message_type}
use vyx.Framing.Roundtrip.{read-write_refused}

pub record TransferConfig : Type 0 where
  pub arrow_threshold : ℕ
  pub arrow_mmap_threshold : ℕ
  pub arrow_streaming_threshold : ℕ

pub data Codec : Type 0 where
  arrow_codec msgpack_codec : Codec

abbrev pub or_default : ℕ → ℕ → ℕ
or_default d n = if ltb 0 n then n else d

abbrev pub threshold : TransferConfig → ℕ
threshold c = or_default (512 * 1024) c.arrow_threshold

unfoldable pub select_codec : ℕ → TransferConfig → Codec
select_codec size c = if leb (threshold c) size then arrow_codec else msgpack_codec

-- TypeRequest is 1, TypeStreamStart 9, TypeArrowSHM 13 and TypeArrowData 12.
unfoldable pub select_message_type : ℕ → TransferConfig → MessageType
select_message_type size c =
    let mmap_threshold = or_default (4 * 1024 * 1024) c.arrow_mmap_threshold in
    let stream_threshold = or_default (256 * 1024 * 1024) c.arrow_streaming_threshold in
    if ltb size (threshold c)
    then 1
    else if leb stream_threshold size
    then 9
    else if leb mmap_threshold size
    then 13
    else 12

-- A payload goes as a request exactly where it is in MessagePack.
abbrev pub is_msgpack : Codec → Bool
is_msgpack msgpack_codec = true
is_msgpack arrow_codec = false

select_codec_type :
    (size : ℕ) (c : TransferConfig)
    → (select_message_type size c == 1) ≡ is_msgpack (select_codec size c)
unfolding select_message_type select_codec
select_codec_type size c = ground arith

is_valid_type-select :
    (size : ℕ) (c : TransferConfig)
    → threshold c ≤ size
    → is_valid_type (select_message_type size c) ≡ false
unfolding select_message_type
is_valid_type-select size c h = ground arith

-- A message of the type that is selected for a payload of the size of the Arrow threshold or more
-- is refused by the reader as of an unknown type, whatever its payload, below 4 GiB, is.
pub read-select_message_type :
    (size : ℕ) (c : TransferConfig) (payload rest : List ℕ)
    → threshold c ≤ size
    → length payload < 2 ^ 32
    → read (write (record { type = select_message_type size c; payload = payload }) ++ rest)
      ≡ err unknown_message_type (payload ++ rest)
read-select_message_type size c payload rest h l =
    read-write_refused (record { type = select_message_type size c; payload = payload }) rest
      (is_valid_type-select size c h) l
