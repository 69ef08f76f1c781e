-- ===== src/Framing/Roundtrip.antt =====
-- Reading what was written, and writing what was read.
use vyx.Base.{
  ℕ, ◌/◌, ◌%◌, ◌^◌, ◌≤◌, ◌<◌, ◌≡◌, refl, ap, ◌∙◌, true, false, List, [], ◌∷◌, ◌++◌, arith, length,
  length-append, take, take-append, drop-append, take-append-drop, take_exact, All,
}
use vyx.Framing.{
  Message, MessageType, max_payload_size, unknown_message_type, ok, err, put_uint32, uint32, write,
  is_valid_type, read_payload, read,
}

-- The four bytes of a length read as that length.
uint32-put_uint32 :
    (n : ℕ)
    → n < 2 ^ 32
    → uint32 (n % 256) ((n / 2 ^ 8) % 256) ((n / 2 ^ 16) % 256) ((n / 2 ^ 24) % 256) ≡ n
unfolding uint32
uint32-put_uint32 n h = omega arith

take_all : (xs : List ℕ) → take (length xs) xs ≡ xs
take_all [] = refl
take_all (x ∷ xs) = ap (◌∷◌ x) (take_all xs)

read-write_at :
    (t : MessageType) (p rest : List ℕ)
    → length p < 2 ^ 32
    → read (write (record { type = t; payload = p }) ++ rest)
      ≡ read_payload t (length p) (p ++ rest)
unfolding read write put_uint32
read-write_at t p rest h =
    let e : length p % 2 ^ 32 ≡ length p = omega arith in
    rw (e, take_all p, uint32-put_uint32 (length p) h)

-- A message of one of the first eight types and of at most 16 MiB is read back from what was
-- written, and the reader is left just behind it.
pub read-write :
    (m : Message) (rest : List ℕ)
    → is_valid_type m.type ≡ true
    → length m.payload ≤ max_payload_size
    → read (write m ++ rest) ≡ ok m rest
unfolding read_payload
read-write m rest v h =
    read-write_at m.type m.payload rest (omega arith)
    ∙ ground (
      arith,
      take-append m.payload rest,
      drop-append m.payload rest,
      length-append m.payload rest,
    )

-- Of the other types, those for streams and Arrow data included, every message that can be written
-- is refused by the reader, which has then consumed the header alone.
pub read-write_refused :
    (m : Message) (rest : List ℕ)
    → is_valid_type m.type ≡ false
    → length m.payload < 2 ^ 32
    → read (write m ++ rest) ≡ err unknown_message_type (m.payload ++ rest)
unfolding read_payload
read-write_refused m rest v h = read-write_at m.type m.payload rest h ∙ ground arith

-- What is accepted is a message of one of the first eight types within the limit.
pub read_payload_ok :
    (t : MessageType) (len : ℕ) (bytes : List ℕ) (m : Message) (rest : List ℕ)
    → read_payload t len bytes ≡ ok m rest
    → (m.type ≡ t)
      × (is_valid_type t ≡ true)
      × (length m.payload ≡ len)
      × (len ≤ max_payload_size)
      × (m.payload ++ rest ≡ bytes)
unfolding read_payload
read_payload_ok t len bytes m rest h =
    ground (arith, take_exact len bytes, take-append-drop len bytes)

abbrev pub IsByte : ℕ → Type 0
IsByte b = b < 256

rewrite_frame :
    (a b c d t : ℕ) (bytes rest p : List ℕ)
    → a < 256
    → b < 256
    → c < 256
    → d < 256
    → length p ≡ uint32 a b c d
    → p ++ rest ≡ bytes
    → write (record { type = t; payload = p }) ++ rest ≡ a ∷ b ∷ c ∷ d ∷ t ∷ bytes
unfolding write put_uint32 uint32
rewrite_frame a b c d t bytes rest p ha hb hc hd l e =
    let n = length p in
    let whole : n % 2 ^ 32 ≡ n = omega arith in
    let e₀ : n % 256 ≡ a = omega arith in
    let e₁ : (n / 2 ^ 8) % 256 ≡ b = omega arith in
    let e₂ : (n / 2 ^ 16) % 256 ≡ c = omega arith in
    let e₃ : (n / 2 ^ 24) % 256 ≡ d = omega arith in rw (whole, take_all p, e₀, e₁, e₂, e₃, e)

-- What is read from bytes is, written again, the bytes that were consumed.
pub write-read :
    (bytes rest : List ℕ) (m : Message)
    → All IsByte bytes
    → read bytes ≡ ok m rest
    → write m ++ rest ≡ bytes
unfolding read
write-read [] rest m b h = cc
write-read (a ∷ []) rest m b h = cc
write-read (a ∷ a' ∷ []) rest m b h = cc
write-read (a ∷ a' ∷ c ∷ []) rest m b h = cc
write-read (a ∷ a' ∷ c ∷ d ∷ []) rest m b h = cc
write-read (a ∷ a' ∷ c ∷ d ∷ t ∷ bytes) rest m (ha, (hb, (hc, (hd, hs)))) h =
    let parts = read_payload_ok t (uint32 a a' c d) bytes m rest h in
    rw (← parts.0) (rewrite_frame a a' c d m.type bytes rest m.payload ha hb hc hd parts.2 parts.4)
