-- ===== src/Examples/Wire.antt =====
-- Frames of core/infrastructure/ipc/framing/framing.go and streams of
-- core/infrastructure/ipc/codec/stream.go.
use vyx.Base.{ℕ, ◌≡◌, refl, arith, false, some, List, [], ◌∷◌, ◌++◌, lit, str_eq, All}
use vyx.Framing.{Message, write, read, read_payload, uint32, ok}
use vyx.Framing.Roundtrip.{IsByte, read-write, write-read}
use vyx.Stream.{Json, complete, split, feed_all}
use vyx.Stream.Assembly.{feed_all-split}

abbrev ping : Message
ping = record { type = 3; payload = lit "alive" }

read-write_example : read (write ping ++ lit "next") ≡ ok ping (lit "next")
read-write_example = read-write ping (lit "next") refl (omega arith)

abbrev received : List ℕ
received = 2 ∷ 0 ∷ 0 ∷ 0 ∷ 1 ∷ 104 ∷ 105 ∷ 7 ∷ []

abbrev greeting : Message
greeting = record { type = 1; payload = lit "hi" }

read-greeting : read received ≡ ok greeting (7 ∷ [])
unfolding read read_payload uint32
read-greeting = refl

received_bytes : All IsByte received
received_bytes = ground arith

write-read_example : write greeting ++ 7 ∷ [] ≡ received
write-read_example = write-read received (7 ∷ []) greeting received_bytes read-greeting

-- A stand-in for the encoding: the start of a stream is its ID, the total is left at that of the
-- example, and the end is the ID again.
abbrev plain : Json
plain = record {
  start_text = λ id n. id;
  end_text = λ id. id;
  parse_start = λ t. some (t, 5);
  parse_end = λ t. some t;
}

name_given : str_eq (lit "s1") [] ≡ false
unfolding str_eq
name_given = refl

feed_all-split_example :
    feed_all plain (split plain 2 (lit "s1") (lit "hello")) [] ≡ ([], complete (lit "hello"))
feed_all-split_example = feed_all-split plain 2 (lit "s1") (lit "hello") refl refl name_given
