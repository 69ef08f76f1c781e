-- ===== src/Transport/Pumping.antt =====
-- What the read pump of a connection makes of the bytes of a worker.
use vyx.Base.{
  ℕ, zero, suc, ◌≤◌, ◌<◌, ◌≡◌, refl, ltb→lt, Bool, true, List, [], ◌∷◌, ◌++◌, ◌-◌, ap, ltb,
  length-append, Bool-cases, inl, inr, Option, some, arith, if◌then◌else◌, length, take, All, false,
  ◌||◌, ◌==◌,
}
use mathlib.Core.List.{append_assoc, append-nil}
use vyx.Framing
use vyx.Framing.{
  Message, ReadResult, ok, err, write, read, is_valid_type, max_payload_size, short_header,
  read_payload, uint32,
}
use vyx.Framing.Roundtrip.{read-write, read_payload_ok}
use vyx.Transport.{
  Conn, demux, pumped, pump, offer, demux_chan_size, is_heartbeat, is_response, send_to_response,
  new_conn,
}

abbrev pub Sendable : Message → Type 0
Sendable m = (is_valid_type m.type ≡ true) × (length m.payload ≤ max_payload_size)

unfoldable pub frames : List Message → List ℕ
frames [] = []
frames (m ∷ ms) = write m ++ frames ms

unfoldable pub demux_all : List Message → Conn → Conn
demux_all [] c = c
demux_all (m ∷ ms) c = demux_all ms (demux m c)

abbrev pub select_type : (ℕ → Bool) → List Message → List Message
select_type p [] = []
select_type p (m ∷ ms) = if p m.type then m ∷ select_type p ms else select_type p ms

-- A buffer with room for the first messages of a list.
abbrev pub fill : List Message → List Message → List Message
fill q ms = q ++ take (demux_chan_size - length q) ms

fill-offer :
    (q : List Message) (m : Message) (ms : List Message)
    → length q ≤ demux_chan_size
    → fill (offer m q) ms ≡ fill q (m ∷ ms)
unfolding offer
fill-offer q m ms h = elim (Bool-cases (ltb (length q) 16)) [
  | inl e ↦
      let k : demux_chan_size - length q ≡ suc (demux_chan_size - length (q ++ m ∷ [])) =
        omega (arith, ltb→lt _ _ e, length-append q (m ∷ [])) in
      rw (offer, e, k) (append_assoc q (m ∷ []) _)
  | inr e ↦ let k : demux_chan_size - length q ≡ 0 = ground arith in rw (offer, e, k) refl
]

length-offer :
    (q : List Message) (m : Message)
    → length q ≤ demux_chan_size
    → length (offer m q) ≤ demux_chan_size
unfolding offer
length-offer q m h = ground (arith, length-append q (m ∷ []))

pub record Filled (c d : Conn) (ms : List Message) : Type 0 where
  pub heartbeats_filled : d.heartbeats ≡ fill c.heartbeats (select_type is_heartbeat ms)
  pub responses_filled : d.responses ≡ fill c.responses (select_type is_response ms)
  pub no_error : d.pump_err ≡ c.pump_err
  pub none_written : d.written ≡ c.written

take_none : (n : ℕ) → take {A = Message} n [] ≡ []
take_none zero = refl
take_none (suc n) = refl

fill_none : (q : List Message) → fill q [] ≡ q
fill_none q = rw (take_none (demux_chan_size - length q)) (append-nil q)

module _ (m : Message) (c : Conn) (ms : List Message) where
  heartbeats_step :
      length c.heartbeats ≤ demux_chan_size
      → (fill (demux m c).heartbeats (select_type is_heartbeat ms)
          ≡ fill c.heartbeats (select_type is_heartbeat (m ∷ ms)))
        × (length (demux m c).heartbeats ≤ demux_chan_size)
  unfolding demux send_to_response
  heartbeats_step h = ground (
    arith,
    fill-offer c.heartbeats m (select_type is_heartbeat ms) h,
    length-offer c.heartbeats m h,
  )

  responses_step :
      length c.responses ≤ demux_chan_size
      → (fill (demux m c).responses (select_type is_response ms)
          ≡ fill c.responses (select_type is_response (m ∷ ms)))
        × (length (demux m c).responses ≤ demux_chan_size)
  unfolding demux send_to_response
  responses_step h =
      ground (
        arith,
        fill-offer c.responses m (select_type is_response ms) h,
        length-offer c.responses m h,
      )

  errors_step : ((demux m c).pump_err ≡ c.pump_err) × ((demux m c).written ≡ c.written)
  unfolding demux send_to_response
  errors_step = ground arith

demux_all-Filled :
    (ms : List Message) (c : Conn)
    → length c.heartbeats ≤ demux_chan_size
    → length c.responses ≤ demux_chan_size
    → Filled c (demux_all ms c) ms
unfolding demux_all
demux_all-Filled [] c h r = ground (arith, fill_none c.heartbeats, fill_none c.responses)
demux_all-Filled (m ∷ ms) c h r =
    let (e, h') = heartbeats_step m c ms h in
    let (f, r') = responses_step m c ms r in
    let v = demux_all-Filled ms (demux m c) h' r' in ground (arith, errors_step m c ms)

consumes : (bytes rest : List ℕ) (m : Message) → read bytes ≡ ok m rest → length rest < length bytes
unfolding read
consumes [] rest m h = cc
consumes (a ∷ []) rest m h = cc
consumes (a ∷ b ∷ []) rest m h = cc
consumes (a ∷ b ∷ c ∷ []) rest m h = cc
consumes (a ∷ b ∷ c ∷ d ∷ []) rest m h = cc
consumes (a ∷ b ∷ c ∷ d ∷ t ∷ bytes) rest m h =
    let (_, _, _, _, e) = read_payload_ok t (uint32 a b c d) bytes m rest h in
    omega (arith, ap length e, length-append m.payload rest)

abbrev pub Ends : Option Conn → Type 0
Ends r = (e : Framing.Error) × (d : Conn) × (r ≡ some (record d { pump_err = some e }))

-- Where the fuel exceeds the number of the bytes, the pump comes to its end, whatever they are.
pub pump-Ends :
    (fuel : ℕ) (bytes : List ℕ) (c : Conn) → length bytes < fuel → Ends (pump fuel bytes c)
unfolding pump
pump-Ends zero bytes c h = elim h [ ]
pump-Ends (suc fuel) bytes c h =
    go (read bytes)
      λ rest m e. pump-Ends fuel rest (demux m c) (omega (arith, consumes bytes rest m e))
  where
    go :
        (r : ReadResult)
        → ((rest : List ℕ) (m : Message) → r ≡ ok m rest → Ends (pump fuel rest (demux m c)))
        → Ends (pumped r (pump fuel) c)
    go (ok m rest) f = f rest m refl
    go (err e rest) f = (e, c, refl)

pump-frames :
    (ms : List Message) (fuel : ℕ) (c : Conn)
    → All Sendable ms
    → length ms < fuel
    → pump fuel (frames ms) c ≡ some (record (demux_all ms c) { pump_err = some short_header })
unfolding pump frames demux_all
pump-frames [] zero c h f = elim f [ ]
pump-frames (m ∷ ms) zero c h f = elim f [ ]
pump-frames [] (suc fuel) c h f = unfold read in refl
pump-frames (m ∷ ms) (suc fuel) c h f =
    rw (pump, read-write m (frames ms) h.0.0 h.0.1)
      (pump-frames ms fuel (demux m c) h.1 (omega arith))

abbrev pub one_of : List ℕ → ℕ → Bool
one_of [] t = false
one_of (n ∷ ns) t = t == n || one_of ns t

select_type_alike :
    (p q : ℕ → Bool) (ms : List Message)
    → ((t : ℕ) → p t ≡ q t)
    → select_type p ms ≡ select_type q ms
select_type_alike p q [] h = refl
select_type_alike p q (m ∷ ms) h = ground (arith, h m.type, select_type_alike p q ms h)

-- The messages of these types, in order.
abbrev pub of_types : List ℕ → List Message → List Message
of_types ns ms = select_type (one_of ns) ms

heartbeat_types : (t : ℕ) → is_heartbeat t ≡ one_of (3 ∷ 5 ∷ []) t
heartbeat_types t = ground arith

response_types : (t : ℕ) → is_response t ≡ one_of (2 ∷ 4 ∷ 6 ∷ 7 ∷ 8 ∷ []) t
response_types t = ground arith

-- Where a worker writes messages of the first eight types within the limit and closes, and nobody
-- receives from the connection meanwhile, the pump of a new connection ends by the error of a
-- reader at its end; its buffers then hold, in order, the first 16 heartbeats and handshakes
-- (0x03, 0x05) and the first 16 of the responses, errors and messages for WebSockets (0x02, 0x04,
-- 0x06 to 0x08). What comes behind these, and every request and control message, is not kept.
pub pump-frames-new_conn :
    (ms : List Message) (fuel : ℕ)
    → All Sendable ms
    → length ms < fuel
    → pump fuel (frames ms) new_conn
      ≡ some (record new_conn {
        heartbeats = take 16 (of_types (3 ∷ 5 ∷ []) ms);
        responses = take 16 (of_types (2 ∷ 4 ∷ 6 ∷ 7 ∷ 8 ∷ []) ms);
        pump_err = some short_header;
      })
unfolding new_conn
pump-frames-new_conn ms fuel h f =
    let v = demux_all-Filled ms new_conn (omega arith) (omega arith) in
    rw
      (
        ← select_type_alike is_heartbeat (one_of (3 ∷ 5 ∷ [])) ms heartbeat_types,
        ← select_type_alike is_response (one_of (2 ∷ 4 ∷ 6 ∷ 7 ∷ 8 ∷ [])) ms response_types,
      )
      (ground (arith, pump-frames ms fuel new_conn h f))
