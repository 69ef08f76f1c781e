-- ===== src/Transport/Ordering.antt =====
-- The order in which receivers see the messages of a connection, while its pump goes on.
use mathlib.Core.List.{append_assoc}
use vyx.Base.{
  ℕ, ◌≤◌, ◌≡◌, ltb, subst, sym, Bool, true, false, List, [], ◌∷◌, ◌++◌, Option, none, some, arith,
  if◌then◌else◌, length, length-append, Bool-cases, inl, inr,
}
use vyx.Framing
use vyx.Framing.{Message}
use vyx.Transport.{
  Conn, new_conn, offer, demux, demux_chan_size, is_heartbeat, is_response, send_to_response,
  Received, got, waits, failed, receive_from, take_heartbeat, take_response,
}
use vyx.Transport.Pumping.{select_type}

pub data Event : Type 0 where
  arrives : Message → Event
  ends : Framing.Error → Event
  takes_heartbeat takes_response : Bool → Event

-- A connection, with the messages that its pump has read and those that its receivers have got,
-- the oldest first.
pub record Trace : Type 0 where
  pub conn : Conn
  pub arrived : List Message
  pub heartbeats_got : List Message
  pub responses_got : List Message

abbrev pub got_one : Received → List Message → List Message
got_one (got m) ms = ms ++ m ∷ []
got_one waits ms = ms
got_one (failed e) ms = ms

-- The pump has returned once there is an error.
abbrev pub reads : Option Framing.Error → Message → Trace → Trace
reads none m t = record t { conn = demux m t.conn; arrived = t.arrived ++ m ∷ [] }
reads (some e) m t = t

unfoldable pub step : Event → Trace → Trace
step (arrives m) t = reads t.conn.pump_err m t
step (ends e) t = record t { conn = record t.conn { pump_err = some e } }
step (takes_heartbeat done) t =
    let (r, c) = take_heartbeat done t.conn in
    record t { conn = c; heartbeats_got = got_one r t.heartbeats_got }
step (takes_response done) t =
    let (r, c) = take_response done t.conn in
    record t { conn = c; responses_got = got_one r t.responses_got }

unfoldable pub run : List Event → Trace → Trace
run [] t = t
run (e ∷ es) t = run es (step e t)

abbrev pub start : Trace
start = record { conn = new_conn; arrived = []; heartbeats_got = []; responses_got = [] }

-- The first list is the second with some of its messages left out.
pub data Sub : List Message → List Message → Type 0 where
  nil : Sub [] []
  keep : (m : Message) {xs ys : List Message} → Sub xs ys → Sub (m ∷ xs) (m ∷ ys)
  skip : (m : Message) {xs ys : List Message} → Sub xs ys → Sub xs (m ∷ ys)

Sub-snoc : {xs ys : List Message} (m : Message) → Sub xs ys → Sub (xs ++ m ∷ []) (ys ++ m ∷ [])
Sub-snoc m nil = keep m nil
Sub-snoc m (keep x s) = keep x (Sub-snoc m s)
Sub-snoc m (skip x s) = skip x (Sub-snoc m s)

Sub-later : {xs ys : List Message} (m : Message) → Sub xs ys → Sub xs (ys ++ m ∷ [])
Sub-later m nil = skip m nil
Sub-later m (keep x s) = keep x (Sub-later m s)
Sub-later m (skip x s) = skip x (Sub-later m s)

select_type-snoc :
    (p : ℕ → Bool) (ms : List Message) (m : Message)
    → select_type p (ms ++ m ∷ [])
      ≡ (if p m.type then select_type p ms ++ m ∷ [] else select_type p ms)
select_type-snoc p [] m = ground arith
select_type-snoc p (x ∷ ms) m = ground (arith, select_type-snoc p ms m)

-- What was got and what waits in the buffer, in order, against what arrived.
pub record Channel (seen queue ms : List Message) : Type 0 where
  pub in_order : Sub (seen ++ queue) ms
  pub bounded : length queue ≤ demux_chan_size

offer-Channel :
    (seen q ms : List Message) (m : Message)
    → Channel seen q ms
    → Channel seen (offer m q) (ms ++ m ∷ [])
unfolding offer
offer-Channel seen q ms m v = elim (Bool-cases (ltb (length q) demux_chan_size)) [
  | inl e ↦
      rw (offer, e)
        (record {
          in_order =
              subst (λ l. Sub l (ms ++ m ∷ [])) (append_assoc seen q (m ∷ []))
                (Sub-snoc m v.in_order);
          bounded = ground (arith, length-append q (m ∷ []));
        })
  | inr e ↦ rw (offer, e) (record { in_order = Sub-later m v.in_order; bounded = v.bounded })
]

receive_from-Channel :
    (done : Bool) (e : Option Framing.Error) (seen q ms : List Message)
    → Channel seen q ms
    → Channel (got_one (receive_from done e q).0 seen) (receive_from done e q).1 ms
unfolding receive_from
receive_from-Channel true e seen q ms v = v
receive_from-Channel false none seen [] ms v = v
receive_from-Channel false (some e) seen [] ms v = v
receive_from-Channel false e seen (m ∷ q) ms v = record {
  in_order = subst (λ l. Sub l ms) (sym (append_assoc seen (m ∷ []) q)) v.in_order;
  bounded = omega arith;
}

pub record Ordered (t : Trace) : Type 0 where
  pub heartbeats_channel :
      Channel t.heartbeats_got t.conn.heartbeats (select_type is_heartbeat t.arrived)
  pub responses_channel :
      Channel t.responses_got t.conn.responses (select_type is_response t.arrived)

-- One channel, of the messages whose type passes the test, when a message is read.
passed-Channel :
    (p : ℕ → Bool) (seen q ms : List Message) (m : Message)
    → Channel seen q (select_type p ms)
    → Channel seen (if p m.type then offer m q else q) (select_type p (ms ++ m ∷ []))
passed-Channel p seen q ms m v = elim (Bool-cases (p m.type)) [
  | inl e ↦ rw (select_type-snoc p ms m, e) (offer-Channel seen q (select_type p ms) m v)
  | inr e ↦ rw (select_type-snoc p ms m, e) v
]

demux_heartbeats :
    (m : Message) (c : Conn)
    → (demux m c).heartbeats ≡ (if is_heartbeat m.type then offer m c.heartbeats else c.heartbeats)
unfolding demux send_to_response
demux_heartbeats m c = ground arith

demux_responses :
    (m : Message) (c : Conn)
    → (demux m c).responses ≡ (if is_response m.type then offer m c.responses else c.responses)
unfolding demux send_to_response
demux_responses m c = ground arith

reads-Ordered :
    (e : Option Framing.Error) (m : Message) (t : Trace) → Ordered t → Ordered (reads e m t)
reads-Ordered (some e) m t v = v
reads-Ordered none m t v = record {
  heartbeats_channel = rw (demux_heartbeats m t.conn) (
      passed-Channel is_heartbeat t.heartbeats_got t.conn.heartbeats t.arrived m
        v.heartbeats_channel);
  responses_channel =
      rw (demux_responses m t.conn) (
        passed-Channel is_response t.responses_got t.conn.responses t.arrived m
          v.responses_channel);
}

step-Ordered : (e : Event) (t : Trace) → Ordered t → Ordered (step e t)
unfolding step take_heartbeat take_response
step-Ordered (arrives m) t v = reads-Ordered t.conn.pump_err m t v
step-Ordered (ends e) t v = record {
  heartbeats_channel = v.heartbeats_channel;
  responses_channel = v.responses_channel;
}
step-Ordered (takes_heartbeat done) t v = record {
  heartbeats_channel =
      receive_from-Channel done t.conn.pump_err t.heartbeats_got t.conn.heartbeats
        (select_type is_heartbeat t.arrived) v.heartbeats_channel;
  responses_channel = v.responses_channel;
}
step-Ordered (takes_response done) t v = record {
  heartbeats_channel = v.heartbeats_channel;
  responses_channel =
      receive_from-Channel done t.conn.pump_err t.responses_got t.conn.responses
        (select_type is_response t.arrived) v.responses_channel;
}

run-Ordered : (es : List Event) (t : Trace) → Ordered t → Ordered (run es t)
unfolding run
run-Ordered [] t v = v
run-Ordered (e ∷ es) t v = run-Ordered es (step e t) (step-Ordered e t v)

-- However reads of the pump and receives are interleaved on a new connection: of each of the two
-- kinds, what was received and then what waits in the buffer are messages of that kind that have
-- arrived, in the order of arrival and none twice; and the buffer never holds more than 16.
pub run-start-Ordered : (es : List Event) → Ordered (run es start)
unfolding new_conn
run-start-Ordered es = run-Ordered es start (record {
  heartbeats_channel = record { in_order = nil; bounded = omega arith };
  responses_channel = record { in_order = nil; bounded = omega arith };
})
