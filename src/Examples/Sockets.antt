-- ===== src/Examples/Sockets.antt =====
-- Pools, connections and sessions of core/infrastructure/ipc/uds and of what uses them.
use vyx.Base.{
  ℕ, ◌≡◌, refl, arith, true, false, List, [], ◌∷◌, Option, none, some, lit, lookup, str_eq, take,
}
use vyx.Framing.{Message, short_header}
use vyx.SocketPool
use vyx.SocketPool.{PoolConfig, new_pool, prewarm, dial_and_add, with_defaults}
use vyx.SocketPool.Callers.{
  Event, acquires, dials, releases, reaps, refills_one, closes, run, with_pool,
}
use vyx.SocketPool.Counts.{Counted, run-new_pool-Counted}
use vyx.Transport.{Conn, Transport, new_conn, pump, get_conn}
use vyx.Transport.Pumping.{of_types, frames, pump-frames-new_conn}
use vyx.Transport.Ordering
use vyx.Transport.Ordering.{Ordered, start, run-start-Ordered}
use vyx.WebSocket.{Codec, pump_worker_to_client}
use vyx.WebSocket.Session.{Drained, pump_worker_to_client-Drained}

abbrev settings : PoolConfig
settings = record {
  socket_path = lit "/tmp/w.sock";
  min_size = 1;
  max_size = 2;
  idle_timeout = 10;
  dial_timeout = 5;
}

abbrev dialled : ℕ → Option ℕ
dialled n = some n

made : (p : SocketPool.Pool) × (new_pool settings dialled 3 ≡ (none, some p))
unfolding new_pool prewarm dial_and_add with_defaults str_eq
made = (_, refl)

abbrev day : List Event
day =
    acquires true
    ∷ acquires true
    ∷ dials (some 7) 4
    ∷ releases 20
    ∷ reaps 40
    ∷ refills_one (some 9) 41
    ∷ closes
    ∷ releases 50
    ∷ []

run-new_pool-Counted_example : Counted (run day (with_pool made.0))
run-new_pool-Counted_example = run-new_pool-Counted settings dialled 3 made.0 day made.1

abbrev answer : Message
answer = record { type = 2; payload = lit "{}" }

abbrev beat : Message
beat = record { type = 3; payload = [] }

pump-frames-new_conn_example :
    pump 3 (frames (beat ∷ answer ∷ [])) new_conn
    ≡ some (record new_conn {
      heartbeats = take 16 (of_types (3 ∷ 5 ∷ []) (beat ∷ answer ∷ []));
      responses = take 16 (of_types (2 ∷ 4 ∷ 6 ∷ 7 ∷ 8 ∷ []) (beat ∷ answer ∷ []));
      pump_err = some short_header;
    })
pump-frames-new_conn_example =
    pump-frames-new_conn (beat ∷ answer ∷ []) 3 ((refl, omega arith), ((refl, omega arith), tt))
      (omega arith)

run-start-Ordered_example : Ordered (
    Ordering.run
      (Ordering.arrives answer ∷ Ordering.arrives beat ∷ Ordering.takes_response false ∷ [])
      start)
run-start-Ordered_example =
    run-start-Ordered
      (Ordering.arrives answer ∷ Ordering.arrives beat ∷ Ordering.takes_response false ∷ [])

-- Each payload is a message for the session that it names.
abbrev codec : Codec
codec = record {
  equal_fold = str_eq;
  jwt = λ t. none;
  open_payload = λ s c. s;
  marshal = λ m. m.content;
  unmarshal = λ t. some (record { session_id = t; content = t });
}

abbrev chat : Message
chat = record { type = 7; payload = lit "s" }

-- A message for another session.
abbrev other : Message
other = record { type = 7; payload = lit "z" }

abbrev busy : Conn
busy = record {
  heartbeats = [];
  responses = answer ∷ other ∷ chat ∷ [];
  pump_err = none;
  written = [];
}

abbrev transport : Transport
transport = record {
  socket_dir = lit "/tmp/vyx";
  listeners = [];
  connections = (lit "w", busy) ∷ [];
}

connected : get_conn (lit "w") transport ≡ some busy
unfolding get_conn lookup str_eq
connected = refl

pump_worker_to_client-Drained_example :
    Drained codec
      (lit "s")
      busy
      (lit "w")
      (answer ∷ other ∷ chat ∷ [])
      (pump_worker_to_client 4 codec (lit "s") (λ d. true) (lit "w") transport)
pump_worker_to_client-Drained_example =
    pump_worker_to_client-Drained 4 codec (lit "s") (lit "w") transport busy
      (answer ∷ other ∷ chat ∷ []) connected refl refl (omega arith)
