-- ===== src/Transport.antt =====
-- The transport of core/infrastructure/ipc/uds/listener.go: a connection with its read pump, and the
-- tables of listeners and connections. What the operating system answers is an argument; a listener
-- is a number. A channel is the list of the messages in its buffer, the oldest first.
pub mod Pumping
pub mod Ordering
use vyx.Base.{
  ℕ, zero, suc, Bool, true, false, List, [], ◌∷◌, ◌++◌, Option, none, some, if◌then◌else◌, leb, ltb,
  ◌==◌, ◌||◌, Text, lit, Dict, lookup, insert, delete, length,
}
use vyx.Framing
use vyx.Framing.{Message, MessageType, ReadResult, ok, err, write, read}

abbrev pub demux_chan_size : ℕ
demux_chan_size = 16

-- What a send on a connection has written so far stands in `written`.
pub record Conn : Type 0 where
  pub heartbeats : List Message
  pub responses : List Message
  pub pump_err : Option Framing.Error
  pub written : List ℕ

unfoldable pub new_conn : Conn
new_conn = record { heartbeats = []; responses = []; pump_err = none; written = [] }

-- A send in a `select` with a default: a message for which the buffer has no room is dropped.
unfoldable pub offer : Message → List Message → List Message
offer m q = if ltb (length q) demux_chan_size then q ++ m ∷ [] else q

-- TypeHeartbeat and TypeHandshake.
abbrev pub is_heartbeat : MessageType → Bool
is_heartbeat t = t == 3 || t == 5

-- TypeResponse, TypeError, TypeWSOpen, TypeWSMessage and TypeWSClose.
abbrev pub is_response : MessageType → Bool
is_response t = t == 2 || t == 4 || t == 6 || t == 7 || t == 8

unfoldable pub send_to_response : Message → Conn → Conn
send_to_response m c = record c { responses = offer m c.responses }

-- The switch of the pump; a message of another type is ignored.
unfoldable pub demux : Message → Conn → Conn
demux m c =
    if is_heartbeat m.type
    then record c { heartbeats = offer m c.heartbeats }
    else if is_response m.type
    then send_to_response m c
    else c

-- One turn of the loop of `startPump`. An error closes both channels, which keep what is in their
-- buffers.
abbrev pub pumped : ReadResult → (List ℕ → Conn → Option Conn) → Conn → Option Conn
pumped (ok m rest) continue c = continue rest (demux m c)
pumped (err e rest) continue c = some (record c { pump_err = some e })

-- The loop over the bytes that the connection gives, `none` where the fuel is out.
unfoldable pub pump : ℕ → List ℕ → Conn → Option Conn
pump zero bytes c = none
pump (suc fuel) bytes c = pumped (read bytes) (pump fuel) c

pub data TransportError : Type 0 where
  worker_not_connected socket_dir_failed listen_failed chmod_failed cancelled write_failed :
      TransportError
  read_failed : Framing.Error → TransportError

-- `waits` is a receiver that blocks.
pub data Received : Type 0 where
  got : Message → Received
  waits : Received
  failed : TransportError → Received

abbrev pub at_end : Option Framing.Error → Received
at_end none = waits
at_end (some e) = failed (read_failed e)

-- `receiveFrom` on a channel: the result, and what stays in the buffer. The argument says whether
-- the `select` takes the end of the context.
unfoldable pub receive_from : Bool → Option Framing.Error → List Message → Received × List Message
receive_from true ended q = (failed cancelled, q)
receive_from false ended [] = (at_end ended, [])
receive_from false ended (m ∷ q) = (got m, q)

pub record Transport : Type 0 where
  pub socket_dir : Text
  pub listeners : Dict ℕ
  pub connections : Dict Conn

unfoldable pub new : Text → Transport
new dir = record { socket_dir = dir; listeners = []; connections = [] }

-- `filepath.Join` of a clean directory and a name without separators.
unfoldable pub socket_path : Text → Transport → Text
socket_path id t = t.socket_dir ++ lit "/" ++ id ++ lit ".sock"

-- `Register`: whether the directory can be made, what `net.Listen` gives, whether `Chmod` succeeds.
unfoldable pub register :
    Bool → Option ℕ → Bool → Text → Transport → Option TransportError × Transport
register false ln chmod id t = (some socket_dir_failed, t)
register true none chmod id t = (some listen_failed, t)
register true (some ln) false id t = (some chmod_failed, t)
register true (some ln) true id t = (none, record t { listeners = insert id ln t.listeners })

-- `accept`, when a worker has connected. Neither a failed accept nor the end of the context
-- changes the tables.
unfoldable pub accepted : Text → Transport → Transport
accepted id t = record t { connections = insert id new_conn t.connections }

unfoldable pub deregister : Text → Transport → Transport
deregister id t = record t {
  connections = delete id t.connections;
  listeners = delete id t.listeners;
}

unfoldable pub close : Transport → Transport
close t = record t { connections = []; listeners = [] }

unfoldable pub get_conn : Text → Transport → Option Conn
get_conn id t = lookup id t.connections

-- `Send`; the first argument says whether the connection takes the bytes.
unfoldable pub send : Bool → Text → Message → Transport → Option TransportError × Transport
send writes id m t = elim (get_conn id t) [
  | none ↦ (some worker_not_connected, t)
  | some c ↦
      if writes
      then (
        none,
        record t {
          connections = insert id (record c { written = c.written ++ write m }) t.connections;
        },
      )
      else (some write_failed, t)
]

unfoldable pub take_heartbeat : Bool → Conn → Received × Conn
take_heartbeat done c =
    let (r, q) = receive_from done c.pump_err c.heartbeats in (r, record c { heartbeats = q })

unfoldable pub take_response : Bool → Conn → Received × Conn
take_response done c =
    let (r, q) = receive_from done c.pump_err c.responses in (r, record c { responses = q })

abbrev pub receiving :
    (Conn → Received × Conn) → Text → Transport → Option Conn → Received × Transport
receiving takes id t none = (failed worker_not_connected, t)
receiving takes id t (some c) =
    ((takes c).0, record t { connections = insert id (takes c).1 t.connections })

unfoldable pub receive : Bool → Text → Transport → Received × Transport
receive done id t = receiving (take_heartbeat done) id t (get_conn id t)

unfoldable pub receive_response : Bool → Text → Transport → Received × Transport
receive_response done id t = receiving (take_response done) id t (get_conn id t)
