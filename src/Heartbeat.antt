-- ===== src/Heartbeat.antt =====
-- The heartbeat read loop of one worker, core/application/heartbeat/loop.go. What `Receive` returns,
-- the clock and the cancelling of the context come in as a list of polls; the calls made of the
-- lifecycle service are recorded as its reports.
pub mod Misses
use vyx.Base.{
  ℕ, zero, suc, ◌+◌, ◌-◌, ◌*◌, Bool, true, false, ◌&&◌, List, [], ◌∷◌, ◌++◌, Option, none, some,
  if◌then◌else◌, leb, ltb, ◌==◌,
}
use vyx.Framing.{MessageType}
use vyx.Lifecycle.Workers.{Report, heartbeats, missed, shakes_hands}

pub record Config : Type 0 where
  pub interval : ℕ
  pub read_timeout : ℕ
  pub missed_threshold : ℕ
  pub connect_grace : ℕ
  pub retry_interval : ℕ

abbrev pub second : ℕ
second = 1000000000

unfoldable pub default_config : Config
default_config = record {
  interval = 5 * second;
  read_timeout = 10 * second;
  missed_threshold = 2;
  connect_grace = 30 * second;
  retry_interval = 500000000;
}

-- The deadline that `receiveWithTimeout` gives each call.
abbrev pub effective_timeout : Config → ℕ
effective_timeout c = if c.read_timeout == 0 then c.interval * 2 else c.read_timeout

-- `not_connected` is an error whose text says so, as `isNotConnectedError` finds.
pub data Received : Type 0 where
  frame : MessageType → Received
  not_connected : Received
  failure : Received

-- One round: whether the context is done before the call, after it, and during the pause between
-- retries; what the call returns; and the time since the loop began.
pub record Poll : Type 0 where
  pub done_before : Bool
  pub done_after : Bool
  pub done_in_pause : Bool
  pub received : Received
  pub elapsed : ℕ

abbrev pub is_not_connected : Received → Bool
is_not_connected not_connected = true
is_not_connected _ = false

-- The new count of misses, or `none` for -1, which ends the loop, and the reports.
unfoldable pub handle_receive_error : Config → ℕ → Poll → Option ℕ × List Report
handle_receive_error c n p =
    if p.done_after
    then (none, [])
    else if is_not_connected p.received && ltb p.elapsed c.connect_grace
    then (if p.done_in_pause then (none, []) else (some n, []))
    else if leb c.missed_threshold (n + 1)
    then (none, missed ∷ [])
    else (some (n + 1), [])

-- `handleMessage`; the frames that it only logs are the other types.
abbrev pub handle_message : MessageType → List Report
handle_message t = if t == 5 then shakes_hands ∷ [] else if t == 3 then heartbeats ∷ [] else []

abbrev pub handle : Config → ℕ → Poll → Received → Option ℕ × List Report
handle c n p (frame t) = (some 0, handle_message t)
handle c n p not_connected = handle_receive_error c n p
handle c n p failure = handle_receive_error c n p

-- One round of `Run`.
unfoldable pub round : Config → ℕ → Poll → Option ℕ × List Report
round c n p = if p.done_before then (none, []) else handle c n p p.received

-- Where the loop stands, `none` if it has ended, and the reports that it has made.
unfoldable pub run_loop : Config → Option ℕ → List Poll → Option ℕ × List Report
run_loop c none ps = (none, [])
run_loop c (some n) [] = (some n, [])
run_loop c (some n) (p ∷ ps) =
    let (n', now) = round c n p in let (end, later) = run_loop c n' ps in (end, now ++ later)
