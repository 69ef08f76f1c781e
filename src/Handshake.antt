-- ===== src/Handshake.antt =====
-- The registration of a worker, core/application/handshake/handler.go, over the transport, the route
-- map and the lifecycle service. `decode` is the JSON of the payload, with `none` for its error. The
-- log of the routes that the map does not know is a list.
use vyx.Base.{
  ℕ, ◌≡◌, refl, arith, false, List, [], ◌∷◌, Option, none, some, if◌then◌else◌, ◌==◌, Text,
  to_upper, str_eq_refl, lookup, Bool-cases, inl, inr,
}
use vyx.Route.{RouteMap, LookupResult, lookup_route}
use vyx.Transport.{Transport, TransportError, Received, got, waits, failed, receive}
use vyx.Worker.{Worker, running}
use vyx.Lifecycle.{Service, ServiceError, mark_running}
use vyx.Lifecycle.Workers.{Keyed, report_lem, shakes_hands}

pub record HandshakeCapability : Type 0 where
  pub path : Text
  pub method : Text

pub data HandshakeError : Type 0 where
  deadline unexpected_type malformed : HandshakeError
  receive_error : TransportError → HandshakeError
  not_marked : ServiceError → HandshakeError

pub record Handled : Type 0 where
  pub transport : Transport
  pub service : Service
  pub warnings : List (Text × Text)
  pub error : Option HandshakeError

abbrev pub warn_unless : Option LookupResult → Text × Text → List (Text × Text) → List (Text × Text)
warn_unless none c ws = c ∷ ws
warn_unless (some f) c ws = ws

unfoldable pub validate_capabilities : RouteMap → List HandshakeCapability → List (Text × Text)
validate_capabilities routes [] = []
validate_capabilities routes (c ∷ cs) =
    warn_unless (lookup_route (to_upper c.method) c.path routes) (to_upper c.method, c.path)
      (validate_capabilities routes cs)

abbrev pub marking : Option ServiceError → Option HandshakeError
marking none = none
marking (some e) = some (not_marked e)

abbrev pub ended : Transport → Service → HandshakeError → Handled
ended t s e = record { transport = t; service = s; warnings = []; error = some e }

abbrev pub declared :
    RouteMap → Text → ℕ → Transport → Service → Option (List HandshakeCapability) → Handled
declared routes id now t s none = ended t s malformed
declared routes id now t s (some caps) = record {
  transport = t;
  service = (mark_running id now s).0;
  warnings = validate_capabilities routes caps;
  error = marking (mark_running id now s).1;
}

-- TypeHandshake is 5. A receive that would wait ends by the deadline.
abbrev pub received :
    (Text → Option (List HandshakeCapability))
    → RouteMap
    → Text
    → ℕ
    → Service
    → Received × Transport
    → Handled
received decode routes id now s (got m, t) =
    if m.type == 5 then declared routes id now t s (decode m.payload) else ended t s unexpected_type
received decode routes id now s (waits, t) = ended t s deadline
received decode routes id now s (failed e, t) = ended t s (receive_error e)

unfoldable pub handle :
    (Text → Option (List HandshakeCapability)) → RouteMap → Text → ℕ → Transport → Service → Handled
handle decode routes id now t s = received decode routes id now s (receive false id t)

-- Without an error the worker is known and running; with one nothing of the service has changed.
abbrev pub Settled : Text → Service → Handled → Type 0
Settled id s h = elim h.error [
  | none ↦ (w : Worker) × (lookup id h.service.repo ≡ some w) × (w.state ≡ running)
  | some e ↦ h.service ≡ s
]

declared-Settled :
    (routes : RouteMap) (id : Text) (now : ℕ) (t : Transport) (s : Service)
    (caps : Option (List HandshakeCapability))
    → Keyed s.repo
    → Settled id s (declared routes id now t s caps)
declared-Settled routes id now t s none k = refl
declared-Settled routes id now t s (some caps) k = elim (report_lem shakes_hands id now s k) [
  | inl (e, r) ↦ rw r refl
  | inr (w, e, (v, kept, st, n, ok)) ↦ rw ok (v, ground (arith, kept id, str_eq_refl id), st)
]

received-Settled :
    (decode : Text → Option (List HandshakeCapability)) (routes : RouteMap) (id : Text) (now : ℕ)
    (s : Service) (r : Received × Transport)
    → Keyed s.repo
    → Settled id s (received decode routes id now s r)
received-Settled decode routes id now s (got m, t) k = elim (Bool-cases (m.type == 5)) [
  | inl e ↦ rw e (declared-Settled routes id now t s (decode m.payload) k)
  | inr e ↦ rw e refl
]
received-Settled decode routes id now s (waits, t) k = refl
received-Settled decode routes id now s (failed e, t) k = refl

-- A handshake without an error leaves the worker known and running, whichever of the routes that it
-- declares are missing in the map; one with an error leaves the service as it was. This is for a
-- repository that has every worker under its own ID.
pub handle-Settled :
    (decode : Text → Option (List HandshakeCapability)) (routes : RouteMap) (id : Text) (now : ℕ)
    (t : Transport) (s : Service)
    → Keyed s.repo
    → Settled id s (handle decode routes id now t s)
unfolding handle
handle-Settled decode routes id now t s k =
    received-Settled decode routes id now s (receive false id t) k
