-- ===== src/WebSocket.antt =====
-- The WebSocket proxy of core/infrastructure/gateway/websocket.go, over the transport. `Codec` is
-- what the proxy calls of JSON, of the package strings and of the validator of tokens. The library
-- that speaks the protocol to the client is outside: what the client sends is a list, and whether it
-- takes a message an argument.
pub mod Session
use vyx.Base.{
  ℕ, zero, suc, Bool, true, false, ◌&&◌, List, [], ◌∷◌, ◌++◌, Option, none, some, if◌then◌else◌,
  ltb, ◌==◌, Text, lit, str_eq, Dict, lookup, insert, length, take, drop, is_some,
}
use vyx.Route.{RouteEntry, RouteMap, LookupResult, lookup_route, is_empty}
use vyx.Dispatcher.{Claims}
use vyx.Framing.{Message}
use vyx.Transport.{Transport, TransportError, Received, got, waits, failed, send, receive_response}

pub record WsMessage : Type 0 where
  pub session_id : Text
  pub content : Text

pub record Codec : Type 0 where
  pub equal_fold : Text → Text → Bool
  pub jwt : Text → Option Claims
  pub open_payload : Text → Option Claims → Text
  pub marshal : WsMessage → Text
  pub unmarshal : Text → Option WsMessage

-- How the handler answers before it upgrades: with a status, or by an upgrade for this worker.
pub data Upgrade : Type 0 where
  rejects : ℕ → Upgrade
  upgrades : RouteEntry → Option Claims → Upgrade

-- The set of the caller's roles, and the search in it.
unfoldable pub role_set : List Text → Dict (Unit {0}) → Dict (Unit {0})
role_set [] set = set
role_set (r ∷ rs) set = role_set rs (insert r tt set)

unfoldable pub any_in : List Text → Dict (Unit {0}) → Bool
any_in [] set = false
any_in (r ∷ rs) set = let rest = any_in rs set in if is_some (lookup r set) then true else rest

unfoldable pub has_ws_role : List Text → List Text → Bool
has_ws_role caller required = any_in required (role_set caller [])

unfoldable pub strip_bearer : Codec → Text → Text
strip_bearer k token =
    if ltb 7 (length token) && k.equal_fold (take 7 token) (lit "bearer ")
    then drop 7 token
    else token

abbrev pub with_claims : RouteEntry → Option Claims → Upgrade
with_claims route none = rejects 401
with_claims route (some c) =
    if has_ws_role c.roles route.auth_roles then upgrades route (some c) else rejects 403

unfoldable pub authorise : Codec → RouteEntry → Text → Upgrade
authorise k route token =
    if is_empty route.auth_roles
    then upgrades route none
    else with_claims route (k.jwt (strip_bearer k token))

abbrev pub found_route : Codec → Text → Option LookupResult → Upgrade
found_route k token none = rejects 404
found_route k token (some f) = authorise k f.entry token

-- `ServeHTTP` up to the upgrade, with the path and the header Authorization of the request.
unfoldable pub serve_http : Codec → RouteMap → Text → Text → Upgrade
serve_http k routes path token = found_route k token (lookup_route (lit "WS") path routes)

-- `notifyWorkerOpen`; TypeWSOpen is 6. The first argument says whether the connection of the worker
-- takes the bytes.
unfoldable pub notify_worker_open :
    Bool → Codec → Text → Text → Option Claims → Transport → Option TransportError × Transport
notify_worker_open writes k session worker claims =
    send writes worker (record { type = 6; payload = k.open_payload session claims })

abbrev pub ws_message : Codec → Text → Text → Message
ws_message k session d = record {
  type = 7;
  payload = k.marshal (record { session_id = session; content = d });
}

-- How a pump stands: waiting for more, out of fuel, or at its end.
pub data Pump : Type 0 where
  blocked out_of_fuel : Pump
  client_gone : Pump
  stopped : TransportError → Pump

abbrev pub sent_on :
    Option TransportError × Transport → (Transport → Transport × Pump) → Transport × Pump
sent_on (none, t) next = next t
sent_on (some e, t) next = (t, stopped e)

-- `pumpClientToWorker` over what the client sends before it goes; each comes with whether the
-- connection of the worker takes it.
unfoldable pub pump_client_to_worker :
    Codec → Text → Text → List (Text × Bool) → Transport → Transport × Pump
pump_client_to_worker k session worker [] t = (t, client_gone)
pump_client_to_worker k session worker ((d, writes) ∷ ds) t =
    sent_on (send writes worker (ws_message k session d) t)
      (pump_client_to_worker k session worker ds)

-- What a response is worth to a session: nothing if it is of another type, cannot be decoded or
-- names another session.
abbrev pub of_session : Text → Option WsMessage → Option Text
of_session session none = none
of_session session (some m) = if str_eq m.session_id session then some m.content else none

unfoldable pub for_client : Codec → Text → Message → Option Text
for_client k session m = if m.type == 7 then of_session session (k.unmarshal m.payload) else none

pub record Pumped : Type 0 where
  pub transport : Transport
  pub delivered : List Text
  pub stands : Pump

abbrev pub deliver : Text → Pumped → Pumped
deliver d p = record p { delivered = d ∷ p.delivered }

-- A client that takes no message ends the pump.
abbrev pub passed_on : (Text → Bool) → Option Text → Transport → Pumped → Pumped
passed_on takes none t rest = rest
passed_on takes (some d) t rest =
    if takes d
    then deliver d rest
    else record { transport = t; delivered = []; stands = client_gone }

-- One turn of the loop of `pumpWorkerToClient`.
abbrev pub pump_turn :
    Codec → Text → (Text → Bool) → Received × Transport → (Transport → Pumped) → Pumped
pump_turn k session takes (got m, t) next = passed_on takes (for_client k session m) t (next t)
pump_turn k session takes (waits, t) next = record {
  transport = t;
  delivered = [];
  stands = blocked;
}
pump_turn k session takes (failed e, t) next = record {
  transport = t;
  delivered = [];
  stands = stopped e;
}

-- The loop for as many turns as the fuel says.
unfoldable pub pump_worker_to_client : ℕ → Codec → Text → (Text → Bool) → Text → Transport → Pumped
pump_worker_to_client zero k session takes worker t = record {
  transport = t;
  delivered = [];
  stands = out_of_fuel;
}
pump_worker_to_client (suc fuel) k session takes worker t =
    pump_turn k session takes (receive_response false worker t)
      (pump_worker_to_client fuel k session takes worker)
