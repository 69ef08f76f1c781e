-- ===== src/Server/Errors.antt =====
-- What clients see of the errors of the dispatcher, core/infrastructure/gateway/server.go.
use vyx.Base.{ℕ, ◌≡◌, refl, false, Option, some}
use vyx.Circuit.{allow}
use vyx.Circuit.Registry.{breaker_of}
use vyx.Route.{RouteEntry}
use vyx.Dispatcher.{
  GatewayRequest, GatewayError, GatewayResponse, World, Gateway, Outcome, circuit_refuses,
}
use vyx.Dispatcher.Sending.{dispatch_route, route_key}
use vyx.Server.{Env, HttpRequest, Server, answered, error_message}
use vyx.Server.Replies.{write_error, sentinel_of, dispatched}

-- The dispatcher has a response with this status, but the client is told of an internal error.
pub record Masked (env : Env) (r : HttpRequest) (s : Server) (d : Option (Gateway × Outcome))
    (code : ℕ) : Type 0 where
  pub gateway : Gateway
  pub outcome : Outcome
  pub response : GatewayResponse
  pub error : GatewayError
  pub made : d ≡ some (gateway, outcome)
  pub has_response : outcome.response ≡ some response
  pub has_status : response.status_code ≡ code
  pub replied : (dispatched env r s d).1 ≡ answered (write_error env r error)
  pub internal : (write_error env r error).status ≡ 500
  pub message : (write_error env r error).body ≡ error_message "internal server error"

-- A request that the breaker of its route refuses, for which the dispatcher makes a response with
-- the status 503, is answered with the status 500 and "internal server error" instead.
pub refused_as_500 :
    (env : Env) (r : HttpRequest) (s : Server) (w : World) (now : ℕ) (route : RouteEntry)
    (req : GatewayRequest)
    → (allow now (breaker_of (route_key req route) s.gateway.circuit)).1 ≡ false
    → Masked env r s (dispatch_route w now route req s.gateway) 503
unfolding dispatch_route write_error sentinel_of
refused_as_500 env r s w now route req h =
    rw (dispatch_route, h)
      (record {
        gateway = _;
        outcome = _;
        response = _;
        error = circuit_refuses;
        made = refl;
        has_response = refl;
        has_status = refl;
        replied = refl;
        internal = refl;
        message = refl;
      })
