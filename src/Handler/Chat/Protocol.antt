-- ===== src/Handler/Chat/Protocol.antt =====
-- What `Handle` of internal/handler/chat.go asks of the gateway, in which order.
use Prim.Native.String.{◌++◌ as concat}
use llmapi_gate_way.Common.{String, ◌≡◌, true, some, List, [], ◌∷◌}
use llmapi_gate_way.Common.Result.{Result, done}
use llmapi_gate_way.Adapter.Types.{OpenAiRequest}
use llmapi_gate_way.Auth.Keys.{AuthContext, AuthFailure}
use llmapi_gate_way.Router.Manager.{RouteManager}
use llmapi_gate_way.Handler.Gateway.{Gateway}
use llmapi_gate_way.Handler.Chat.{Ending, Arrival}
use llmapi_gate_way.Handler.Chat.Trace.{Event, checked, reserved, started, Handled}

module _ {W B F : Type 0} (g : Gateway W B F) (arrival : Arrival)
    (auth : Result AuthFailure AuthContext) (bound : Result String (OpenAiRequest F))
    (ctx : AuthContext) (req : OpenAiRequest F) (granted : auth ≡ done ctx)
    (read : bound ≡ done req) where
  abbrev start : List Event
  start = checked ctx.user_id ctx.app_id req.model true ∷ []

  abbrev Log : (RouteManager × (W × List Event)) × Ending → Type 0
  Log (t, ending) = Handled auth bound ending t.1.1

  module _ (reservation_id : String) (stream : req.stream ≡ true) where
    abbrev opened : List Event
    opened = started ∷ reserved ctx.user_id ctx.app_id req.model (some reservation_id) ∷ start
