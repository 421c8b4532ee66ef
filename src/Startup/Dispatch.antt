-- ===== src/Startup/Dispatch.antt =====
-- Which handlers the routes reach that cmd/gateway/main.go and internal/server/server.go register.
use llmapi_gate_way.Server.{
  Gin, static_from, is_static, IsStatic, no_routes, GinLaws, Server, route, register_route,
  and_then, register_health_check,
}
use llmapi_gate_way.Server.Routes.{route-Adds}
use llmapi_gate_way.Startup.{Handlers, register_api}
use llmapi_gate_way.Common.{
  String, ◌≡◌, refl, ap, ◌∙◌, true, ◌&&◌, Option, none, some, ◌==◌, if◌then◌else◌,
}

module _ {E H : Type 0} (gin : Gin E H) (handlers : Handlers H) where
  -- The tables of the gateway's routes: the server's own, and the whole.
  abbrev pub health_table : String → String → Option H
  health_table method path =
      if ("GET" == method) && ("/metrics" == path)
      then some handlers.health.metrics
      else if ("GET" == method) && ("/ready" == path)
      then some handlers.health.status_ready
      else if ("GET" == method) && ("/health" == path)
      then some handlers.health.status_ok
      else none

  abbrev pub api : String → String → Option H
  api method path =
      if ("POST" == method) && ("/v1/replay/run" == path)
      then some handlers.start_replay
      else if ("GET" == method) && ("/v1/replay/history" == path)
      then some handlers.list_history
      else if ("POST" == method) && ("/v1/chat/completions" == path)
      then some handlers.chat
      else health_table method path

  abbrev pub Dispatches : Server E → Type 0
  Dispatches s =
      (method path : String)
      → is_static path ≡ true
      → gin.find s.engine method path ≡ api method path

module _ {E H : Type 0} (gin : Gin E H) (laws : GinLaws gin) (handlers : Handlers H) where
  pub health-registered :
      (s : Server E)
      → s.engine ≡ gin.new
      → (s' : Server E) × (register_health_check gin handlers.health s ≡ some s')
        × IsStatic gin s'.engine
        × ((method path : String)
            → is_static path ≡ true
            → gin.find s'.engine method path ≡ health_table gin handlers method path)
  unfolding register_health_check is_static static_from
  health-registered s empty =
      let new : (method path : String) → gin.find s.engine method path ≡ none =
        λ method path. rw empty (laws.find-new method path) in
      let bare : IsStatic gin s.engine = rw empty no_routes in
      let (e1, m1, st1, a1) =
        route-Adds gin laws "GET" "/health" handlers.health.status_ok s bare refl refl
          (new "GET" "/health") in
      let s1 = record s { engine = e1 } in
      let (e2, m2, st2, a2) =
        route-Adds gin laws "GET" "/ready" handlers.health.status_ready s1 st1 refl refl
          (a1 "GET" "/ready" refl ∙ new "GET" "/ready") in
      let s2 = record s { engine = e2 } in
      let (e3, m3, st3, a3) =
        route-Adds gin laws "GET" "/metrics" handlers.health.metrics s2 st2 refl refl
          (a2 "GET" "/metrics" refl ∙ a1 "GET" "/metrics" refl ∙ new "GET" "/metrics") in
      (
        record s { engine = e3 },
        ap
              (λ o. and_then gin o (λ t1.
                and_then gin (route gin "GET" "/ready" handlers.health.status_ready t1)
                  (λ t2. route gin "GET" "/metrics" handlers.health.metrics t2)))
              m1
            ∙ ap (λ o. and_then gin o (λ t2. route gin "GET" "/metrics" handlers.health.metrics t2))
                m2
            ∙ m3,
        st3,
        λ method path asked.
            rw (a3 method path asked, a2 method path asked, a1 method path asked, new method path)
              refl,
      )

  pub api-registered :
      (s : Server E)
      → IsStatic gin s.engine
      → ((method path : String)
          → is_static path ≡ true
          → gin.find s.engine method path ≡ health_table gin handlers method path)
      → (s' : Server E) × (register_api gin handlers s ≡ some s') × Dispatches gin handlers s'
  unfolding register_api register_route is_static static_from
  api-registered s st held =
      let (e1, m1, st1, a1) =
        route-Adds gin laws "POST" "/v1/chat/completions" handlers.chat s st refl refl
          (held "POST" "/v1/chat/completions" refl) in
      let s1 = record s { engine = e1 } in
      let (e2, m2, st2, a2) =
        route-Adds gin laws "GET" "/v1/replay/history" handlers.list_history s1 st1 refl refl
          (a1 "GET" "/v1/replay/history" refl ∙ held "GET" "/v1/replay/history" refl) in
      let s2 = record s { engine = e2 } in
      let (e3, m3, st3, a3) =
        route-Adds gin laws "POST" "/v1/replay/run" handlers.start_replay s2 st2 refl refl (
          a2 "POST" "/v1/replay/run" refl
          ∙ a1 "POST" "/v1/replay/run" refl
          ∙ held "POST" "/v1/replay/run" refl) in
      (
        record s { engine = e3 },
        ap
              (λ o. and_then gin o (λ t1.
                and_then gin (route gin "GET" "/v1/replay/history" handlers.list_history t1)
                  (λ t2. route gin "POST" "/v1/replay/run" handlers.start_replay t2)))
              m1
            ∙ ap
                (λ o.
                  and_then gin o (λ t2. route gin "POST" "/v1/replay/run" handlers.start_replay t2))
                m2
            ∙ m3,
        λ method path asked.
            rw
              (
                a3 method path asked,
                a2 method path asked,
                a1 method path asked,
                held method path asked,
              )
              refl,
      )
