-- ===== src/Server/Routes.antt =====
-- Which handlers the registered routes reach.
use llmapi_gate_way.Server.{
  Gin, IsStatic, one_route, GinLaws, Server, is_supported, is_static, route,
}
use llmapi_gate_way.Common.{String, ◌≡◌, refl, true, ◌&&◌, none, some, ◌==◌, if◌then◌else◌}

module _ {E H : Type 0} (gin : Gin E H) where
  -- What an engine finds: its handler for a new route, and the rest as before.
  abbrev pub Adds : String → String → H → E → E → Type 0
  Adds method path h e e' =
      (other_method other_path : String)
      → is_static other_path ≡ true
      → gin.find e' other_method other_path ≡ (
          if (method == other_method) && (path == other_path)
          then some h
          else gin.find e other_method other_path)

module _ {E H : Type 0} (gin : Gin E H) (laws : GinLaws gin) where
  pub route-Adds :
      (method path : String) (h : H) (s : Server E)
      → IsStatic gin s.engine
      → is_supported method ≡ true
      → is_static path ≡ true
      → gin.find s.engine method path ≡ none
      → (e' : E) × (route gin method path h s ≡ some (record s { engine = e' }))
        × IsStatic gin e'
        × Adds gin method path h s.engine e'
  route-Adds method path h s static known plain fresh =
      let (e', made) = laws.handle-fresh method path h s.engine static known plain fresh in
      (
        e',
        rw made refl,
        one_route method path h known plain made static,
        λ other_method other_path asked.
            laws.find-handle method path h s.engine e' other_method other_path static known plain
              asked made,
      )
