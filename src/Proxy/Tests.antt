-- ===== src/Proxy/Tests.antt =====
-- Runs of the proxy with two services, and the theorems at inputs that meet their hypotheses.
use anito.Prelude.{
  String, ◌≡◌, refl, true, false, Bool, none, some, [], ◌∷◌, arith, ◌==◌, if◌then◌else◌,
  text_comparable, ℕ_comparable,
}
use anito.Assoc.{lookup, insert}
use anito.Assoc.Keys.{IsUnique}
use anito.Registry.Types.{Ports}
use anito.Proxy.Types.{Entry, Proxies, cannot_bind, port_not_registered, upstream, static_files}
use anito.Proxy.Keys.{entry_key, has_colon}
use anito.Proxy.Listeners.{register_ports, bind_each, pass, bind, current_handlers}
use anito.Proxy.Routes.{
  swap_ports, swap_route, missing_port, upstream_handlers, served, handler_or_unavailable,
  remove_ports,
}
use anito.Proxy.Swap.{IsSwapped, swap_ports_lem}
use anito.Proxy.Rollback.{IsRolledBack, register_ports-err, register_ports_leak}
use anito.Proxy.Unswap.{unswap_ports_lem}
use anito.Proxy.Types.{unavailable}
use anito.Proxy.Routes.{unswap_ports}
use anito.Proxy.Removal.{IsRemoved, remove_ports_lem}

abbrev api_http : Entry
api_http = record {
  stable_port = 7173;
  bind_address = "localhost";
  port_name = "http";
  listener = 0;
  route = 2;
}

abbrev api_ws : Entry
api_ws = record {
  stable_port = 7172;
  bind_address = "localhost";
  port_name = "ws";
  listener = 1;
  route = 2;
}

abbrev web_default : Entry
web_default = record {
  stable_port = 3000;
  bind_address = "localhost";
  port_name = "default";
  listener = 3;
  route = 4;
}

abbrev pub two : Proxies
two = record {
  entries = ("api:http", api_http) ∷ ("api:ws", api_ws) ∷ ("web:default", web_default) ∷ [];
  routes = ("api", 2) ∷ ("web", 4) ∷ [];
  generations =
      (2, ("http", upstream 50101) ∷ ("ws", upstream 50100) ∷ [])
      ∷ (4, ("default", static_files "/srv/web") ∷ [])
      ∷ [];
  listening = 0 ∷ 1 ∷ 3 ∷ [];
  next = 5;
}

-- Every port can be bound but the one named "admin".
abbrev not_admin : String → Bool
not_admin port_name = if port_name == "admin" then false else true

abbrev next_ports : Ports
next_ports = ("http", 50201) ∷ ("ws", 50200) ∷ []

api_swaps : (swap_ports "api" next_ports two).1 ≡ none
unfolding swap_ports swap_route missing_port lookup entry_key
api_swaps = refl

api_serves_next : served api_ws (swap_ports "api" next_ports two).0 ≡ upstream 50200
unfolding swap_ports swap_route missing_port lookup entry_key upstream_handlers current_handlers
    insert served handler_or_unavailable
api_serves_next = refl

web_stands : served web_default (swap_ports "api" next_ports two).0 ≡ static_files "/srv/web"
unfolding swap_ports swap_route missing_port lookup entry_key upstream_handlers current_handlers
    insert served handler_or_unavailable
web_stands = refl

next_ports-IsUnique : IsUnique next_ports
unfolding lookup
next_ports-IsUnique = (refl, (refl, tt))

swap_ports_lem_example : IsSwapped "api" next_ports two (swap_ports "api" next_ports two).0
swap_ports_lem_example = swap_ports_lem "api" next_ports two next_ports-IsUnique api_swaps

grpc_missing :
    (swap_ports "api" (("http", 50201) ∷ ("grpc", 50202) ∷ []) two).1
    ≡ some (port_not_registered "api" "grpc")
unfolding swap_ports swap_route missing_port lookup entry_key
grpc_missing = refl

abbrev blog_ports : Ports
blog_ports = ("default", 4000) ∷ ("admin", 4001) ∷ []

blog_fails :
    (register_ports not_admin "blog" "localhost" blog_ports two).1
    ≡ some (cannot_bind 4001 "blog" "admin")
unfolding register_ports bind_each pass bind lookup entry_key
blog_fails = refl

blog_absent : lookup (entry_key "blog" "default") two.entries ≡ none
unfolding lookup entry_key
blog_absent = refl

blog_admin_absent : lookup (entry_key "blog" "admin") two.entries ≡ none
unfolding lookup entry_key
blog_admin_absent = refl

register_ports-err_example :
    IsRolledBack two (register_ports not_admin "blog" "localhost" blog_ports two).0
register_ports-err_example =
    register_ports-err not_admin "blog" "localhost" blog_ports two (cannot_bind 4001 "blog" "admin")
      (omega arith, (omega arith, (omega arith, tt))) (blog_absent, (blog_admin_absent, tt))
      blog_fails

api_grpc_absent : lookup (entry_key "api" "grpc") two.entries ≡ none
unfolding lookup entry_key
api_grpc_absent = refl

api_ws_found : lookup (entry_key "api" "ws") two.entries ≡ some api_ws
unfolding lookup entry_key
api_ws_found = refl

-- Every port can be bound but "ws".
abbrev not_ws : String → Bool
not_ws port_name = if port_name == "ws" then false else true

register_ports_leak_example :
    ((register_ports not_ws "api" "localhost" (("grpc", 7174) ∷ ("ws", 7180) ∷ []) two).1
      ≡ some (cannot_bind 7180 "api" "ws"))
    × ((register_ports not_ws "api" "localhost" (("grpc", 7174) ∷ ("ws", 7180) ∷ []) two).0.entries
        ≡ two.entries)
    × ((register_ports not_ws "api" "localhost"
          (("grpc", 7174) ∷ ("ws", 7180) ∷ [])
          two).0.listening
        ≡ 5 ∷ two.listening)
register_ports_leak_example =
    register_ports_leak not_ws "api" "localhost" "grpc" "ws" 7174 7180 two api_ws api_grpc_absent
      api_ws_found (λ e. absurd (omega (arith, e))) refl refl

api_has_no_colon : has_colon "api" ≡ false
unfolding has_colon
api_has_no_colon = refl

remove_ports_lem_example : IsRemoved "api" two (remove_ports "api" two)
remove_ports_lem_example = remove_ports_lem "api" two api_has_no_colon

api_routed : lookup "api" two.routes ≡ some 2
unfolding lookup
api_routed = refl

unswap_ports_lem_example :
    (served api_ws (unswap_ports "api" two) ≡ unavailable)
    × (served web_default (unswap_ports "api" two) ≡ served web_default two)
unswap_ports_lem_example =
    unswap_ports_lem "api" "ws" two 2 api_ws web_default api_routed api_ws_found refl
      (λ e. absurd (omega (arith, e)))
