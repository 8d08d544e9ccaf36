-- ===== src/Tests/Routes.antt =====
-- src/cmd/tun-gateway/main.go, SyncRoutes, at a concrete input: the route of a server that is gone, and
-- that of a new one.
use goxot.Base.{
  ℕ, ◌-◌, ◌≡◌, refl, Bool, true, false, List, [], ◌∷◌, Option, none, some, codes, if◌then◌else◌,
}
use goxot.Base.Maps.{Map, lookup, insert, delete}
use goxot.Base.Maps.Order.{Distinct, IsRange}
use goxot.Base.Texts.{same_text, text_key}
use goxot.Prefix.{has_prefix, improves, longest_match}
use goxot.Config.Ints.{pos, split, atoi}
use goxot.Config.Servers.{ServerConfig, get_server, any_local, prefix_of, prefix_part}
use goxot.Gateway.Routes.{
  Routes, parts_of, new_route, new_routes, remove_unless, remove_stale, add_unless, add_missing,
  remote, wanted, sync_routes, add_route, delete_route,
}
use goxot.Gateway.Routes.Installed.{last_digits, route_after, lookup-sync_routes}

abbrev server : ServerConfig
server = record {
  prefix = codes "12/2";
  ip = codes "10.0.0.1";
  port = [];
  dns_pattern = [];
  dns_name = [];
  tcp_keepalive_interval = none;
  x25_keepalive_interval = pos 0;
}

abbrev one_address : List ℕ → ServerConfig → Option (List ℕ)
one_address addr srv = some (7 ∷ [])

abbrev never : ℕ → Bool
never ip = false

abbrev digit : List ℕ → ℕ
digit [] = 0
digit (c ∷ text) = c - 48

abbrev takes : List ℕ → ℕ → Bool
takes prefix digits = true

abbrev same_order : Map (List ℕ) ℕ → Map (List ℕ) ℕ
same_order m = m

same_order-IsRange : (m : Map (List ℕ) ℕ) → Distinct m → IsRange m (same_order m)
same_order-IsRange m h = record { distinct = h; agrees = λ k. refl }

abbrev old : Routes
old = record { current = (codes "9", 1) ∷ []; calls = [] }

old-Distinct : Distinct old.current
unfolding lookup
old-Distinct = (refl, tt)

synced :
    sync_routes one_address never digit takes same_order (server ∷ []) (some (server ∷ [])) old
    ≡ record {
      current = (codes "12", 2) ∷ [];
      calls = add_route (codes "12") 2 ∷ delete_route (codes "9") 1 ∷ [];
    }
unfolding sync_routes wanted remote new_routes new_route parts_of split remove_unless remove_stale
    add_unless add_missing lookup insert delete same_text get_server any_local prefix_of prefix_part
    atoi longest_match improves has_prefix
synced = refl

lookup-sync_routes_example :
    lookup
      (codes "12")
      (sync_routes one_address never digit takes same_order
        (server ∷ [])
        (some (server ∷ []))
        old).current
    ≡ route_after takes
        (codes "12")
        (if (get_server one_address never (server ∷ []) (codes "12") true).1
          then none
          else last_digits digit (codes "12") (server ∷ []))
        (lookup (codes "12") old.current)
lookup-sync_routes_example =
    lookup-sync_routes one_address never digit takes same_order (server ∷ []) (server ∷ []) old
      (codes "12") same_order-IsRange old-Distinct
