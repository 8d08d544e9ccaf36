-- ===== src/Gateway/Routes.antt =====
-- src/cmd/tun-gateway/main.go, SyncRoutes: the routes of the interface, kept in step with the
-- servers. `scan` reads the digits of a prefix (Sscanf), `add_ok` tells whether the
-- kernel takes a route, and `range` is the order in which Go ranges over a map. `servers` is the list
-- that GetServers gives and `loaded` the one that GetServer uses, which can be a reload later.
pub mod Installed
use goxot.Base.{not, ℕ, Bool, true, false, List, [], ◌∷◌, Option, none, some, if◌then◌else◌}
use goxot.Base.Maps.{Map, lookup, insert, delete}
use goxot.Base.Texts.{text_key}
use goxot.Config.Ints.{split}
use goxot.Config.Servers.{ServerConfig, get_server}

pub data RouteCall : Type 0 where
  add_route delete_route : List ℕ → ℕ → RouteCall

pub record Routes : Type 0 where
  pub current : Map (List ℕ) ℕ
  pub calls : List RouteCall

-- The two parts of a prefix such as 123/3.
unfoldable pub parts_of : List (List ℕ) → Option (List ℕ × List ℕ)
parts_of (prefix ∷ plen ∷ []) = some (prefix, plen)
parts_of _ = none

module _ (scan : List ℕ → ℕ) (is_remote : List ℕ → Bool) where
  unfoldable pub new_route : Option (List ℕ × List ℕ) → Map (List ℕ) ℕ → Map (List ℕ) ℕ
  new_route none routes = routes
  new_route (some (prefix, plen)) routes =
      if is_remote prefix then insert prefix (scan plen) routes else routes

  unfoldable pub new_routes : List ServerConfig → Map (List ℕ) ℕ → Map (List ℕ) ℕ
  new_routes [] routes = routes
  new_routes (srv ∷ servers) routes =
      new_routes servers (new_route (parts_of (split b'/' srv.prefix)) routes)

-- The entry goes whether or not the kernel took the route back.
unfoldable pub remove_unless : Option ℕ → List ℕ → ℕ → Routes → Routes
remove_unless none prefix digits r = record {
  current = delete prefix r.current;
  calls = delete_route prefix digits ∷ r.calls;
}
remove_unless (some d) prefix digits r = r

unfoldable pub remove_stale : Map (List ℕ) ℕ → Map (List ℕ) ℕ → Routes → Routes
remove_stale new [] r = r
remove_stale new ((prefix, digits) ∷ entries) r =
    remove_stale new entries (remove_unless (lookup prefix new) prefix digits r)

module _ (add_ok : List ℕ → ℕ → Bool) where
  unfoldable pub add_unless : Option ℕ → List ℕ → ℕ → Routes → Routes
  add_unless none prefix digits r = record {
    current = if add_ok prefix digits then insert prefix digits r.current else r.current;
    calls = add_route prefix digits ∷ r.calls;
  }
  add_unless (some d) prefix digits r = r

  unfoldable pub add_missing : Map (List ℕ) ℕ → Routes → Routes
  add_missing [] r = r
  add_missing ((prefix, digits) ∷ entries) r =
      add_missing entries (add_unless (lookup prefix r.current) prefix digits r)

module _ {Ip : Type 0} (resolve : List ℕ → ServerConfig → Option (List Ip)) (is_local : Ip → Bool)
    (scan : List ℕ → ℕ) (add_ok : List ℕ → ℕ → Bool) (range : Map (List ℕ) ℕ → Map (List ℕ) ℕ)
    (loaded : List ServerConfig) where
  unfoldable pub remote : List ℕ → Bool
  remote prefix = not ((get_server resolve is_local loaded prefix true).1)

  unfoldable pub wanted : List ServerConfig → Map (List ℕ) ℕ
  wanted servers = new_routes scan remote servers []

  -- No configuration is `none`.
  unfoldable pub sync_routes : Option (List ServerConfig) → Routes → Routes
  sync_routes none r = r
  sync_routes (some servers) r =
      add_missing add_ok (range (wanted servers))
        (remove_stale (wanted servers) (range r.current) r)
