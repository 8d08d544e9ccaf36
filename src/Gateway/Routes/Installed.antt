-- ===== src/Gateway/Routes/Installed.antt =====
-- src/cmd/tun-gateway/main.go, SyncRoutes: the table of routes after it, against the servers.
use goxot.Base.{
  ℕ, ◌≡◌, refl, ◌∙◌, Bool, true, List, [], ◌∷◌, Option, none, some, if◌then◌else◌, arith,
}
use goxot.Base.Maps.{Map, lookup, lookup-insert, lookup-delete}
use goxot.Base.Maps.Order.{Distinct, insert-Distinct, IsRange}
use goxot.Base.Texts.{text_key, same_text, same_text_iff}
use goxot.Config.Ints.{split}
use goxot.Config.Servers.{ServerConfig, get_server}
use goxot.Gateway.Routes.{
  Routes, parts_of, new_route, new_routes, remote, remove_unless, remove_stale, add_unless,
  add_missing, wanted, sync_routes,
}

-- What is left of an entry that the range reaches, and what of one it does not reach.
stay : (new entry cur : Option ℕ) → Option ℕ
stay none (some d) cur = none
stay _ _ cur = cur

lookup-remove_unless :
    (new : Option ℕ) (prefix : List ℕ) (digits : ℕ) (r : Routes) (k : List ℕ)
    → lookup k (remove_unless new prefix digits r).current ≡ (
        if same_text prefix k
        then stay new (some digits) (lookup k r.current)
        else lookup k r.current)
unfolding remove_unless stay
lookup-remove_unless none prefix digits r k = lookup-delete prefix k r.current
lookup-remove_unless (some d) prefix digits r k = ground arith

lookup-remove_stale :
    (new entries : Map (List ℕ) ℕ) (r : Routes) (k : List ℕ)
    → lookup k (remove_stale new entries r).current
      ≡ stay (lookup k new) (lookup k entries) (lookup k r.current)
unfolding remove_stale stay lookup
lookup-remove_stale new [] r k = ground arith
lookup-remove_stale new ((prefix, digits) ∷ entries) r k = ground (
  arith,
  lookup-remove_stale new entries (remove_unless (lookup prefix new) prefix digits r) k,
  lookup-remove_unless (lookup prefix new) prefix digits r k,
  same_text_iff prefix k,
)

module _ (add_ok : List ℕ → ℕ → Bool) where
  add : List ℕ → (new cur : Option ℕ) → Option ℕ
  add k new (some d) = some d
  add k none none = none
  add k (some d) none = if add_ok k d then some d else none

  lookup-add_unless :
      (cur : Option ℕ) (prefix : List ℕ) (digits : ℕ) (r : Routes) (k : List ℕ)
      → lookup prefix r.current ≡ cur
      → lookup k (add_unless add_ok cur prefix digits r).current ≡ (
          if same_text prefix k
          then add k (some digits) (lookup k r.current)
          else lookup k r.current)
  unfolding add_unless add
  lookup-add_unless none prefix digits r k e =
      ground (arith, e, lookup-insert prefix k digits r.current, same_text_iff prefix k)
  lookup-add_unless (some d) prefix digits r k e = ground (arith, e, same_text_iff prefix k)

  lookup-add_missing :
      (entries : Map (List ℕ) ℕ) (r : Routes) (k : List ℕ)
      → Distinct entries
      → lookup k (add_missing add_ok entries r).current
        ≡ add k (lookup k entries) (lookup k r.current)
  unfolding add_missing add lookup
  lookup-add_missing [] r k h = ground arith
  lookup-add_missing ((prefix, digits) ∷ entries) r k h = ground (
    arith,
    h,
    lookup-add_missing entries (add_unless add_ok (lookup prefix r.current) prefix digits r) k h.1,
    lookup-add_unless (lookup prefix r.current) prefix digits r k refl,
    same_text_iff prefix k,
  )

module _ (scan : List ℕ → ℕ) where
  or_digits : Option ℕ → List ℕ → Option (List ℕ × List ℕ) → Option ℕ
  or_digits (some d) k parts = some d
  or_digits none k none = none
  or_digits none k (some (prefix, plen)) = if same_text prefix k then some (scan plen) else none

  -- The digits that the last server with this prefix gives it.
  unfoldable pub last_digits : List ℕ → List ServerConfig → Option ℕ
  unfolding or_digits
  last_digits k [] = none
  last_digits k (srv ∷ servers) =
      or_digits (last_digits k servers) k (parts_of (split b'/' srv.prefix))

  or_old : Option ℕ → Option ℕ → Option ℕ
  or_old (some d) old = some d
  or_old none old = old

  lookup-new_route :
      (is_remote : List ℕ → Bool) (last : Option ℕ) (parts : Option (List ℕ × List ℕ))
      (routes : Map (List ℕ) ℕ) (k : List ℕ)
      → or_old
          (if is_remote k then last else none)
          (lookup k (new_route scan is_remote parts routes))
        ≡ or_old (if is_remote k then or_digits last k parts else none) (lookup k routes)
  unfolding or_old or_digits new_route
  lookup-new_route is_remote none none routes k = ground arith
  lookup-new_route is_remote (some d) none routes k = ground arith
  lookup-new_route is_remote none (some (prefix, plen)) routes k =
      ground (arith, lookup-insert prefix k (scan plen) routes, same_text_iff prefix k)
  lookup-new_route is_remote (some d) (some (prefix, plen)) routes k =
      ground (arith, lookup-insert prefix k (scan plen) routes, same_text_iff prefix k)

  lookup-new_routes :
      (is_remote : List ℕ → Bool) (servers : List ServerConfig) (routes : Map (List ℕ) ℕ)
      (k : List ℕ)
      → lookup k (new_routes scan is_remote servers routes)
        ≡ or_old (if is_remote k then last_digits k servers else none) (lookup k routes)
  unfolding or_old new_routes last_digits
  lookup-new_routes is_remote [] routes k = ground arith
  lookup-new_routes is_remote (srv ∷ servers) routes k =
      lookup-new_routes is_remote servers _ k
      ∙ lookup-new_route is_remote (last_digits k servers) (parts_of (split b'/' srv.prefix)) routes
          k

  new_route-Distinct :
      (is_remote : List ℕ → Bool) (parts : Option (List ℕ × List ℕ)) (routes : Map (List ℕ) ℕ)
      → Distinct routes
      → Distinct (new_route scan is_remote parts routes)
  unfolding new_route
  new_route-Distinct is_remote none routes h = h
  new_route-Distinct is_remote (some (prefix, plen)) routes h =
      ground (arith, h, insert-Distinct prefix (scan plen) routes h)

  new_routes-Distinct :
      (is_remote : List ℕ → Bool) (servers : List ServerConfig) (routes : Map (List ℕ) ℕ)
      → Distinct routes
      → Distinct (new_routes scan is_remote servers routes)
  unfolding new_routes
  new_routes-Distinct is_remote [] routes h = h
  new_routes-Distinct is_remote (srv ∷ servers) routes h =
      new_routes-Distinct is_remote servers _ (new_route-Distinct is_remote _ routes h)

-- What the table has for a prefix, from what the servers want and what it had.
unfoldable pub route_after : (List ℕ → ℕ → Bool) → List ℕ → (new cur : Option ℕ) → Option ℕ
route_after add_ok k none cur = none
route_after add_ok k (some d) (some old) = some old
route_after add_ok k (some d) none = if add_ok k d then some d else none

module _ {Ip : Type 0} (resolve : List ℕ → ServerConfig → Option (List Ip)) (is_local : Ip → Bool)
    (scan : List ℕ → ℕ) (add_ok : List ℕ → ℕ → Bool) (range : Map (List ℕ) ℕ → Map (List ℕ) ℕ)
    (loaded : List ServerConfig) where
  lookup-wanted :
      (servers : List ServerConfig) (k : List ℕ)
      → lookup k (wanted resolve is_local scan add_ok range loaded servers) ≡ (
          if (get_server resolve is_local loaded k true).1
          then none
          else last_digits scan k servers)
  unfolding wanted remote lookup or_old
  lookup-wanted servers k = ground (
    arith,
    lookup-new_routes scan (remote resolve is_local scan add_ok range loaded) servers [] k,
  )

  -- After SyncRoutes, in whatever order Go ranges over its maps, the table has no route for a prefix
  -- that no server has or that GetServer takes for local; it keeps the route that it had for any other
  -- prefix of a server, its digits included; and it has the digits of the last server with the prefix
  -- where it had none and the kernel takes the route, and nothing where the kernel refuses it.
  pub lookup-sync_routes :
      (servers : List ServerConfig) (r : Routes) (k : List ℕ)
      → ((m : Map (List ℕ) ℕ) → Distinct m → IsRange m (range m))
      → Distinct r.current
      → lookup k (sync_routes resolve is_local scan add_ok range loaded (some servers) r).current
        ≡ route_after add_ok k
            (if (get_server resolve is_local loaded k true).1
              then none
              else last_digits scan k servers)
            (lookup k r.current)
  unfolding sync_routes route_after add stay wanted
  lookup-sync_routes servers r k ranges once =
      let new = wanted resolve is_local scan add_ok range loaded servers in
      let left = remove_stale new (range r.current) r in
      let new_once =
        new_routes-Distinct scan (remote resolve is_local scan add_ok range loaded) servers [] tt in
      ground (
        arith,
        lookup-wanted servers k,
        lookup-add_missing add_ok (range new) left k (ranges new new_once).distinct,
        lookup-remove_stale new (range r.current) r k,
        (ranges new new_once).agrees k,
        (ranges r.current once).agrees k,
      )
