-- ===== src/Config/Servers/Valid.antt =====
-- src/config.go: what holds of the servers that Reload keeps and of the one that GetServer picks.
use goxot.Base.{
  ℕ, ◌≤◌, ◌≡◌, refl, Bool, true, false, List, [], ◌∷◌, Option, none, some, if◌then◌else◌, arith,
  ◌⊎◌, inl, inr, All,
}
use goxot.Config.Ints.{ℤ}
use goxot.Prefix.Longest.{score, IsFirstBest, longest_match_lem}
use goxot.Config.Servers.{
  ServerConfig, is_empty, port_default, tcp_keepalive_default, server_defaults, validate_server,
  keep, valid_servers, prefix_of, any_local, get_server,
}

-- A server has an IP or a DNS name with a pattern, never both, and its port and its keepalive are set.
pub record IsServer (srv : ServerConfig) : Type 0 where
  pub one_way :
      ((is_empty srv.ip ≡ false)
        × (is_empty srv.dns_name ≡ true)
        × (is_empty srv.dns_pattern ≡ true))
      ⊎ ((is_empty srv.ip ≡ true)
          × (is_empty srv.dns_name ≡ false)
          × (is_empty srv.dns_pattern ≡ false))
  pub has_port : is_empty srv.port ≡ false
  pub has_keepalive : (v : ℤ) × (srv.tcp_keepalive_interval ≡ some v)

Fit : Option ServerConfig → Type 0
Fit none = Unit {0}
Fit (some srv) = IsServer srv

default_port : (port : List ℕ) → is_empty (if is_empty port then port_default else port) ≡ false
default_port [] = refl
default_port (c ∷ port) = refl

default_keepalive :
    (t : Option ℤ)
    → (v : ℤ) × (elim t as (λ t'. Option ℤ) [ none ↦ some tcp_keepalive_default | some w ↦ some w ]
        ≡ some v)
default_keepalive none = (tcp_keepalive_default, refl)
default_keepalive (some v) = (v, refl)

-- By whether the IP, the name and the pattern are empty.
by_fields :
    (prefix ip port pattern name : List ℕ) (tcp : Option ℤ) (x25 : ℤ)
    → Fit (
        validate_server (record {
          prefix = prefix;
          ip = ip;
          port = port;
          dns_pattern = pattern;
          dns_name = name;
          tcp_keepalive_interval = tcp;
          x25_keepalive_interval = x25;
        }))
unfolding Fit validate_server server_defaults
by_fields prefix [] port [] [] tcp x25 = tt
by_fields prefix (i ∷ ip) port [] [] tcp x25 = record {
  one_way = inl (refl, refl, refl);
  has_port = default_port port;
  has_keepalive = default_keepalive tcp;
}
by_fields prefix [] port (p ∷ pattern) [] tcp x25 = tt
by_fields prefix (i ∷ ip) port (p ∷ pattern) [] tcp x25 = tt
by_fields prefix [] port [] (n ∷ name) tcp x25 = record {
  one_way = inr (refl, refl, refl);
  has_port = default_port port;
  has_keepalive = default_keepalive tcp;
}
by_fields prefix [] port (p ∷ pattern) (n ∷ name) tcp x25 = record {
  one_way = inr (refl, refl, refl);
  has_port = default_port port;
  has_keepalive = default_keepalive tcp;
}
by_fields prefix (i ∷ ip) port [] (n ∷ name) tcp x25 = tt
by_fields prefix (i ∷ ip) port (p ∷ pattern) (n ∷ name) tcp x25 = tt

defaults_same : (srv : ServerConfig) → IsServer srv → server_defaults srv ≡ srv
unfolding server_defaults
defaults_same srv v = rw (v.has_port, v.has_keepalive.1) refl

validate_server_same : (srv : ServerConfig) → IsServer srv → validate_server srv ≡ some srv
unfolding validate_server
validate_server_same srv v =
    rw (defaults_same srv v)
      (elim v.one_way [ inl w ↦ ground (arith, w) | inr w ↦ ground (arith, w) ])

keep-Fit :
    (o : Option ServerConfig) (valid : List ServerConfig)
    → Fit o
    → All IsServer valid × (valid_servers valid ≡ valid)
    → All IsServer (keep o valid) × (valid_servers (keep o valid) ≡ keep o valid)
unfolding keep valid_servers Fit
keep-Fit none valid f h = h
keep-Fit (some srv) valid f h = ((f, h.0), rw (validate_server_same srv f, h.1) refl)

-- Every server that is kept is fit for use, and a list of such servers is kept as it is.
pub valid_servers-IsServer :
    (servers : List ServerConfig)
    → All IsServer (valid_servers servers)
      × (valid_servers (valid_servers servers) ≡ valid_servers servers)
unfolding valid_servers
valid_servers-IsServer [] = (tt, refl)
valid_servers-IsServer (s ∷ servers) =
    keep-Fit (validate_server s) (valid_servers servers)
      (by_fields s.prefix s.ip s.port s.dns_pattern s.dns_name s.tcp_keepalive_interval
        s.x25_keepalive_interval)
      (valid_servers-IsServer servers)

module _ {Ip : Type 0} (resolve : List ℕ → ServerConfig → Option (List Ip))
    (is_local : Ip → Bool) where
  picked :
      (best : ServerConfig) (default_local : Bool) (o : Option (List Ip))
      → (elim o as (λ o'. Option ServerConfig × Bool) [
        | none ↦ (some best, default_local)
        | some ips ↦ (some best, any_local resolve is_local ips)
      ]).0
        ≡ some best
  picked best default_local none = refl
  picked best default_local (some ips) = refl

  -- The server for an address is the first of those whose prefix of the address is the longest,
  -- and there is none exactly when no server has a prefix of the address; then the default tells
  -- whether the call is local. `score` is 0 for a server whose prefix is not of the form text/length
  -- or not a prefix of the address, and the prefix's length plus 1 otherwise.
  pub get_server_longest :
      (servers : List ServerConfig) (x121_addr : List ℕ) (default_local : Bool)
      → ((get_server resolve is_local servers x121_addr default_local ≡ (none, default_local))
          × All (λ srv. score prefix_of x121_addr srv ≤ 0) servers)
        ⊎ ((best : ServerConfig) × ((get_server resolve is_local servers x121_addr default_local).0
              ≡ some best)
            × IsFirstBest prefix_of x121_addr 0 servers best)
  unfolding get_server
  get_server_longest servers x121_addr default_local =
      elim (longest_match_lem prefix_of x121_addr servers) [
        | inl (e, h) ↦ inl (rw (e, get_server) refl, h)
        | inr (best, e, h) ↦
            inr (best, rw (e, get_server) (picked best default_local (resolve x121_addr best)), h)
      ]
