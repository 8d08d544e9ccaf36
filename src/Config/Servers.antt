-- ===== src/Config/Servers.antt =====
-- src/config.go: the servers that Reload keeps, and the one that GetServer picks for an address.
pub mod Valid
use goxot.Base.{
  ℕ, Bool, true, false, not, ◌&&◌, ◌||◌, List, [], ◌∷◌, Option, none, some, if◌then◌else◌, length,
  codes,
}
use goxot.Config.Ints.{ℤ, pos, eq_int, atoi, split}
use goxot.Prefix.{longest_match}

pub record ServerConfig : Type 0 where
  pub prefix : List ℕ
  pub ip : List ℕ
  pub port : List ℕ
  pub dns_pattern : List ℕ
  pub dns_name : List ℕ
  pub tcp_keepalive_interval : Option ℤ
  pub x25_keepalive_interval : ℤ

abbrev pub tcp_keepalive_default : ℤ
tcp_keepalive_default = pos 30

abbrev pub port_default : List ℕ
port_default = codes ":1998"

abbrev pub pattern_default : List ℕ
pattern_default = codes "^(...)(...)"

abbrev pub is_empty : List ℕ → Bool
is_empty [] = true
is_empty (c ∷ text) = false

unfoldable pub server_defaults : ServerConfig → ServerConfig
server_defaults srv = record srv {
  port = if is_empty srv.port then port_default else srv.port;
  tcp_keepalive_interval = elim srv.tcp_keepalive_interval [
    | none ↦ some tcp_keepalive_default
    | some v ↦ some v
  ];
}

-- `none`: the server is left out.
unfoldable pub validate_server : ServerConfig → Option ServerConfig
unfolding server_defaults
validate_server s =
    let srv = server_defaults s in
    let has_ip = not (is_empty srv.ip) in
    let has_dns = not (is_empty srv.dns_name) || not (is_empty srv.dns_pattern) in
    if has_ip && has_dns
    then none
    else if not has_ip && not has_dns
    then none
    else if has_dns
    then (if is_empty srv.dns_name
        then none
        else some (record srv {
          dns_pattern = if is_empty srv.dns_pattern then pattern_default else srv.dns_pattern;
        }))
    else some srv

keep : Option ServerConfig → List ServerConfig → List ServerConfig
keep none valid = valid
keep (some srv) valid = srv ∷ valid

unfoldable pub valid_servers : List ServerConfig → List ServerConfig
unfolding keep
valid_servers [] = []
valid_servers (srv ∷ servers) = keep (validate_server srv) (valid_servers servers)

-- The prefix of a server, of the form 123/3: the number is the length of the text before it.
unfoldable pub prefix_part : List (List ℕ) → Option (List ℕ)
prefix_part (prefix ∷ plen ∷ []) = elim (atoi plen) [
  | none ↦ none
  | some n ↦ if eq_int n (pos (length prefix)) then some prefix else none
]
prefix_part _ = none

unfoldable pub prefix_of : ServerConfig → Option (List ℕ)
unfolding prefix_part
prefix_of srv = prefix_part (split b'/' srv.prefix)

-- `resolve` finds the addresses of a server for a call (ResolveXotDestination), and `is_local` tells
-- whether an address is one of this machine's (isLocalIP).
module _ {Ip : Type 0} (resolve : List ℕ → ServerConfig → Option (List Ip))
    (is_local : Ip → Bool) where
  unfoldable pub any_local : List Ip → Bool
  any_local [] = false
  any_local (ip ∷ ips) = is_local ip || any_local ips

  unfoldable pub get_server : List ServerConfig → List ℕ → Bool → Option ServerConfig × Bool
  unfolding any_local
  get_server servers x121_addr default_local =
      elim (longest_match prefix_of x121_addr none 0 servers) [
        | none ↦ (none, default_local)
        | some best ↦ elim (resolve x121_addr best) [
          | none ↦ (some best, default_local)
          | some ips ↦ (some best, any_local ips)
        ]
      ]
