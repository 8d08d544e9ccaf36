-- ===== src/Config/Addresses.antt =====
-- src/addr.go: the address of a listener or of a peer, from a flag or the configuration. The functions
-- of Go's library are parameters: Atoi, the format %d, SplitHostPort, JoinHostPort and ParseIP, which
-- is a test. A text is a list of bytes.
pub mod Dialled
use goxot.Base.{
  ℕ, Bool, true, false, not, ◌||◌, ◌&&◌, List, [], ◌∷◌, Option, none, some, Result, ok, err, ltb,
  ◌==◌, if◌then◌else◌,
}
use goxot.Base.Texts.{same_text}
use goxot.Config.Ints.{ℤ, pos, negsuc}

pub data AddrError : Type 0 where
  port_out_of_range invalid_address invalid_port invalid_host_ip : AddrError

-- A port number from 1 to 65535.
unfoldable pub port_number : ℤ → Option ℕ
port_number (pos n) = if ltb n 1 || ltb 65535 n then none else some n
port_number (negsuc n) = none

-- The text before the first %.
unfoldable pub without_zone : List ℕ → List ℕ
without_zone [] = []
without_zone (c ∷ host) = let rest = without_zone host in if c == b'%' then [] else c ∷ rest

module _ (atoi : List ℕ → Option ℤ) (show : ℕ → List ℕ)
    (split_host_port : List ℕ → Option (List ℕ × List ℕ))
    (join_host_port : List ℕ → List ℕ → List ℕ) (is_ip : List ℕ → Bool) where
  bare_port : Option ℕ → Result AddrError (List ℕ)
  bare_port none = err port_out_of_range
  bare_port (some n) = ok (b':' ∷ show n)

  host_is_valid : List ℕ → Bool
  host_is_valid [] = true
  host_is_valid host = is_ip (without_zone host)

  with_port : List ℕ → List ℕ → Option ℤ → Result AddrError (List ℕ)
  with_port s host none = err invalid_port
  with_port s host (some i) = elim (port_number i) [
    | none ↦ err invalid_port
    | some n ↦ if host_is_valid host then ok s else err invalid_host_ip
  ]

  with_host : List ℕ → Option (List ℕ × List ℕ) → Result AddrError (List ℕ)
  with_host s none = err invalid_address
  with_host s (some (host, port)) = with_port s host (atoi port)

  not_empty : List ℕ → Option ℤ → Result AddrError (List ℕ)
  not_empty s (some n) = bare_port (port_number n)
  not_empty s none = with_host s (split_host_port s)

  unfoldable pub parse_addr_spec : List ℕ → Result AddrError (List ℕ)
  unfolding bare_port host_is_valid with_port with_host not_empty
  parse_addr_spec s =
      if same_text s [] || same_text s (b'0' ∷ []) then ok [] else not_empty s (atoi s)

  dial_host : List ℕ → List ℕ → Option (List ℕ × List ℕ) → List ℕ
  dial_host a resolved_ip none = a
  dial_host a resolved_ip (some ([], port)) = join_host_port resolved_ip port
  dial_host a resolved_ip (some (c ∷ host, port)) = a

  -- 1998 is PortDefault.
  unfoldable pub dial_addr : List ℕ → List ℕ → List ℕ
  unfolding dial_host
  dial_addr a resolved_ip =
      if same_text a []
      then join_host_port resolved_ip (show 1998)
      else dial_host a resolved_ip (split_host_port a)
