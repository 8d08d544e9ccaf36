-- ===== src/Gateway/Sound/Traces.antt =====
-- src/cmd/tun-gateway/main.go: every interleaving of the handlers' rounds.
use goxot.Base.{
  ℕ, ◌≤◌, ◌≡◌, ◌≢◌, refl, Bool, true, false, List, [], ◌∷◌, Option, none, some, length, All, Result,
  ok, err,
}
use goxot.Link.{connecting, header_connect, header_disconnect}
use goxot.Config.Servers.{ServerConfig}
use goxot.X25.Packet.{X25Packet}
use goxot.Xot.{XotError}
use goxot.Session.{new_session_manager}
use goxot.Session.Keyed.{new_session_manager-Keyed}
use goxot.Gateway.{Gateway, write_tun, close_all_sessions, end_reader, open_conn}
use goxot.Gateway.Server.{handle_server_conn}
use goxot.Gateway.Kernel.{handle_tun_read}
use goxot.Gateway.Dial.{forward_to_gateway, handle_gateway_read}
use goxot.Gateway.Sound.{
  IsSound, write_tun-IsSound, close_all_sessions-IsSound, end_reader-IsSound, open_conn-IsSound,
}
use goxot.Gateway.Sound.Readers.{
  Gives, Yields, Goes, done, stops, read_failed-IsSound, handle_server_conn-Goes,
}
use goxot.Gateway.Sound.Dial.{
  forward_to_gateway-IsSound, handle_gateway_read-Goes, failed_read-Goes,
}
use goxot.Gateway.Sound.Kernel.{handle_tun_read-Yields}

-- The state that main makes before it starts the readers; connection 0 is nil.
unfoldable pub new_gateway : ℕ → ℕ → Gateway
new_gateway lci_start lci_end = record {
  sm = new_session_manager lci_start lci_end;
  link_state = connecting;
  shutting_down = false;
  spawned = [];
  next_conn = 1;
  closed = [];
  frames = record { control = header_connect; payload = [] } ∷ [];
  messages = [];
}

-- One round of a handler: what it read, or what its calls returned.
pub data Event : Type 0 where
  server_read gateway_read : ℕ → Result XotError (List ℕ) → Event
  kernel_read : ℕ → List ℕ → Event
  forwarded : X25Packet → Bool → Bool → Event
  accepted shut_down : Event
  reader_ended : ℕ → Event

-- The handler of the signal; the process ends behind it.
unfoldable pub shut : Gateway → Gateway
unfolding write_tun
shut g = write_tun (close_all_sessions (record g { shutting_down = true })) header_disconnect []

unfoldable pub state_of_round : Option (Gateway × Bool) → Option Gateway
state_of_round none = none
state_of_round (some (g, go_on)) = some g

module _ {Ip : Type 0} (resolve : List ℕ → ServerConfig → Option (List Ip)) (is_local : Ip → Bool)
    (servers : List ServerConfig) where
  unfoldable pub handle : Gateway → Event → Option Gateway
  unfolding state_of_round
  handle g (server_read conn r) = state_of_round (handle_server_conn g conn r)
  handle g (gateway_read conn r) = state_of_round (handle_gateway_read g conn r)
  handle g (kernel_read hdr payload) = handle_tun_read resolve is_local servers g hdr payload
  handle g (forwarded pkt dialled wrote) = some (forward_to_gateway g pkt dialled wrote)
  handle g accepted = some (open_conn g)
  handle g shut_down = some (shut g)
  handle g (reader_ended conn) = some (end_reader g conn)

  -- `none`: a handler panics.
  unfoldable pub replay : List Event → Gateway → Option Gateway
  replay [] g = some g
  replay (e ∷ events) g = elim (handle g e) [ none ↦ none | some g' ↦ replay events g' ]

-- What a socket can read: the connection is not nil, and a packet has the two bytes of an LCI.
unfoldable pub IsLong : Result XotError (List ℕ) → Type 0
IsLong (err e) = Unit
IsLong (ok packet) = 2 ≤ length packet

unfoldable pub IsReadable : Event → Type 0
unfolding IsLong
IsReadable (server_read conn r) = (conn ≢ 0) × IsLong r
IsReadable (gateway_read conn r) = IsLong r
IsReadable _ = Unit

state_of_round-Yields : (o : Option (Gateway × Bool)) → Goes o → Yields (state_of_round o)
unfolding state_of_round Gives
state_of_round-Yields o ((g, b), e, v) = (g, rw e refl, v)

module _ {Ip : Type 0} (resolve : List ℕ → ServerConfig → Option (List Ip)) (is_local : Ip → Bool)
    (servers : List ServerConfig) where
  handle-Yields :
      (g : Gateway) (e : Event)
      → IsReadable e
      → IsSound g
      → Yields (handle resolve is_local servers g e)
  unfolding handle IsReadable IsLong shut handle_server_conn
  handle-Yields g (server_read conn (ok packet)) h v =
      state_of_round-Yields _ (handle_server_conn-Goes g conn packet h.0 h.1 v)
  handle-Yields g (server_read conn (err x)) h v =
      state_of_round-Yields _ (stops false (read_failed-IsSound g conn x v))
  handle-Yields g (gateway_read conn (ok packet)) h v =
      state_of_round-Yields _ (handle_gateway_read-Goes g conn packet h v)
  handle-Yields g (gateway_read conn (err x)) h v =
      state_of_round-Yields _ (failed_read-Goes g conn x v)
  handle-Yields g (kernel_read hdr payload) h v =
      handle_tun_read-Yields resolve is_local servers g hdr payload v
  handle-Yields g (forwarded pkt dialled wrote) h v =
      done (forward_to_gateway-IsSound g pkt dialled wrote v)
  handle-Yields g accepted h v = done (open_conn-IsSound g v)
  handle-Yields g shut_down h v = done (
      write_tun-IsSound _ header_disconnect []
        (close_all_sessions-IsSound _ (record { keyed = v.keyed; next = v.next })))
  handle-Yields g (reader_ended conn) h v = done (end_reader-IsSound g conn v)

  replay-Yields :
      (events : List Event) (g : Gateway)
      → All IsReadable events
      → IsSound g
      → Yields (replay resolve is_local servers events g)
  unfolding replay Gives
  replay-Yields [] g h v = done v
  replay-Yields (e ∷ events) g (h, hs) v =
      let (g', eq, w) = handle-Yields g e h v in rw (eq, replay) (replay-Yields events g' hs w)

  -- From the state that main makes, with whatever range, no interleaving of the rounds of the
  -- handlers panics, provided that no connection is nil and every packet read from a connection has
  -- at least two bytes; frames of the kernel may be of any length. In the state that results, every
  -- session of the LCI index stands under its own TUN LCI, which lies in 1 to 4095, every session of
  -- the connection index under its own connection and LCI, and none has the nil connection.
  pub replay-IsSound :
      (lci_start lci_end : ℕ) (events : List Event)
      → All IsReadable events
      → (g : Gateway) × (replay resolve is_local servers events (new_gateway lci_start lci_end)
          ≡ some g)
        × IsSound g
  unfolding Gives new_gateway
  replay-IsSound lci_start lci_end events h =
      replay-Yields events (new_gateway lci_start lci_end) h
        (record { keyed = new_session_manager-Keyed lci_start lci_end; next = λ e. cc })
