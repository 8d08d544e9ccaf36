-- ===== src/Tests/Gateways.antt =====
-- src/cmd/tun-gateway/main.go at concrete inputs: a call from a connection, the kernel's answer, and
-- the ends of a link and of a connection.
use goxot.Base.{
  ◌⊎◌, ℕ, ◌≤◌, ◌≡◌, ◌≢◌, refl, Bool, true, false, List, [], ◌∷◌, Option, none, some, ok, arith, All,
}
use goxot.Base.Bits.{IsByte}
use goxot.Base.Maps.{ℕ_key, lookup, insert}
use goxot.Link.{operational, down, header_data, header_disconnect}
use goxot.Lci.{find_free, scan}
use goxot.Config.Servers.{ServerConfig}
use goxot.X25.Packet.{
  get_gfi, get_lci, get_packet_type, remap_lci, serialize, call_request, restart_request,
  cause_network_congestion,
}
use goxot.X25.Create.{create_clear_request}
use goxot.Session.{
  get_all_sessions, Session, new_session_manager, allocate_and_add_tun_session, register,
  fresh_session, get_by_a_lci, get_by_b_conn_lci, lcis_of, in_use, put_b, id_of,
  remove_by_b_conn_lci,
}
use goxot.Session.Steps.{Inv, Step, Step-Inv, new_session_manager-Inv}
use goxot.Session.Keyed.{Keyed, new_session_manager-Keyed}
use goxot.Gateway.{Gateway, TunFrame, end_reader, write_tun, with_sm, get_tun_lci}
use goxot.Gateway.Server.{
  replace_old, is_clear, to_kernel, go_on, deliver_tun, server_call, server_data, server_packet,
  handle_server_conn,
}
use goxot.Gateway.Kernel.{handle_tun_read}
use goxot.Gateway.Sound.{IsSound}
use goxot.Gateway.Sound.Traces.{
  Event, server_read, kernel_read, accepted, reader_ended, IsReadable, IsLong, new_gateway, replay,
  replay-IsSound,
}
use goxot.Gateway.Served.{Served, Remapped, handle_server_conn-Served}
use goxot.Gateway.Answer.{answer-Remapped}
use goxot.Gateway.Closed.{Mem, end_reader-none, handle_tun_read_disconnect}
use goxot.Gateway.Restart.{restart_serves}
use goxot.Gateway.Short.{handle_server_conn-none}

-- No server is configured, and no address is local.
abbrev resolve_none : List ℕ → ServerConfig → Option (List ℕ)
resolve_none addr srv = none

abbrev none_local : ℕ → Bool
none_local ip = false

abbrev call_bytes : List ℕ
call_bytes = 0x10 ∷ 0x05 ∷ 0x0B ∷ 0x02 ∷ 0x34 ∷ []

abbrev answer_bytes : List ℕ
answer_bytes = 0x10 ∷ 0x01 ∷ 0x0F ∷ []

abbrev history : List Event
history =
    kernel_read 0 (0x10 ∷ 0 ∷ 0xFB ∷ 0 ∷ 0 ∷ [])
    ∷ accepted
    ∷ server_read 1 (ok call_bytes)
    ∷ kernel_read 0 answer_bytes
    ∷ reader_ended 1
    ∷ []

one_conn : ◌≢◌ {A = ℕ} 1 0
one_conn e = ground (arith, e)

history-IsReadable : All IsReadable history
unfolding IsReadable IsLong
history-IsReadable = (tt, (tt, ((one_conn, omega arith), (tt, (tt, tt)))))

replay-IsSound_example :
    (g : Gateway) × (replay resolve_none none_local [] history (new_gateway 1 2) ≡ some g)
    × IsSound g
replay-IsSound_example = replay-IsSound resolve_none none_local [] 1 2 history history-IsReadable

abbrev up : Gateway
up = record (new_gateway 1 2) { link_state = operational }

up-Inv : Inv up.sm
unfolding new_gateway
up-Inv = new_session_manager-Inv 1 2

up-Keyed : Keyed up.sm
unfolding new_gateway
up-Keyed = new_session_manager-Keyed 1 2

up-IsSound : IsSound up
unfolding new_gateway
up-IsSound = record { keyed = new_session_manager-Keyed 1 2; next = one_conn }

call-IsByte : All IsByte call_bytes
call-IsByte = (omega arith, (omega arith, (omega arith, (omega arith, (omega arith, tt)))))

plain_call : is_clear (get_packet_type call_bytes) ≡ false
unfolding is_clear get_packet_type
plain_call = refl

handle_server_conn-Served_example :
    (r : Gateway × Bool) × (handle_server_conn up 1 (ok call_bytes) ≡ some r)
    × Served up 1 call_bytes r
handle_server_conn-Served_example =
    handle_server_conn-Served up 1 call_bytes up-Inv up-Keyed one_conn (omega arith) call-IsByte
      plain_call

abbrev caller : Session
caller = fresh_session up.sm 1 1 5 1

-- The gateway with one call.
abbrev busy : Gateway
busy = record up { sm = (allocate_and_add_tun_session up.sm 1 1 5).0 }

abbrev frame : TunFrame
frame = record { control = header_data; payload = 0x10 ∷ 0x01 ∷ 0x0B ∷ 0x02 ∷ 0x34 ∷ [] }

call_served :
    handle_server_conn up 1 (ok call_bytes)
    ≡ some (record busy { frames = frame ∷ up.frames }, true)
unfolding new_gateway handle_server_conn server_packet replace_old is_clear server_data server_call
    get_tun_lci deliver_tun to_kernel go_on write_tun with_sm get_packet_type get_lci get_gfi
    remap_lci allocate_and_add_tun_session get_by_b_conn_lci lcis_of lookup find_free scan in_use
    new_session_manager register fresh_session get_by_a_lci insert remove_by_b_conn_lci put_b id_of
call_served = refl

answer-IsByte : All IsByte answer_bytes
answer-IsByte = (omega arith, (omega arith, (omega arith, tt)))

on_lci : get_lci answer_bytes ≡ get_lci frame.payload
unfolding get_lci
on_lci = refl

not_call : get_packet_type answer_bytes ≢ call_request
unfolding get_packet_type
not_call e = ground (arith, e)

not_restart : get_packet_type answer_bytes ≢ restart_request
unfolding get_packet_type
not_restart e = ground (arith, e)

answer-Remapped_example :
    (g : Gateway) × (back : List ℕ) × (handle_tun_read resolve_none none_local []
        (record busy { frames = frame ∷ up.frames })
        header_data
        answer_bytes
      ≡ some g)
    × (g.messages ≡ record { conn = 1; packet = back } ∷ busy.messages)
    × Remapped (get_lci call_bytes) answer_bytes back
answer-Remapped_example =
    answer-Remapped resolve_none none_local [] up (record busy { frames = frame ∷ up.frames }) 1
      call_bytes frame.payload answer_bytes up-Inv up-IsSound one_conn (omega arith) call-IsByte
      plain_call call_served refl answer-IsByte on_lci not_call not_restart

busy-Inv : Inv busy.sm
busy-Inv = Step-Inv (Step.allocate up.sm 1 1 5 one_conn) up-Inv

end_reader-none_example : get_by_b_conn_lci (end_reader busy 1).sm 1 5 ≡ none
end_reader-none_example = end_reader-none busy 1 5 busy-Inv.indexed

caller_there : get_by_a_lci busy.sm 1 ≡ some caller
unfolding new_gateway allocate_and_add_tun_session get_by_b_conn_lci lcis_of lookup find_free scan
    in_use new_session_manager register fresh_session get_by_a_lci insert put_b id_of
caller_there = refl

handle_tun_read_disconnect_example :
    (g : Gateway) × (handle_tun_read resolve_none none_local [] busy header_disconnect [] ≡ some g)
    × (g.link_state ≡ down)
    × ((l : ℕ) → get_by_a_lci g.sm l ≡ none)
    × ((c l : ℕ) → get_by_b_conn_lci g.sm c l ≡ none)
    × All
        (λ s.
          (s.conn_b ≡ 0)
          ⊎ Mem
              (record {
                conn = s.conn_b;
                packet = serialize (create_clear_request s.gfi s.lci_b cause_network_congestion 0);
              })
              g.messages)
        (get_all_sessions busy.sm)
handle_tun_read_disconnect_example = handle_tun_read_disconnect resolve_none none_local [] busy

short_made :
    (allocate_and_add_tun_session up.sm 1 (get_gfi []) (get_lci [])).1
    ≡ ok (fresh_session up.sm 1 (get_gfi []) (get_lci []) 1)
unfolding new_gateway allocate_and_add_tun_session get_by_b_conn_lci lcis_of lookup find_free scan
    in_use new_session_manager register fresh_session get_by_a_lci insert put_b id_of get_lci
    get_gfi
short_made = refl

up_running : up.shutting_down ≡ false
unfolding new_gateway
up_running = refl

handle_server_conn-none_example : handle_server_conn up 1 (ok []) ≡ none
handle_server_conn-none_example =
    handle_server_conn-none up 1 [] (fresh_session up.sm 1 (get_gfi []) (get_lci []) 1) up-Inv
      up-Keyed refl up_running (omega arith) short_made

abbrev restart_bytes : List ℕ
restart_bytes = 0x10 ∷ 0 ∷ 0xFB ∷ 0 ∷ 0 ∷ []

restart_type : get_packet_type restart_bytes ≡ restart_request
unfolding get_packet_type
restart_type = refl

up_free : get_by_a_lci up.sm 1 ≡ none
unfolding new_gateway new_session_manager get_by_a_lci lookup
up_free = refl

up_low : up.sm.tun_lci_start ≤ 1
unfolding new_gateway new_session_manager
up_low = omega arith

up_high : 1 ≤ up.sm.tun_lci_end
unfolding new_gateway new_session_manager
up_high = omega arith

restart_serves_example :
    (g' g'' : Gateway) × (handle_tun_read resolve_none none_local [] up header_data restart_bytes
      ≡ some g')
    × (handle_server_conn g' 1 (ok call_bytes) ≡ some (g'', true))
    × ((lci : ℕ) × (out : List ℕ) × (g''.frames
          ≡ record { control = header_data; payload = out } ∷ g'.frames)
        × Remapped lci call_bytes out)
restart_serves_example =
    restart_serves resolve_none none_local [] up header_data 0x10 (0 ∷ 0xFB ∷ 0 ∷ 0 ∷ []) 1
      call_bytes 1 up-IsSound up-Inv up_running up_low up_high up_free restart_type one_conn
      (omega arith) call-IsByte plain_call
