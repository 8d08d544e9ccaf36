-- ===== src/Loopback.antt =====
-- src/cmd/tun-loopback/main.go: the relay between the TUN interfaces of one machine.
-- One step handles one frame that was read; the mutexes make each step atomic. `sent` holds the
-- frames that were written, newest first. A session never changes, so a Go pointer to one is the
-- session with its address. `slots` and `used_lci` are the tables by node and LCI, whose
-- bounds are tested where the program indexes them. A node that the program holds a pointer to is the
-- node of its index. Logging and the
-- counters of src/stats.go are left out.
pub mod Tables
pub mod Keep
pub mod Clear
pub mod Calls
pub mod Steps
pub mod Forward
use goxot.Base.{
  ℕ, suc, ◌+◌, ◌*◌, ◌/◌, ◌%◌, ◌^◌, bit_and, bit_or, Bool, true, false, not, ◌&&◌, ◌||◌, List, [],
  ◌∷◌, Option, none, some, Result, ok, err, ltb, ◌==◌, if◌then◌else◌, get_elem?, set, get_or, ◌≡◌,
  ◌↔◌, arith, length,
}
use goxot.Base.Bits.{shl8}
use goxot.Base.Maps.{Key, Map, lookup, insert, delete, values}
use goxot.Lci.{find_free, advance, range_size, candidate}
use goxot.Prefix.{longest_match}
pub use goxot.Link.{
  header_data, header_connect, header_disconnect, LinkState, down, connecting, operational,
}
use goxot.X25.Packet.{
  X25Packet, call_request, call_connected, clear_request, clear_confirm, restart_request,
  restart_confirm, cause_network_congestion, cause_local_procedure_error, get_gfi, get_lci,
  get_packet_type, parse_x25, serialize, remap_lci, lci_high, lci_low, Error,
}
use goxot.X25.CallSetup.{CallFields, parse_call_request}
use goxot.X25.Create.{negotiate_gfi, create_clear_request}

pub record TunNode : Type 0 where
  pub address : List ℕ
  pub idx : ℕ
  pub link_state : LinkState
  pub next_lci : ℕ
  pub lci_start : ℕ
  pub lci_end : ℕ

pub record LoopSession : Type 0 where
  pub pointer : ℕ
  pub gfi : ℕ
  pub tun_a : ℕ
  pub lci_a : ℕ
  pub tun_b : ℕ
  pub lci_b : ℕ

pub same_loop_session : LoopSession → LoopSession → Bool
same_loop_session s t =
    s.pointer == t.pointer
    && s.gfi == t.gfi
    && s.tun_a == t.tun_a
    && s.lci_a == t.lci_a
    && s.tun_b == t.tun_b
    && s.lci_b == t.lci_b

pub same_loop_session_iff : (s t : LoopSession) → (same_loop_session s t ≡ true) ↔ (s ≡ t)
unfolding same_loop_session
same_loop_session_iff s t = ground arith

-- A node and an LCI on it.
pub record Place : Type 0 where
  pub node : ℕ
  pub lci : ℕ

unfoldable pub same_place : Place → Place → Bool
same_place p q = p.node == q.node && p.lci == q.lci

pub same_place_iff : (p q : Place) → (same_place p q ≡ true) ↔ (p ≡ q)
unfolding same_place
same_place_iff p q = ground arith

instance abbrev pub place_key : Key Place
place_key = record { same = same_place; same_iff = same_place_iff }

pub record Frame : Type 0 where
  pub node : ℕ
  pub header : ℕ
  pub bytes : List ℕ

pub record Relay : Type 0 where
  pub nodes : List TunNode
  pub slots : Map Place LoopSession
  pub used_lci : Map Place Bool
  pub made : ℕ
  pub sent : List Frame

abbrev pub place_a : LoopSession → Place
place_a s = record { node = s.tun_a; lci = s.lci_a }

abbrev pub place_b : LoopSession → Place
place_b s = record { node = s.tun_b; lci = s.lci_b }

-- What a step does after another one that did not panic.
unfoldable pub and_then : {A : Type 0} → Option A → (A → Option Relay) → Option Relay
and_then none f = none
and_then (some a) f = f a

-- An index into r.nodes or sm.usedLCI, which have one entry for each node, and one into sm.slots,
-- which have LCIMax + 1 slots for each: out of range it panics.
unfoldable pub has_node : Relay → ℕ → Bool
has_node r node = ltb node (length r.nodes)

unfoldable pub in_range : Relay → Place → Bool
unfolding has_node
in_range r p = has_node r p.node && ltb p.lci 4096

-- What stands in a slot.
unfoldable pub slot : Relay → Place → Option LoopSession
slot r p = lookup p r.slots

-- sm.get
unfoldable pub get : Relay → Place → Option (Option LoopSession)
get r p = if in_range r p then some (slot r p) else none

unfoldable pub put : Relay → LoopSession → Relay
put r s = record r {
  slots = insert (place_b s) s (insert (place_a s) s r.slots);
  used_lci = insert (place_b s) true r.used_lci;
}

unfoldable pub add : Relay → LoopSession → Option Relay
add r s = if in_range r (place_a s) && in_range r (place_b s) then some (put r s) else none

unfoldable pub take_out : Relay → LoopSession → Relay
take_out r s = record r {
  slots = delete (place_b s) (delete (place_a s) r.slots);
  used_lci = delete (place_b s) r.used_lci;
}

unfoldable pub remove : Relay → LoopSession → Option Relay
remove r s = if in_range r (place_a s) && in_range r (place_b s) then some (take_out r s) else none

-- What the map of a node says of an LCI.
unfoldable pub is_reserved : Relay → ℕ → ℕ → Bool
is_reserved r node lci = elim (lookup (record { node = node; lci = lci }) r.used_lci) [
  | none ↦ false
  | some b ↦ b
]

unfoldable pub is_bside_lci_used : Relay → ℕ → ℕ → Option Bool
is_bside_lci_used r node lci = if has_node r node then some (is_reserved r node lci) else none

-- `seen`: the sessions of the slots that involve the node, each once.
unfoldable pub involves : ℕ → LoopSession → Bool
involves node s = s.tun_a == node || s.tun_b == node

unfoldable pub has_session : LoopSession → List LoopSession → Bool
has_session s [] = false
has_session s (t ∷ seen) = same_loop_session s t || has_session s seen

unfoldable pub collect : ℕ → List LoopSession → List LoopSession
unfolding has_session involves
collect node [] = []
collect node (s ∷ all) =
    let seen = collect node all in
    if involves node s && not (has_session s seen) then s ∷ seen else seen

unfoldable pub remove_each : Relay → List LoopSession → Option Relay
remove_each r [] = some r
remove_each r (s ∷ dead) = and_then (remove r s) (λ r'. remove_each r' dead)

unfoldable pub remove_all_for_node : Relay → ℕ → Option Relay × List LoopSession
remove_all_for_node r node = let dead = collect node (values r.slots) in (remove_each r dead, dead)

unfoldable pub write_frame : Relay → ℕ → ℕ → List ℕ → Relay
write_frame r node header bytes = record r {
  sent = record { node = node; header = header; bytes = bytes } ∷ r.sent;
}

-- r.nodes[node].writeFrame
unfoldable pub write_peer : Relay → ℕ → ℕ → List ℕ → Option Relay
write_peer r node header bytes =
    if has_node r node then some (write_frame r node header bytes) else none

unfoldable pub send_clear : Relay → ℕ → ℕ → ℕ → ℕ → ℕ → Relay
unfolding write_frame
send_clear r node gfi lci cause diag =
    write_frame r node header_data (serialize (create_clear_request gfi lci cause diag))

-- The CLEAR of a session at one of its ends, a node that is looked up by its index.
unfoldable pub clear_end : Relay → Place → ℕ → Option Relay
clear_end r p gfi =
    write_peer r p.node header_data
      (serialize (create_clear_request gfi p.lci cause_network_congestion 0))

unfoldable pub clear_each : ℕ → Relay → List LoopSession → Option Relay
clear_each node r [] = some r
clear_each node r (s ∷ dead) =
    and_then (clear_end r (if s.tun_a == node then place_b s else place_a s) s.gfi)
      (λ r'. clear_each node r' dead)

unfoldable pub clear_all_for_node : Relay → ℕ → Option Relay
unfolding clear_each remove_all_for_node
clear_all_for_node r node =
    let (o, dead) = remove_all_for_node r node in and_then o (λ r'. clear_each node r' dead)

unfoldable pub link_of : Relay → ℕ → LinkState
link_of r node = elim (get_elem? r.nodes node) [ none ↦ down | some n ↦ n.link_state ]

unfoldable pub set_node_link : List TunNode → ℕ → LinkState → List TunNode
set_node_link nodes node state = elim (get_elem? nodes node) [
  | none ↦ nodes
  | some n ↦ set nodes node (record n { link_state = state })
]

unfoldable pub set_link : Relay → ℕ → LinkState → Relay
unfolding set_node_link
set_link r node state = record r { nodes = set_node_link r.nodes node state }

-- Both branches of the compare and swap leave the link operational.
unfoldable pub handle_restart : Relay → ℕ → List ℕ → Option Relay
handle_restart r node payload =
    let cleared : Option Relay = elim (link_of r node) [
      | operational ↦ clear_all_for_node r node
      | _ ↦ some r
    ] in
    let conf = bit_and (get_or payload 0 0) 0xf0 ∷ 0x00 ∷ restart_confirm ∷ [] in
    and_then cleared (λ r'. some (set_link (write_frame r' node header_data conf) node operational))

unfoldable pub find_node : Relay → List ℕ → Option TunNode
find_node r called = longest_match (λ n. some n.address) called none 0 r.nodes

-- Where there is an LCI to test, the first test panics or none does.
unfoldable pub alloc_relay_lci : Relay → TunNode → Option (Option ℕ)
alloc_relay_lci r n =
    if range_size n.lci_start n.lci_end == 0
    then some none
    else elim (is_bside_lci_used r n.idx (candidate n.lci_start n.lci_end n.next_lci 0)) [
      | none ↦ none
      | some first ↦ some (find_free (is_reserved r n.idx) n.lci_start n.lci_end n.next_lci)
    ]

unfoldable pub set_cursor : Relay → TunNode → ℕ → Relay
set_cursor r n lci = record r {
  nodes = set r.nodes n.idx (record n { next_lci = advance n.lci_start n.lci_end lci });
}

unfoldable pub drop_found : Relay → Option LoopSession → Option Relay
drop_found r none = some r
drop_found r (some stale) = remove r stale

unfoldable pub drop_stale : Relay → Place → Option Relay
drop_stale r p = and_then (get r p) (drop_found r)

-- The packet as it goes to the destination: its GFI, the relay's LCI, and the rest as it was.
unfoldable pub readdress : List ℕ → ℕ → ℕ → Option (List ℕ)
readdress (a ∷ b ∷ rest) gfi lci = some (bit_or (shl8 gfi 4) (lci_high lci) ∷ lci_low lci ∷ rest)
readdress _ gfi lci = none

-- The new session is in place and the packet is written; `wrote` is whether the write succeeded.
unfoldable pub deliver_call : Relay → LoopSession → Place → ℕ → List ℕ → Bool → Option Relay
deliver_call r s p gfi payload wrote = elim (readdress payload gfi s.lci_b) [
  | none ↦ none
  | some packet ↦
      if wrote
      then some (write_frame r s.tun_b header_data packet)
      else and_then (remove r s)
          (λ r'. some (send_clear r' p.node gfi p.lci cause_network_congestion 0))
]

unfoldable pub new_session : Relay → TunNode → Place → ℕ → ℕ → LoopSession
new_session r dst p gfi lci = record {
  pointer = r.made;
  gfi = negotiate_gfi gfi;
  tun_a = p.node;
  lci_a = p.lci;
  tun_b = dst.idx;
  lci_b = lci;
}

unfoldable pub count_session : Relay → Relay
count_session r = record r { made = suc r.made }

unfoldable pub call_allocated :
    Relay → TunNode → Place → ℕ → List ℕ → Bool → Option ℕ → Option Relay
unfolding new_session set_cursor count_session
call_allocated r dst p gfi payload wrote none =
    some (send_clear r p.node gfi p.lci cause_network_congestion 0)
call_allocated r dst p gfi payload wrote (some lci) =
    let s = new_session r dst p gfi lci in
    and_then (add (count_session (set_cursor r dst lci)) s)
      (λ r'. deliver_call r' s p gfi payload wrote)

unfoldable pub place_call : Relay → TunNode → Place → ℕ → List ℕ → Bool → Option Relay
unfolding call_allocated
place_call r dst p gfi payload wrote = and_then (drop_stale r p) (λ cleaned.
    and_then (alloc_relay_lci cleaned dst) (call_allocated cleaned dst p gfi payload wrote))

unfoldable pub route_call : Relay → Option TunNode → Place → ℕ → List ℕ → Bool → Option Relay
route_call r none p gfi payload wrote =
    some (send_clear r p.node gfi p.lci cause_network_congestion 0)
route_call r (some dst) p gfi payload wrote = elim (link_of r dst.idx) [
  | operational ↦ place_call r dst p gfi payload wrote
  | _ ↦ some (send_clear r p.node gfi p.lci cause_network_congestion 0)
]

unfoldable pub call_fields : Result Error X25Packet → Result Error CallFields
call_fields (err e) = err e
call_fields (ok pkt) = parse_call_request pkt

unfoldable pub handle_call_request : Relay → Place → ℕ → List ℕ → Bool → Option Relay
unfolding call_fields route_call
handle_call_request r p gfi payload wrote = elim (call_fields (parse_x25 payload)) [
  | err e ↦ some (send_clear r p.node gfi p.lci cause_local_procedure_error 0)
  | ok f ↦ route_call r (find_node r f.called) p gfi payload wrote
]

-- Where a packet from `p` goes in the session `s`.
unfoldable pub peer_of : LoopSession → Place → Place
peer_of s p = if s.tun_a == p.node && s.lci_a == p.lci then place_b s else place_a s

unfoldable pub remove_same : Relay → LoopSession → Option LoopSession → Option Relay
remove_same r s none = some r
remove_same r s (some t) = if same_loop_session t s then remove r s else some r

unfoldable pub remove_confirmed : Relay → Place → LoopSession → Option Relay
remove_confirmed r p s = and_then (get r p) (remove_same r s)

-- An index out of range, of the packet or of the nodes, is `none`, whichever comes first.
unfoldable pub relay_packet : Relay → Place → LoopSession → List ℕ → ℕ → Option Relay
unfolding remove_confirmed
relay_packet r p s payload pkt_type = elim (remap_lci payload (peer_of s p).lci) [
  | none ↦ none
  | some packet ↦
      and_then (if pkt_type == clear_confirm then remove_confirmed r p s else some r)
        (λ r'. write_peer r' (peer_of s p).node header_data packet)
]

unfoldable pub forward_found : Relay → Place → List ℕ → ℕ → Option LoopSession → Option Relay
forward_found r p payload pkt_type none = some (
    if not (pkt_type == clear_request) && not (pkt_type == clear_confirm) && not (p.lci == 0)
    then send_clear r p.node (get_gfi payload) p.lci cause_network_congestion 0
    else r)
forward_found r p payload pkt_type (some s) = relay_packet r p s payload pkt_type

-- `none`: an index is out of range.
unfoldable pub forward_packet : Relay → Place → List ℕ → ℕ → Option Relay
unfolding forward_found
forward_packet r p payload pkt_type = and_then (get r p) (forward_found r p payload pkt_type)

unfoldable pub handle_control : Relay → ℕ → ℕ → Option Relay
handle_control r node hdr =
    if hdr == header_connect
    then elim (link_of r node) [
      | operational ↦ some r
      | connecting ↦ some (write_frame r node header_connect [])
      | down ↦ some (set_link (write_frame r node header_connect []) node connecting)
    ]
    else if hdr == header_disconnect
    then clear_all_for_node (set_link r node down) node
    else some r

unfoldable pub handle_packet : Relay → ℕ → List ℕ → Bool → Option Relay
handle_packet r node payload wrote =
    if get_packet_type payload == restart_request
    then handle_restart r node payload
    else elim (link_of r node) [
      | operational ↦
          let p : Place = record { node = node; lci = get_lci payload } in
          if get_packet_type payload == call_request
          then handle_call_request r p (get_gfi payload) payload wrote
          else forward_packet r p payload (get_packet_type payload)
      | _ ↦ some r
    ]

-- One round of the reader of a node: a frame with the control header `hdr`.
unfoldable pub handle_tun_read : Relay → ℕ → ℕ → List ℕ → Bool → Option Relay
unfolding handle_control handle_packet
handle_tun_read r node hdr [] wrote = handle_control r node hdr
handle_tun_read r node hdr (b ∷ payload) wrote = handle_packet r node (b ∷ payload) wrote
