-- ===== src/Tests/Relays.antt =====
-- src/cmd/tun-loopback/main.go at concrete inputs: two interfaces and one call between them.
use goxot.Base.{ℕ, ◌≡◌, refl, true, List, [], ◌∷◌, some, none, arith, inl, codes, drop}
use goxot.Base.Maps.{lookup, insert}
use goxot.X25.Packet.{get_lci, get_gfi, get_packet_type}
use goxot.Loopback.{
  TunNode, LoopSession, Relay, get, slot, put, add, in_range, has_node, place_a, place_b,
  is_reserved, peer_of, forward_packet, handle_tun_read, place_key, same_place, operational,
  header_data,
}
use goxot.Loopback.Tables.{Tables, Fits, put-Tables}
use goxot.Loopback.Keep.{IsReady, Inv}
use goxot.Loopback.Steps.{IsKernelCall, handle_tun_read-Inv}
use goxot.Loopback.Forward.{peer_of_back, forward_packet_lem}

abbrev left : TunNode
left = record {
  address = codes "12";
  idx = 0;
  link_state = operational;
  next_lci = 1024;
  lci_start = 1024;
  lci_end = 2048;
}

abbrev right : TunNode
right = record {
  address = codes "34";
  idx = 1;
  link_state = operational;
  next_lci = 1024;
  lci_start = 1024;
  lci_end = 2048;
}

abbrev idle : Relay
idle = record { nodes = left ∷ right ∷ []; slots = []; used_lci = []; made = 0; sent = [] }

abbrev session : LoopSession
session = record { pointer = 0; gfi = 1; tun_a = 0; lci_a = 1; tun_b = 1; lci_b = 1024 }

abbrev busy : Relay
busy = put idle session

-- A call to 34 on LCI 1, and a data packet of it.
abbrev call_bytes : List ℕ
call_bytes = 0x10 ∷ 0x01 ∷ 0x0B ∷ 0x02 ∷ 0x34 ∷ []

abbrev data_bytes : List ℕ
data_bytes = 0x10 ∷ 0x01 ∷ 0x00 ∷ 0x41 ∷ []

idle-Tables : Tables 1024 2048 2 idle
unfolding slot is_reserved lookup
idle-Tables = record {
  distinct = tt;
  own_place = λ q s e. ground (arith, e);
  at_a = λ q s e. ground (arith, e);
  at_b = λ q s e. ground (arith, e);
  used = λ q s e. ground (arith, e);
  relay_lci = λ q s e. ground (arith, e);
  kernel_lci = λ q s e. ground (arith, e);
  kernel_pos = λ q s e. ground (arith, e);
  fits = λ q s e. cc;
}

left-IsReady : IsReady 1024 2048 2 left
left-IsReady = record {
  starts = refl;
  ends = refl;
  placed = omega arith;
  in_range = record {
    low = omega arith;
    high = omega arith;
    after_start = omega arith;
    before_end = omega arith;
  };
}

right-IsReady : IsReady 1024 2048 2 right
right-IsReady = record {
  starts = refl;
  ends = refl;
  placed = omega arith;
  in_range = left-IsReady.in_range;
}

idle-Inv : Inv 1024 2048 2 idle
idle-Inv = record {
  counted = refl;
  tables = idle-Tables;
  ready = (left-IsReady, (right-IsReady, tt));
}

call_outside : IsKernelCall 1024 2048 call_bytes
unfolding IsKernelCall get_lci
call_outside = λ e. (inl (omega arith), omega arith)

handle_tun_read-Inv_example :
    (r' : Relay) × (handle_tun_read idle 0 0 call_bytes true ≡ some r') × Inv 1024 2048 2 r'
handle_tun_read-Inv_example =
    handle_tun_read-Inv (omega arith) idle 0 0 call_bytes true (omega arith) (omega arith)
      (omega arith, (omega arith, (omega arith, (omega arith, (omega arith, tt))))) call_outside
      idle-Inv

session-Fits : Fits 2 session
session-Fits = record {
  node_a = omega arith;
  small_a = omega arith;
  node_b = omega arith;
  small_b = omega arith;
}

busy-Inv : Inv 1024 2048 2 busy
unfolding slot is_reserved lookup put
busy-Inv = record {
  counted = refl;
  tables =
      put-Tables idle-Tables session refl refl refl (omega arith) (omega arith) (inl (omega arith))
        (omega arith) session-Fits;
  ready = idle-Inv.ready;
}

-- A session is added, and one whose node does not exist is not.
added : add idle session ≡ some busy
unfolding add in_range has_node
added = refl

not_added : add idle (record session { tun_b = 2 }) ≡ none
unfolding add in_range has_node
not_added = refl

busy_left : get busy (record { node = 0; lci = 1 }) ≡ some (some session)
unfolding get slot put lookup insert same_place in_range has_node
busy_left = refl

peer_of_back_example :
    (get busy (peer_of session (record { node = 0; lci = 1 })) ≡ some (some session))
    × (peer_of session (peer_of session (record { node = 0; lci = 1 }))
        ≡ record { node = 0; lci = 1 })
peer_of_back_example = peer_of_back busy-Inv (record { node = 0; lci = 1 }) session busy_left

left_in_range : in_range busy (place_a session) ≡ true
unfolding in_range has_node put
left_in_range = refl

right_in_range : in_range busy (place_b session) ≡ true
unfolding in_range has_node put
right_in_range = refl

forward_packet_lem_example :
    (r' : Relay) × (bytes : List ℕ) × (forward_packet busy
        (record { node = 0; lci = 1 })
        data_bytes
        0
      ≡ some r')
    × (r'.sent
        ≡ record {
          node = (peer_of session (record { node = 0; lci = 1 })).node;
          header = header_data;
          bytes = bytes;
        }
          ∷ busy.sent)
    × (get_lci bytes ≡ (peer_of session (record { node = 0; lci = 1 })).lci)
    × (get_gfi bytes ≡ get_gfi data_bytes)
    × (get_packet_type bytes ≡ get_packet_type data_bytes)
    × (drop 2 bytes ≡ drop 2 data_bytes)
forward_packet_lem_example =
    forward_packet_lem busy session left_in_range right_in_range (record { node = 0; lci = 1 })
      data_bytes 0 busy_left (omega arith, (omega arith, (omega arith, (omega arith, tt))))
      (omega arith)
