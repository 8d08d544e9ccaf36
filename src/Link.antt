-- ===== src/Link.antt =====
-- The PI control headers of src/tun/tun.go, and the state of an interface's link that the two TUN
-- processes keep.
use goxot.Base.{ℕ}

abbrev pub header_data : ℕ
header_data = 0x00

abbrev pub header_connect : ℕ
header_connect = 0x01

abbrev pub header_disconnect : ℕ
header_disconnect = 0x02

pub data LinkState : Type 0 where
  down connecting operational : LinkState
