-- ===== src/Config/Tun.antt =====
-- src/config.go, Reload: the defaults and the bounds of the LCI range and of the modulus, which are
-- the same for tun-gateway and tun-loopback.
pub mod Bounds
use goxot.Base.{ℕ, Bool, true, false, not, ◌&&◌, if◌then◌else◌}
use goxot.X25.Packet.{lci_min, lci_max}
use goxot.Config.Ints.{ℤ, pos, lt_int, eq_int}

pub record TunConfig : Type 0 where
  pub lci_start : ℤ
  pub lci_end : ℤ
  pub modulo : ℤ

abbrev pub lci_start_default : ℤ
lci_start_default = pos 1024

abbrev pub lci_end_default : ℤ
lci_end_default = pos 2048

unfoldable pub start_of : ℤ → ℤ
start_of n =
    let n' = if eq_int n (pos 0) then lci_start_default else n in
    if lt_int n' (pos lci_min) then pos lci_min else n'

unfoldable pub end_of : ℤ → ℤ
end_of n =
    let n' = if eq_int n (pos 0) then lci_end_default else n in
    if lt_int (pos lci_max) n' then pos lci_max else n'

unfoldable pub modulo_of : ℤ → ℤ
modulo_of m =
    if eq_int m (pos 0)
    then pos 8
    else if not (eq_int m (pos 8)) && not (eq_int m (pos 128))
    then pos 8
    else m

unfoldable pub with_defaults : TunConfig → TunConfig
with_defaults c =
    let start = start_of c.lci_start in
    let end = end_of c.lci_end in
    if not (lt_int start end)
    then record {
      lci_start = lci_start_default;
      lci_end = lci_end_default;
      modulo = modulo_of c.modulo;
    }
    else record { lci_start = start; lci_end = end; modulo = modulo_of c.modulo }
