-- ===== src/X25/Packet/Types.antt =====
-- src/x25.go: size limits.
use goxot.Base.{◌≤◌, ◌≡◌, ◌↔◌, none, arith, length}
use goxot.X25.Packet.{X25Packet, call_request, validate_size, serialize}

-- A packet passes exactly when its user data is within 4096 bytes and, in a call request, the
-- whole packet within 260.
pub validate_size_lem :
    (p : X25Packet)
    → (validate_size p ≡ none)
      ↔ ((length p.payload ≤ 4096) × ((p.type ≡ call_request) → length (serialize p) ≤ 260))
unfolding validate_size serialize
validate_size_lem p = (λ e. (ground arith, λ t. ground arith), λ h. ground (arith, h.1))
