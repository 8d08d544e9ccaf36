-- ===== src/Loopback/Clear.antt =====
-- src/cmd/tun-loopback/main.go: removing the sessions of a node, at a restart or a disconnect.
use goxot.Base.{
  ℕ, Bool, true, false, not, ◌&&◌, List, [], ◌∷◌, some, if◌then◌else◌, ◌==◌, All, Bool-cases, inl,
  inr, ◌<◌,
}
use goxot.Base.Maps.Order.{values-All}
use goxot.Loopback.{
  place_key, down, connecting, operational, LoopSession, Place, place_a, place_b, Relay, and_then,
  slot, take_out, involves, has_session, collect, remove_each, remove_all_for_node, write_frame,
  clear_end, clear_each, clear_all_for_node, link_of, set_link, handle_restart, handle_control,
  header_data, header_connect, header_disconnect,
}
use goxot.Loopback.Tables.{Fits, take_out-IsFree}
use goxot.Loopback.Keep.{
  IsDead, Inv, Kept, some-Kept, step-Kept, remove-Inv, live-IsDead, write_frame-Inv,
  write_peer-Kept, if-Kept, set_link-Inv, by_link-Kept,
}

All-collect :
    (P : LoopSession → Type 0) (node : ℕ) (all : List LoopSession)
    → All P all
    → All P (collect node all)
unfolding collect
All-collect P node [] a = tt
All-collect P node (s ∷ all) a =
    let rest = All-collect P node all a.1 in
    elim (Bool-cases (involves node s && not (has_session s (collect node all)))) [
      | inl e ↦ rw e (a.0, rest)
      | inr e ↦ rw e rest
    ]

take_out-All :
    (count : ℕ) (r : Relay) (s : LoopSession) (dead : List LoopSession)
    → All (IsDead count r) dead
    → All (IsDead count (take_out r s)) dead
take_out-All count r s [] a = tt
take_out-All count r s (t ∷ dead) a =
    ((take_out-IsFree r s t a.0.0, a.0.1), take_out-All count r s dead a.1)

other_end :
    {count : ℕ} (b : Bool) (s : LoopSession)
    → Fits count s
    → (if b then place_b s else place_a s).node < count
other_end true s f = f.node_b
other_end false s f = f.node_a

module _ {start end count : ℕ} where
  remove_each-Kept :
      (r : Relay) (dead : List LoopSession)
      → Inv start end count r
      → All (IsDead count r) dead
      → Kept start end count (remove_each r dead)
  unfolding remove_each and_then
  remove_each-Kept r [] x a = some-Kept r x
  remove_each-Kept r (s ∷ dead) x a =
      let (e, y) = remove-Inv r s a.0 x in
      rw e (remove_each-Kept (take_out r s) dead y (take_out-All count r s dead a.1))

  clear_end-Kept :
      (r : Relay) (p : Place) (gfi : ℕ)
      → p.node < count
      → Inv start end count r
      → Kept start end count (clear_end r p gfi)
  unfolding clear_end
  clear_end-Kept r p gfi h x = write_peer-Kept r p.node header_data _ h x

  clear_each-Kept :
      (node : ℕ) (dead : List LoopSession) (r : Relay)
      → All (Fits count) dead
      → Inv start end count r
      → Kept start end count (clear_each node r dead)
  unfolding clear_each
  clear_each-Kept node [] r a x = some-Kept r x
  clear_each-Kept node (s ∷ dead) r a x =
      step-Kept _ _ (clear_end-Kept r _ s.gfi (other_end (s.tun_a == node) s a.0) x)
        (λ r' x'. clear_each-Kept node dead r' a.1 x')

  pub clear_all_for_node-Kept :
      (r : Relay) (node : ℕ)
      → Inv start end count r
      → Kept start end count (clear_all_for_node r node)
  unfolding clear_all_for_node remove_all_for_node slot
  clear_all_for_node-Kept r node x =
      step-Kept _ _
        (remove_each-Kept r _ x (
          All-collect (IsDead count r) node _ (
            values-All (IsDead count r) r.slots x.tables.distinct
              (λ q s e. live-IsDead r q s x e))))
        (λ r' x'.
          clear_each-Kept node _ r'
            (All-collect (Fits count) node _
              (values-All (Fits count) r.slots x.tables.distinct x.tables.fits))
            x')

  pub handle_restart-Kept :
      (r : Relay) (node : ℕ) (payload : List ℕ)
      → Inv start end count r
      → Kept start end count (handle_restart r node payload)
  unfolding handle_restart
  handle_restart-Kept r node payload x =
      step-Kept _ _
        (by_link-Kept (link_of r node) (some-Kept r x) (some-Kept r x)
          (clear_all_for_node-Kept r node x))
        (λ r' x'. some-Kept _ (set_link-Inv _ node operational (write_frame-Inv r' node _ _ x')))

  pub handle_control-Kept :
      (r : Relay) (node hdr : ℕ)
      → Inv start end count r
      → Kept start end count (handle_control r node hdr)
  unfolding handle_control
  handle_control-Kept r node hdr x =
      if-Kept (hdr == header_connect)
        (elim (link_of r node) [
          | operational ↦ some r
          | connecting ↦ some (write_frame r node header_connect [])
          | down ↦ some (set_link (write_frame r node header_connect []) node connecting)
        ])
        (if hdr == header_disconnect
          then clear_all_for_node (set_link r node down) node
          else some r)
        (λ _.
          by_link-Kept (link_of r node)
            (some-Kept _
              (set_link-Inv _ node connecting (write_frame-Inv r node header_connect [] x)))
            (some-Kept _ (write_frame-Inv r node header_connect [] x)) (some-Kept r x))
        (λ _.
          if-Kept (hdr == header_disconnect) _ (some r)
            (λ _. clear_all_for_node-Kept _ node (set_link-Inv r node down x)) (λ _. some-Kept r x))
