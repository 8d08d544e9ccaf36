-- ===== src/Loopback/Calls.antt =====
-- src/cmd/tun-loopback/main.go, handleCallRequest: a new call keeps the session tables whole.
use goxot.Base.{
  Bool-cases, Option-cases, ◌∙◌, ℕ, subst, ◌≡◌, length, refl, sym, Bool, false, List, [], ◌∷◌,
  Option, none, some, ◌==◌, arith, inl, inr, ◌⊎◌, ◌≤◌, ◌<◌, Result, ok, err,
}
use goxot.Lci.{find_free, range_size}
use goxot.Lci.Scan.{find_free-some}
use goxot.Prefix.Longest.{longest_match_lem}
use goxot.X25.Packet.{cause_network_congestion, cause_local_procedure_error, Error, parse_x25}
use goxot.X25.CallSetup.{CallFields}
use goxot.Loopback.{
  place_key, same_place_iff, TunNode, LoopSession, Place, place_a, place_b, Relay, and_then, slot,
  put, add, take_out, is_bside_lci_used, is_reserved, send_clear, link_of, find_node,
  alloc_relay_lci, set_cursor, drop_found, drop_stale, readdress, deliver_call, new_session,
  count_session, call_allocated, place_call, route_call, call_fields, handle_call_request,
}
use goxot.Loopback.Tables.{Tables, Fits, put-Tables, add_at_a, slot-take_out, relay_slot_free}
use goxot.Loopback.Keep.{
  get-Inv, IsReady, IsReady-get, Inv, Kept, keep-Inv, and_then-Kept, some-Kept, step-Kept,
  has_node-Inv, in_range-Inv, remove-Inv, remove-Kept, live-IsDead, write_frame-Inv, send_clear-Inv,
  if-Kept, by_link-Kept, set_cursor-Inv,
}

-- The relay without the stale session of a place.
record Cleaned (start end count : ℕ) (p : Place) (r : Relay) : Type 0 where
  inv : Inv start end count r
  clear : slot r p ≡ none

module _ {start end count : ℕ} (small : end < 4096) where
  take_out_clears :
      {r : Relay}
      → Tables start end count r
      → (p : Place) (s : LoopSession) → slot r p ≡ some s
      → slot (take_out r s) p ≡ none
  take_out_clears {r} x p s e = elim (x.own_place p s e) [
    | inl w ↦ ground (arith, slot-take_out r s p, (same_place_iff (place_a s) p).1 (sym w))
    | inr w ↦ ground (arith, slot-take_out r s p, (same_place_iff (place_b s) p).1 (sym w))
  ]

  drop_found-Cleaned :
      (r : Relay) (p : Place) (o : Option LoopSession)
      → Inv start end count r
      → slot r p ≡ o
      → (r' : Relay) × (drop_found r o ≡ some r') × Cleaned start end count p r'
  unfolding drop_found
  drop_found-Cleaned r p none x e = (r, refl, record { inv = x; clear = e })
  drop_found-Cleaned r p (some s) x e =
      let (k, y) = remove-Inv r s (live-IsDead r p s x e) x in
      (take_out r s, k, record { inv = y; clear = take_out_clears x.tables p s e })

  drop_stale-Cleaned :
      (r : Relay) (p : Place)
      → Inv start end count r
      → p.node < count
      → p.lci < 4096
      → (r' : Relay) × (drop_stale r p ≡ some r') × Cleaned start end count p r'
  unfolding drop_stale and_then
  drop_stale-Cleaned r p x h k = rw (get-Inv r p x h k) (drop_found-Cleaned r p (slot r p) x refl)

  module _ (r : Relay) (s : LoopSession) (x : Inv start end count r)
      (fa : slot r (place_a s) ≡ none) (u : is_reserved r s.tun_b s.lci_b ≡ false)
      (lo : start ≤ s.lci_b) (hi : s.lci_b ≤ end) (out : (s.lci_a < start) ⊎ (end < s.lci_a))
      (pos : 1 ≤ s.lci_a) (f : Fits count s) where
    slot_b : slot r (place_b s) ≡ none
    slot_b = relay_slot_free x.tables s lo hi u

    put-Inv : Inv start end count (put r s)
    unfolding put
    put-Inv = record {
      counted = x.counted;
      tables = put-Tables x.tables s fa slot_b u lo hi out pos f;
      ready = x.ready;
    }

    put_live : slot (put r s) (place_a s) ≡ some s
    put_live = add_at_a x.tables s fa slot_b

    add-Inv : add r s ≡ some (put r s)
    unfolding add
    add-Inv =
        rw
          (
            in_range-Inv r (place_a s) x f.node_a f.small_a,
            in_range-Inv r (place_b s) x f.node_b f.small_b,
          )
          refl

    deliver_call-Kept :
        (p : Place) (gfi : ℕ) (payload : List ℕ) (wrote : Bool)
        → 2 ≤ length payload
        → Kept start end count (deliver_call (put r s) s p gfi payload wrote)
    unfolding deliver_call readdress
    deliver_call-Kept p gfi (a ∷ b ∷ rest) wrote h =
        if-Kept wrote _ _ (λ _. some-Kept _ (write_frame-Inv _ _ _ _ put-Inv))
          (λ _.
            step-Kept _ _
              (remove-Kept (put r s) s (live-IsDead (put r s) (place_a s) s put-Inv put_live)
                put-Inv)
              (λ r' x'. some-Kept _ (send_clear-Inv r' _ _ _ _ _ x')))
    deliver_call-Kept p gfi (a ∷ []) wrote h = absurd (omega arith)
    deliver_call-Kept p gfi [] wrote h = absurd (omega arith)

    added-Kept :
        (p : Place) (gfi : ℕ) (payload : List ℕ) (wrote : Bool)
        → 2 ≤ length payload
        → Kept start end count (and_then (add r s) (λ r'. deliver_call r' s p gfi payload wrote))
    unfolding and_then
    added-Kept p gfi payload wrote h = rw add-Inv (deliver_call-Kept p gfi payload wrote h)

  module _ (r : Relay) (dst : TunNode) (p : Place) (gfi : ℕ) (payload : List ℕ) (wrote : Bool)
      (x : Inv start end count r) (clear : slot r p ≡ none) (h : IsReady start end count dst)
      (len : 2 ≤ length payload) (out : (p.lci < start) ⊎ (end < p.lci)) (pos : 1 ≤ p.lci)
      (here : p.node < count) (low : p.lci < 4096) where
    -- What the allocator gives.
    abbrev IsGiven : Option ℕ → Type 0
    IsGiven o =
        (o ≡ none)
        ⊎ ((lci : ℕ) × (o ≡ some lci)
            × (find_free (is_reserved r dst.idx) dst.lci_start dst.lci_end dst.next_lci ≡ some lci))

    alloc_relay_lci-IsGiven : (o : Option ℕ) × (alloc_relay_lci r dst ≡ some o) × IsGiven o
    unfolding alloc_relay_lci is_bside_lci_used
    alloc_relay_lci-IsGiven = elim (Bool-cases (range_size dst.lci_start dst.lci_end == 0)) [
      | inl e ↦ (none, rw e refl, inl refl)
      | inr e ↦
          elim (Option-cases
            (find_free (is_reserved r dst.idx) dst.lci_start dst.lci_end dst.next_lci)) [
              | inl f ↦ (none, rw (e, has_node-Inv r dst.idx x h.placed, f) refl, inl refl)
              | inr (lci, f) ↦
                  (some lci, rw (e, has_node-Inv r dst.idx x h.placed, f) refl, inr (lci, refl, f))
            ]
    ]

    call_allocated-Kept :
        (o : Option ℕ)
        → IsGiven o
        → Kept start end count (call_allocated r dst p gfi payload wrote o)
    unfolding call_allocated new_session set_cursor count_session slot is_reserved
    call_allocated-Kept none g = some-Kept _ (send_clear-Inv r _ _ _ _ _ x)
    call_allocated-Kept (some lci) (inl e) = cc
    call_allocated-Kept (some lci) (inr (lci', e, free)) =
        let same : lci' ≡ lci = cc in
        let f =
          find_free-some (is_reserved r dst.idx) (rw (h.starts, h.ends) h.in_range) lci
            (free ∙ sym e) in
        let lo : start ≤ lci = omega (arith, f.0, h.starts) in
        let hi : lci ≤ end = omega (arith, f.1, h.ends) in
        let moved = set_cursor-Inv r dst lci h lo hi x in
        added-Kept _ _ (keep-Inv _ _ refl refl refl moved.ready moved) clear f.2 lo hi out pos
          (record {
            node_a = here;
            small_a = low;
            node_b = h.placed;
            small_b = omega (arith, hi, small);
          })
          p gfi payload wrote len

  find_node-IsReady :
      (r : Relay) (called : List ℕ) (dst : TunNode)
      → Inv start end count r
      → find_node r called ≡ some dst
      → IsReady start end count dst
  unfolding find_node
  find_node-IsReady r called dst x e =
      elim (longest_match_lem (λ n. some n.address) called r.nodes) [
        | inl h ↦ ground (arith, h.0, e)
        | inr (n, h, b) ↦
            let same : n ≡ dst = ground (arith, h, e) in
            subst (IsReady start end count) same
              (IsReady-get start end count r.nodes b.index n x.ready b.found)
      ]

  module _ (r : Relay) (p : Place) (gfi : ℕ) (payload : List ℕ) (wrote : Bool)
      (x : Inv start end count r) (len : 2 ≤ length payload) (out : (p.lci < start) ⊎ (end < p.lci))
      (pos : 1 ≤ p.lci) (here : p.node < count) (low : p.lci < 4096) where
    refuse-Kept : (cause : ℕ) → Kept start end count (some (send_clear r p.node gfi p.lci cause 0))
    refuse-Kept cause = some-Kept _ (send_clear-Inv r _ _ _ _ _ x)

    placed-Kept :
        (dst : TunNode)
        → IsReady start end count dst
        → Kept start end count (place_call r dst p gfi payload wrote)
    unfolding place_call
    placed-Kept dst h =
        and_then-Kept (Cleaned start end count p) _ _ (drop_stale-Cleaned r p x here low) (λ r' c.
          and_then-Kept (IsGiven r' dst p gfi payload wrote c.inv c.clear h len out pos here low) _
            _
            (alloc_relay_lci-IsGiven r' dst p gfi payload wrote c.inv c.clear h len out pos here
              low)
            (call_allocated-Kept r' dst p gfi payload wrote c.inv c.clear h len out pos here low))

    route_call-Kept :
        (o : Option TunNode)
        → ((dst : TunNode) → o ≡ some dst → IsReady start end count dst)
        → Kept start end count (route_call r o p gfi payload wrote)
    unfolding route_call
    route_call-Kept none h = refuse-Kept cause_network_congestion
    route_call-Kept (some dst) h =
        by_link-Kept (link_of r dst.idx) (refuse-Kept cause_network_congestion)
          (refuse-Kept cause_network_congestion) (placed-Kept dst (h dst refl))

    parsed-Kept :
        (f : Result Error CallFields)
        → Kept start end count (elim f as (λ f'. Option Relay) [
          | err e ↦ some (send_clear r p.node gfi p.lci cause_local_procedure_error 0)
          | ok g ↦ route_call r (find_node r g.called) p gfi payload wrote
        ])
    parsed-Kept (err e) = refuse-Kept cause_local_procedure_error
    parsed-Kept (ok f) =
        route_call-Kept (find_node r f.called) (λ dst e. find_node-IsReady r f.called dst x e)

    pub handle_call_request-Kept : Kept start end count (handle_call_request r p gfi payload wrote)
    unfolding handle_call_request
    handle_call_request-Kept = parsed-Kept (call_fields (parse_x25 payload))
