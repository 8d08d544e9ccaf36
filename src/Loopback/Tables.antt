-- ===== src/Loopback/Tables.antt =====
-- src/cmd/tun-loopback/main.go, sessionManager: both slots of a session point to it.
use goxot.Base.{
  subst, ℕ, ◌≡◌, ◌≢◌, refl, sym, ap, ◌∙◌, true, false, ◌&&◌, none, some, if◌then◌else◌, ◌==◌, arith,
  Bool-cases, Option-cases, inl, inr, ◌⊎◌, ◌≤◌, ◌<◌,
}
use goxot.Base.Maps.{insert, delete, lookup-insert, lookup-delete}
use goxot.Base.Maps.Order.{Distinct, insert-Distinct, delete-Distinct}
use goxot.Loopback.{
  Relay, LoopSession, Place, same_place, same_place_iff, place_key, place_a, place_b, slot, put,
  take_out, is_reserved,
}

-- The places of a session are in range, of `count` nodes.
pub record Fits (count : ℕ) (s : LoopSession) : Type 0 where
  pub node_a : s.tun_a < count
  pub small_a : s.lci_a < 4096
  pub node_b : s.tun_b < count
  pub small_b : s.lci_b < 4096

-- The LCIs from `start` to `end` are the relay's; the kernel's own calls use other LCIs.
pub record Tables (start end count : ℕ) (r : Relay) : Type 0 where
  pub distinct : Distinct r.slots
  pub own_place :
      (q : Place) (s : LoopSession) → slot r q ≡ some s → (q ≡ place_a s) ⊎ (q ≡ place_b s)
  pub at_a : (q : Place) (s : LoopSession) → slot r q ≡ some s → slot r (place_a s) ≡ some s
  pub at_b : (q : Place) (s : LoopSession) → slot r q ≡ some s → slot r (place_b s) ≡ some s
  pub used :
      (q : Place) (s : LoopSession) → slot r q ≡ some s → is_reserved r s.tun_b s.lci_b ≡ true
  pub relay_lci :
      (q : Place) (s : LoopSession) → slot r q ≡ some s → (start ≤ s.lci_b) × (s.lci_b ≤ end)
  pub kernel_lci :
      (q : Place) (s : LoopSession) → slot r q ≡ some s → (s.lci_a < start) ⊎ (end < s.lci_a)
  pub kernel_pos : (q : Place) (s : LoopSession) → slot r q ≡ some s → 1 ≤ s.lci_a
  pub fits : (q : Place) (s : LoopSession) → slot r q ≡ some s → Fits count s

pub slot-put :
    (r : Relay) (s : LoopSession) (q : Place)
    → slot (put r s) q ≡ (
        if same_place (place_b s) q
        then some s
        else if same_place (place_a s) q
        then some s
        else slot r q)
unfolding slot put
slot-put r s q = ground (
  arith,
  lookup-insert (place_b s) q s (insert (place_a s) s r.slots),
  lookup-insert (place_a s) q s r.slots,
)

pub slot-take_out :
    (r : Relay) (s : LoopSession) (q : Place)
    → slot (take_out r s) q ≡ (
        if same_place (place_b s) q
        then none
        else if same_place (place_a s) q
        then none
        else slot r q)
unfolding slot take_out
slot-take_out r s q = ground (
  arith,
  lookup-delete (place_b s) q (delete (place_a s) r.slots),
  lookup-delete (place_a s) q r.slots,
)

reserved-put :
    (r : Relay) (s : LoopSession) (node lci : ℕ)
    → is_reserved (put r s) node lci
      ≡ (if s.tun_b == node && s.lci_b == lci then true else is_reserved r node lci)
unfolding is_reserved put same_place
reserved-put r s node lci =
    ground (arith, lookup-insert (place_b s) (record { node = node; lci = lci }) true r.used_lci)

reserved-take_out :
    (r : Relay) (s : LoopSession) (node lci : ℕ)
    → is_reserved (take_out r s) node lci
      ≡ (if s.tun_b == node && s.lci_b == lci then false else is_reserved r node lci)
unfolding is_reserved take_out same_place
reserved-take_out r s node lci =
    ground (arith, lookup-delete (place_b s) (record { node = node; lci = lci }) r.used_lci)

-- No other session stands at the places of `s`.
pub record IsFree (r : Relay) (s : LoopSession) : Type 0 where
  pub free_a : (t : LoopSession) → slot r (place_a s) ≡ some t → t ≡ s
  pub free_b : (t : LoopSession) → slot r (place_b s) ≡ some t → t ≡ s

pub take_out-IsFree : (r : Relay) (s t : LoopSession) → IsFree r t → IsFree (take_out r s) t
take_out-IsFree r s t f = record {
  free_a = λ u e. ground (arith, slot-take_out r s (place_a t), f.free_a u);
  free_b = λ u e. ground (arith, slot-take_out r s (place_b t), f.free_b u);
}

module _ {start end count : ℕ} {r : Relay} (x : Tables start end count r) where
  pub live-IsFree : (q : Place) (s : LoopSession) → slot r q ≡ some s → IsFree r s
  live-IsFree q s e = record {
    free_a = λ t h. cc (x.at_a q s e);
    free_b = λ t h. cc (x.at_b q s e);
  }

  module _ (s : LoopSession) (f : IsFree r s) where
    remove_other :
        (q : Place) (t : LoopSession)
        → slot (take_out r s) q ≡ some t
        → (slot r q ≡ some t)
          × (same_place (place_a s) q ≡ false)
          × (same_place (place_b s) q ≡ false)
    remove_other q t e = ground (arith, slot-take_out r s q)

    slot_apart :
        (t : LoopSession)
        → t ≢ s
        → (p : Place) → slot r p ≡ some t
        → (same_place (place_a s) p ≡ false) × (same_place (place_b s) p ≡ false)
    slot_apart t ne p e = elim (Bool-cases (same_place (place_a s) p)) [
      | inl u ↦ absurd (ne (f.free_a t (ap (slot r) ((same_place_iff (place_a s) p).0 u) ∙ e)))
      | inr u ↦ elim (Bool-cases (same_place (place_b s) p)) [
        | inl v ↦ absurd (ne (f.free_b t (ap (slot r) ((same_place_iff (place_b s) p).0 v) ∙ e)))
        | inr v ↦ (u, v)
      ]
    ]

    kept_slot :
        (t : LoopSession) → t ≢ s → (p : Place) → slot r p ≡ some t → slot (take_out r s) p ≡ some t
    kept_slot t ne p e = ground (arith, slot-take_out r s p, slot_apart t ne p e)

    remove_differs : (q : Place) (t : LoopSession) → slot (take_out r s) q ≡ some t → t ≢ s
    remove_differs q t e h =
        let o = remove_other q t e in
        elim (x.own_place q t o.0) [
          | inl w ↦ ground (arith, o.1, (same_place_iff (place_a s) q).1 (sym (w ∙ ap place_a h)))
          | inr w ↦ ground (arith, o.2, (same_place_iff (place_b s) q).1 (sym (w ∙ ap place_b h)))
        ]

    kept_used :
        (t : LoopSession)
        → t ≢ s
        → slot r (place_b t) ≡ some t
        → is_reserved r t.tun_b t.lci_b ≡ true
        → is_reserved (take_out r s) t.tun_b t.lci_b ≡ true
    unfolding same_place
    kept_used t ne e u =
        ground (arith, reserved-take_out r s t.tun_b t.lci_b, slot_apart t ne (place_b t) e, u)

  pub take_out-Tables : (s : LoopSession) → IsFree r s → Tables start end count (take_out r s)
  unfolding take_out
  take_out-Tables s f = record {
    distinct = delete-Distinct (place_b s) _ (delete-Distinct (place_a s) _ x.distinct);
    own_place = λ q t e. x.own_place q t (remove_other s f q t e).0;
    at_a = λ q t e.
        kept_slot s f t (remove_differs s f q t e) (place_a t)
          (x.at_a q t (remove_other s f q t e).0);
    at_b = λ q t e.
        kept_slot s f t (remove_differs s f q t e) (place_b t)
          (x.at_b q t (remove_other s f q t e).0);
    used = λ q t e.
        kept_used s f t (remove_differs s f q t e) (x.at_b q t (remove_other s f q t e).0)
          (x.used q t (remove_other s f q t e).0);
    relay_lci = λ q t e. x.relay_lci q t (remove_other s f q t e).0;
    kernel_lci = λ q t e. x.kernel_lci q t (remove_other s f q t e).0;
    kernel_pos = λ q t e. x.kernel_pos q t (remove_other s f q t e).0;
    fits = λ q t e. x.fits q t (remove_other s f q t e).0;
  }

  -- A relay LCI that is not used is free, since a kernel LCI is not in the range.
  pub relay_slot_free :
      (s : LoopSession)
      → start ≤ s.lci_b
      → s.lci_b ≤ end
      → is_reserved r s.tun_b s.lci_b ≡ false
      → slot r (place_b s) ≡ none
  relay_slot_free s lo hi u = elim (Option-cases (slot r (place_b s))) [
    | inl e ↦ e
    | inr (t, e) ↦ elim (x.own_place (place_b s) t e) [
      | inl w ↦ ground (arith, x.kernel_lci (place_b s) t e, ap (λ p. p.lci) w)
      | inr w ↦ ground (arith, x.used (place_b s) t e, ap (λ p. p.lci) w, ap (λ p. p.node) w)
    ]
  ]

  module _ (s : LoopSession) (fa : slot r (place_a s) ≡ none) (fb : slot r (place_b s) ≡ none) where
    add_other :
        (q : Place) (t : LoopSession)
        → slot (put r s) q ≡ some t
        → (slot r q ≡ some t) ⊎ ((s ≡ t) × ((q ≡ place_a s) ⊎ (q ≡ place_b s)))
    add_other q t e = elim (Bool-cases (same_place (place_b s) q)) [
      | inl v ↦
          inr (ground (arith, slot-put r s q, e, v), inr (sym ((same_place_iff (place_b s) q).0 v)))
      | inr v ↦ elim (Bool-cases (same_place (place_a s) q)) [
        | inl u ↦ inr (
          ground (arith, slot-put r s q, e, u, v),
          inl (sym ((same_place_iff (place_a s) q).0 u)),
        )
        | inr u ↦ inl (ground (arith, slot-put r s q, e, u, v))
      ]
    ]

    add_kept : (q : Place) (t : LoopSession) → slot r q ≡ some t → slot (put r s) q ≡ some t
    add_kept q t e = elim (Bool-cases (same_place (place_b s) q)) [
      | inl v ↦ ground (arith, sym fb ∙ ap (slot r) ((same_place_iff (place_b s) q).0 v) ∙ e)
      | inr v ↦ elim (Bool-cases (same_place (place_a s) q)) [
        | inl u ↦ ground (arith, sym fa ∙ ap (slot r) ((same_place_iff (place_a s) q).0 u) ∙ e)
        | inr u ↦ ground (arith, slot-put r s q, e, u, v)
      ]
    ]

    pub add_at_a : slot (put r s) (place_a s) ≡ some s
    add_at_a =
        ground (arith, slot-put r s (place_a s), (same_place_iff (place_a s) (place_a s)).1 refl)

    pub add_at_b : slot (put r s) (place_b s) ≡ some s
    add_at_b =
        ground (arith, slot-put r s (place_b s), (same_place_iff (place_b s) (place_b s)).1 refl)

    pub put-Tables :
        is_reserved r s.tun_b s.lci_b ≡ false
        → start ≤ s.lci_b
        → s.lci_b ≤ end
        → (s.lci_a < start) ⊎ (end < s.lci_a)
        → 1 ≤ s.lci_a
        → Fits count s
        → Tables start end count (put r s)
    unfolding put
    put-Tables u lo hi out pos f = record {
      distinct = insert-Distinct (place_b s) s _ (insert-Distinct (place_a s) s _ x.distinct);
      own_place = λ q t e. elim (add_other q t e) [
        | inl h ↦ x.own_place q t h
        | inr (h, w) ↦ elim w [ inl v ↦ inl (v ∙ ap place_a h) | inr v ↦ inr (v ∙ ap place_b h) ]
      ];
      at_a = λ q t e. elim (add_other q t e) [
        | inl h ↦ add_kept (place_a t) t (x.at_a q t h)
        | inr (h, w) ↦ cc add_at_a
      ];
      at_b = λ q t e. elim (add_other q t e) [
        | inl h ↦ add_kept (place_b t) t (x.at_b q t h)
        | inr (h, w) ↦ cc add_at_b
      ];
      used = λ q t e. elim (add_other q t e) [
        | inl h ↦ ground (arith, reserved-put r s t.tun_b t.lci_b, x.used q t h)
        | inr (h, w) ↦
            ground
              (arith, reserved-put r s t.tun_b t.lci_b, ap (λ y. y.tun_b) h, ap (λ y. y.lci_b) h)
      ];
      relay_lci = λ q t e. elim (add_other q t e) [
        | inl h ↦ x.relay_lci q t h
        | inr (h, w) ↦ ground (arith, lo, hi, ap (λ y. y.lci_b) h)
      ];
      kernel_lci = λ q t e. elim (add_other q t e) [
        | inl h ↦ x.kernel_lci q t h
        | inr (h, w) ↦ ground (arith, out, ap (λ y. y.lci_a) h)
      ];
      kernel_pos = λ q t e. elim (add_other q t e) [
        | inl h ↦ x.kernel_pos q t h
        | inr (h, w) ↦ ground (arith, pos, ap (λ y. y.lci_a) h)
      ];
      fits = λ q t e. elim (add_other q t e) [
        | inl h ↦ x.fits q t h
        | inr (h, w) ↦ subst (Fits count) h f
      ];
    }
