-- ===== src/Gateway/Closed.antt =====
-- src/cmd/tun-gateway/main.go: what is left when a connection's reader ends, and when the link goes
-- down.
use goxot.Base.{
  ℕ, All, ◌≡◌, ◌≢◌, refl, sym, ◌∙◌, Bool, true, false, List, [], ◌∷◌, Option, none, some, ◌==◌,
  if◌then◌else◌, arith, Bool-cases, Option-cases, inl, inr, ◌⊎◌,
}
use goxot.Base.Maps.{Key, ℕ_key, Map, lookup, values}
use goxot.Link.{down, header_disconnect}
use goxot.Config.Servers.{ServerConfig}
use goxot.X25.Packet.{serialize, cause_network_congestion, cause_out_of_order}
use goxot.X25.Create.{create_clear_request}
use goxot.Session.{
  Session, get_all_sessions, id_key, same_session, get_by_a_lci, get_by_b_conn_lci, lcis_of,
  get_sessions_for_conn, remove_session, remove_all_sessions, same_session_iff,
}
use goxot.Session.Views.{unless-some}
use goxot.Session.Invariant.{Indexed, Removed-Indexed}
use goxot.Session.Operations.{remove_session-Removed}
use goxot.Gateway.{
  Gateway, Message, send, clear_tun, clear_conn, with_sm, write_tun, cleanup_one, cleanup_each,
  cleanup_conn, clear_each, close_all_sessions, end_reader,
}
use goxot.Gateway.Kernel.{set_link, disconnected, handle_control, handle_tun_read}

abbrev pub Mem : {A : Type 0} → A → List A → Type 0
Mem a [] = ⊥
Mem a (b ∷ rest) = (a ≡ b) ⊎ Mem a rest

lookup-Mem {ℓ} :
    {K : Type ℓ} {V : Type 0} ⦃key : Key K⦄ (k : K) (v : V) (m : Map K V)
    → lookup k m ≡ some v
    → Mem v (values m)
unfolding lookup values
lookup-Mem ⦃key⦄ k v [] e = cc
lookup-Mem ⦃key⦄ k v ((j, w) ∷ m) e = by_test (key.same j k) (lookup-Mem k v m) e
  where
    by_test :
        (b : Bool)
        → (lookup k m ≡ some v → Mem v (values m))
        → (if b then some w else lookup k m) ≡ some v
        → (v ≡ w) ⊎ Mem v (values m)
    by_test true listed h = inl (cc h)
    by_test false listed h = inr (listed h)

cleanup_one-sm : (g : Gateway) (s : Session) → (cleanup_one g s).sm ≡ remove_session g.sm s
unfolding cleanup_one with_sm clear_tun write_tun
cleanup_one-sm g s = either _
  where
    either :
        (b : Bool)
        → (let g' = if b then clear_tun g s.gfi s.lci_a cause_out_of_order 0 else g in
            remove_session g'.sm s)
          ≡ remove_session g.sm s
    either true = refl
    either false = refl

-- What stands under a connection behind the clean-up stood there before it, and was not in the list.
cleanup_each-kept :
    (g : Gateway) (sessions : List Session) (c l : ℕ) (t : Session)
    → Indexed g.sm
    → get_by_b_conn_lci (cleanup_each g sessions).sm c l ≡ some t
    → (get_by_b_conn_lci g.sm c l ≡ some t) × (Mem t sessions → ⊥)
unfolding cleanup_each
cleanup_each-kept g [] c l t x e = (e, λ m. m)
cleanup_each-kept g (s ∷ sessions) c l t x e =
    let r = remove_session-Removed g.sm s x in
    let x' = Removed-Indexed x r in
    let (e', out) =
      cleanup_each-kept (cleanup_one g s) sessions c l t (rw (cleanup_one-sm g s) x') e in
    let (before, other) =
      unless-some s t (get_by_b_conn_lci g.sm c l)
        (sym (r.at_b c l) ∙ (rw (cleanup_one-sm g s) at e')) in
    (before, λ m. not_front other out m)
  where
    not_front : same_session t s ≡ false → (Mem t sessions → ⊥) → Mem t (s ∷ sessions) → ⊥
    not_front other out (inl e) = cc (other, (same_session_iff t s).1 e)
    not_front other out (inr m) = out m

-- When the indexes agree, no session of a connection is left behind the end of its reader.
pub end_reader-none :
    (g : Gateway) (conn lci : ℕ)
    → Indexed g.sm
    → get_by_b_conn_lci (end_reader g conn).sm conn lci ≡ none
unfolding end_reader cleanup_conn
end_reader-none g conn lci x =
    elim (Option-cases (get_by_b_conn_lci (cleanup_conn g conn).sm conn lci)) [
      | inl e ↦ e
      | inr (t, e) ↦
          let (before, out) =
            cleanup_each-kept g (get_sessions_for_conn g.sm conn) conn lci t x e in
          absurd (out (listed t before))
    ]
  where
    listed :
        (t : Session)
        → get_by_b_conn_lci g.sm conn lci ≡ some t
        → Mem t (get_sessions_for_conn g.sm conn)
    listed t e = unfold get_by_b_conn_lci get_sessions_for_conn in lookup-Mem lci t _ e

clear_each-Mem :
    (g : Gateway) (sessions : List Session) (m : Message)
    → Mem m g.messages
    → Mem m (clear_each g sessions).messages
unfolding clear_each clear_conn
clear_each-Mem g [] m h = h
clear_each-Mem g (s ∷ sessions) m h =
    clear_each-Mem (clear_conn g s.conn_b s.gfi s.lci_b cause_network_congestion 0) sessions m
      (kept g s.conn_b _ h)
  where
    kept :
        (g : Gateway) (conn : ℕ) (packet : List ℕ)
        → Mem m g.messages
        → Mem m (send g conn packet).messages
    kept g conn packet h = elim (Bool-cases (conn == 0)) [
      | inl e ↦ rw (e, send) h
      | inr e ↦ rw (e, send) (inr h)
    ]

clear_message : Session → Message
clear_message s = record {
  conn = s.conn_b;
  packet = serialize (create_clear_request s.gfi s.lci_b cause_network_congestion 0);
}

clear_each-told :
    (g : Gateway) (sessions : List Session) (s : Session)
    → s.conn_b ≢ 0
    → Mem s sessions
    → Mem (clear_message s) (clear_each g sessions).messages
unfolding clear_each clear_conn clear_message send
clear_each-told g [] s ne m = elim m [ ]
clear_each-told g (t ∷ sessions) s ne (inl e) =
    let other : (t.conn_b == 0) ≡ false = ground (arith, ne, e) in
    clear_each-Mem (clear_conn g t.conn_b t.gfi t.lci_b cause_network_congestion 0) sessions
      (clear_message s) (rw (other, send) (inl (rw e refl)))
clear_each-told g (t ∷ sessions) s ne (inr m) =
    clear_each-told (clear_conn g t.conn_b t.gfi t.lci_b cause_network_congestion 0) sessions s ne m

pub clear_each-sm :
    (g : Gateway) (sessions : List Session)
    → ((clear_each g sessions).sm ≡ g.sm)
      × ((clear_each g sessions).link_state ≡ g.link_state)
      × ((clear_each g sessions).shutting_down ≡ g.shutting_down)
unfolding clear_each clear_conn
clear_each-sm g [] = (refl, refl, refl)
clear_each-sm g (s ∷ sessions) =
    let g' = clear_conn g s.conn_b s.gfi s.lci_b cause_network_congestion 0 in
    let (a, b, c) = clear_each-sm g' sessions in
    let (d, e, f) =
      same g s.conn_b (serialize (create_clear_request s.gfi s.lci_b cause_network_congestion 0)) in
    (a ∙ d, b ∙ e, c ∙ f)
  where
    same :
        (g : Gateway) (conn : ℕ) (packet : List ℕ)
        → ((send g conn packet).sm ≡ g.sm)
          × ((send g conn packet).link_state ≡ g.link_state)
          × ((send g conn packet).shutting_down ≡ g.shutting_down)
    same g conn packet = elim (Bool-cases (conn == 0)) [
      | inl e ↦ rw (e, send) (refl, refl, refl)
      | inr e ↦ rw (e, send) (refl, refl, refl)
    ]

clear_each-All :
    (g : Gateway) (all sessions : List Session)
    → ((s : Session) → Mem s sessions → Mem s all)
    → All
        (λ s.
          (s.conn_b ≡ 0)
          ⊎ Mem
              (record {
                conn = s.conn_b;
                packet = serialize (create_clear_request s.gfi s.lci_b cause_network_congestion 0);
              })
              (clear_each g all).messages)
        sessions
unfolding clear_message
clear_each-All g all [] within = tt
clear_each-All g all (s ∷ sessions) within = (
  elim (Bool-cases (s.conn_b == 0)) [
    | inl e ↦ inl (ground (arith, e))
    | inr e ↦ inr (clear_each-told g all s (ground (arith, e)) (within s (inl refl)))
  ],
  clear_each-All g all sessions (λ t m. within t (inr m)),
)

module _ {Ip : Type 0} (resolve : List ℕ → ServerConfig → Option (List Ip)) (is_local : Ip → Bool)
    (servers : List ServerConfig) where
  -- When the kernel reports a disconnect, which is a frame without a packet: the link is down, no
  -- session stands under any LCI or connection, and for each session that there was, its connection,
  -- unless nil, was sent a CLEAR of network congestion with the GFI of that session and the LCI
  -- that it has there.
  pub handle_tun_read_disconnect :
      (g : Gateway)
      → (g' : Gateway) × (handle_tun_read resolve is_local servers g header_disconnect [] ≡ some g')
        × (g'.link_state ≡ down)
        × ((l : ℕ) → get_by_a_lci g'.sm l ≡ none)
        × ((c l : ℕ) → get_by_b_conn_lci g'.sm c l ≡ none)
        × All
            (λ s.
              (s.conn_b ≡ 0)
              ⊎ Mem
                  (record {
                    conn = s.conn_b;
                    packet =
                        serialize (create_clear_request s.gfi s.lci_b cause_network_congestion 0);
                  })
                  g'.messages)
            (get_all_sessions g.sm)
  unfolding handle_tun_read handle_control disconnected close_all_sessions set_link with_sm
      remove_all_sessions get_by_a_lci get_by_b_conn_lci lcis_of lookup get_all_sessions
  handle_tun_read_disconnect g =
      let g0 = with_sm (set_link g down) (remove_all_sessions g.sm).0 in
      let (a, b, _) = clear_each-sm g0 (values g.sm.sessions) in
      (
        clear_each g0 (values g.sm.sessions),
        refl,
        b,
        λ l. rw a refl,
        λ c l. rw a refl,
        clear_each-All g0 (values g.sm.sessions) (values g.sm.sessions) (λ s m. m),
      )
