-- ===== src/Session/Keyed.antt =====
-- src/session.go: what the two indexes of the gateway keep in every history, also where AddSession
-- puts a session over another one's entry.
use goxot.Base.{
  ℕ, ◌≤◌, ◌≡◌, ◌≢◌, refl, Bool, true, false, some, ok, if◌then◌else◌, arith, Option-cases, inl, inr,
}
use goxot.Base.Maps.{ℕ_key, Map, lookup, delete, lookup-delete}
use goxot.Lci.{find_free}
use goxot.Lci.Scan.{IsRange, find_free-some, advance-IsRange}
use goxot.Session.{
  CallState, Session, SessionManager, get_by_a_lci, get_by_b_conn_lci, lcis_of, drop_b,
  remove_session, remove_by_b_conn_lci, remove_all_sessions, set_state, add_session, register,
  fresh_session, allocate_and_add_tun_session, new_session_manager, in_use,
}
use goxot.Session.Views.{lookup-drop_b}
use goxot.Session.Invariant.{Added}
use goxot.Session.Operations.{add_session-Added, register-Added}
use goxot.Session.Steps.{new_session_manager-Inv, add_session_range}

-- A TUN LCI, and a connection.
pub record IsEntry (s : Session) : Type 0 where
  pub low : 1 ≤ s.lci_a
  pub high : s.lci_a ≤ 4095
  pub conn : s.conn_b ≢ 0

pub record Keyed (sm : SessionManager) : Type 0 where
  pub range : IsRange sm.tun_lci_start sm.tun_lci_end sm.next_lci
  pub at_a : (l : ℕ) (s : Session) → get_by_a_lci sm l ≡ some s → (s.lci_a ≡ l) × IsEntry s
  pub at_b :
      (c l : ℕ) (s : Session)
      → get_by_b_conn_lci sm c l ≡ some s
      → (s.conn_b ≡ c) × (s.lci_b ≡ l) × IsEntry s

-- `sm'` holds nothing in its indexes that `sm` does not hold.
record Shrunk (sm sm' : SessionManager) : Type 0 where
  same_start : sm'.tun_lci_start ≡ sm.tun_lci_start
  same_end : sm'.tun_lci_end ≡ sm.tun_lci_end
  same_next : sm'.next_lci ≡ sm.next_lci
  kept_a : (l : ℕ) (s : Session) → get_by_a_lci sm' l ≡ some s → get_by_a_lci sm l ≡ some s
  kept_b :
      (c l : ℕ) (s : Session)
      → get_by_b_conn_lci sm' c l ≡ some s
      → get_by_b_conn_lci sm c l ≡ some s

Shrunk-Keyed : {sm sm' : SessionManager} → Shrunk sm sm' → Keyed sm → Keyed sm'
Shrunk-Keyed r v = record {
  range = rw (r.same_start, r.same_end, r.same_next) v.range;
  at_a = λ l s e. v.at_a l s (r.kept_a l s e);
  at_b = λ c l s e. v.at_b c l s (r.kept_b c l s e);
}

lookup-delete-some :
    (k j : ℕ) (m : Map ℕ Session) (s : Session)
    → lookup j (delete k m) ≡ some s
    → lookup j m ≡ some s
lookup-delete-some k j m s e = ground (arith, lookup-delete k j m)

lookup-drop_b-some :
    (conn lci c l : ℕ) (m : Map ℕ (Map ℕ Session)) (s : Session)
    → lookup l (lcis_of c (drop_b conn lci m)) ≡ some s
    → lookup l (lcis_of c m) ≡ some s
lookup-drop_b-some conn lci c l m s e = ground (arith, lookup-drop_b conn lci c l m)

lookup_if_delete-some :
    (b : Bool) (k j : ℕ) (m : Map ℕ Session) (s : Session)
    → lookup j (if b then delete k m else m) ≡ some s
    → lookup j m ≡ some s
lookup_if_delete-some true k j m s e = lookup-delete-some k j m s e
lookup_if_delete-some false k j m s e = e

lookup_if_drop_b-some :
    (b : Bool) (conn lci c l : ℕ) (m : Map ℕ (Map ℕ Session)) (s : Session)
    → lookup l (lcis_of c (if b then drop_b conn lci m else m)) ≡ some s
    → lookup l (lcis_of c m) ≡ some s
lookup_if_drop_b-some true conn lci c l m s e = lookup-drop_b-some conn lci c l m s e
lookup_if_drop_b-some false conn lci c l m s e = e

remove_session-Shrunk : (sm : SessionManager) (s : Session) → Shrunk sm (remove_session sm s)
unfolding remove_session get_by_a_lci get_by_b_conn_lci
remove_session-Shrunk sm s = record {
  same_start = refl;
  same_end = refl;
  same_next = refl;
  kept_a = λ l t e. lookup_if_delete-some _ s.lci_a l sm.by_a_lci t e;
  kept_b = λ c l t e. lookup_if_drop_b-some _ s.conn_b s.lci_b c l sm.by_b_conn_lci t e;
}

pub remove_session-Keyed :
    (sm : SessionManager) (s : Session) → Keyed sm → Keyed (remove_session sm s)
remove_session-Keyed sm s = Shrunk-Keyed (remove_session-Shrunk sm s)

pub remove_by_b_conn_lci-Keyed :
    (sm : SessionManager) (conn lci : ℕ) → Keyed sm → Keyed (remove_by_b_conn_lci sm conn lci)
unfolding remove_by_b_conn_lci get_by_a_lci get_by_b_conn_lci
remove_by_b_conn_lci-Keyed sm conn lci v = elim (Option-cases (get_by_b_conn_lci sm conn lci)) [
  | inl e ↦ rw (e, remove_by_b_conn_lci) v
  | inr (s, e) ↦
      rw (e, remove_by_b_conn_lci)
        (Shrunk-Keyed {sm = sm}
          (record {
            same_start = refl;
            same_end = refl;
            same_next = refl;
            kept_a = λ l t h. lookup-delete-some s.lci_a l sm.by_a_lci t h;
            kept_b = λ c l t h. lookup-drop_b-some conn lci c l sm.by_b_conn_lci t h;
          })
          v)
]

pub remove_all_sessions-Keyed : (sm : SessionManager) → Keyed sm → Keyed (remove_all_sessions sm).0
unfolding remove_all_sessions get_by_a_lci get_by_b_conn_lci lcis_of lookup
remove_all_sessions-Keyed sm v = record {
  range = v.range;
  at_a = λ l s e. cc;
  at_b = λ c l s e. cc;
}

pub set_state-Keyed :
    (sm : SessionManager) (s : Session) (state : CallState)
    → Keyed sm
    → Keyed (set_state sm s state)
unfolding set_state get_by_a_lci get_by_b_conn_lci
set_state-Keyed sm s state v = record { range = v.range; at_a = v.at_a; at_b = v.at_b }

Added-Keyed :
    {s : Session} {sm sm' : SessionManager}
    → Added s sm sm'
    → IsEntry s
    → IsRange sm'.tun_lci_start sm'.tun_lci_end sm'.next_lci
    → Keyed sm
    → Keyed sm'
Added-Keyed {s} r e range v = record {
  range = range;
  at_a = λ l t h. ground (arith, r.at_a l, v.at_a l t, e);
  at_b = λ c l t h. ground (arith, r.at_b c l, v.at_b c l t, e);
}

pub add_session-Keyed :
    (sm sm' : SessionManager) (s : Session)
    → s.conn_b ≢ 0
    → add_session sm s ≡ ok sm'
    → Keyed sm
    → Keyed sm'
add_session-Keyed sm sm' s ne e v =
    let (valid, added) = add_session-Added sm sm' s ne e in
    let (a, b, c) = add_session_range sm sm' s e in
    Added-Keyed added (record { low = valid.lci_a.0; high = valid.lci_a.1; conn = ne })
      (rw (a, b, c) v.range) v

pub allocate-Keyed :
    (sm : SessionManager) (conn gfi lci : ℕ)
    → conn ≢ 0
    → Keyed sm
    → Keyed (allocate_and_add_tun_session sm conn gfi lci).0
unfolding allocate_and_add_tun_session
allocate-Keyed sm conn gfi lci ne v = elim (Option-cases (get_by_b_conn_lci sm conn lci)) [
  | inr (s, e) ↦ rw (e, allocate_and_add_tun_session) v
  | inl e ↦
      elim (Option-cases (find_free (in_use sm) sm.tun_lci_start sm.tun_lci_end sm.next_lci)) [
        | inl n ↦ rw (e, n, allocate_and_add_tun_session) v
        | inr (l, f) ↦ rw (e, f, allocate_and_add_tun_session) (fresh l f)
      ]
]
  where
    fresh :
        (l : ℕ)
        → find_free (in_use sm) sm.tun_lci_start sm.tun_lci_end sm.next_lci ≡ some l
        → Keyed (register sm (fresh_session sm conn gfi lci l))
    fresh l f =
        let (p, q, _, _) = find_free-some (in_use sm) v.range l f in
        let bounds : (1 ≤ l) × (l ≤ 4095) =
          (omega (arith, v.range.low), omega (arith, v.range.high)) in
        unfold fresh_session register in
        Added-Keyed (register-Added sm (fresh_session sm conn gfi lci l))
          (record { low = bounds.0; high = bounds.1; conn = ne }) (advance-IsRange v.range l p q) v

pub new_session_manager-Keyed :
    (lci_start lci_end : ℕ) → Keyed (new_session_manager lci_start lci_end)
unfolding new_session_manager get_by_a_lci get_by_b_conn_lci lcis_of lookup
new_session_manager-Keyed lci_start lci_end = record {
  range = (new_session_manager-Inv lci_start lci_end).range;
  at_a = λ l s e. cc;
  at_b = λ c l s e. cc;
}
