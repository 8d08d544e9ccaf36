-- ===== src/Session/Steps.antt =====
-- src/session.go: the outcomes of an allocation, and every history of the manager's operations.
use goxot.Base.{
  ℕ, ◌≤◌, ◌≡◌, ◌≢◌, refl, true, false, none, some, arith, Option-cases, inl, inr, ◌↔◌, Result, ok,
  err,
}
use goxot.Base.Maps.{ℕ_key, lookup}
use goxot.Lci.{find_free, advance}
use goxot.Lci.Scan.{IsRange, find_free-some, find_free-none, find_free_last, advance-IsRange}
use goxot.Session.{
  Session, SessionManager, SessionError, CallState, id_key, get_by_a_lci, get_by_b_conn_lci,
  remove_session, remove_by_b_conn_lci, add_session, register, fresh_session,
  allocate_and_add_tun_session, remove_all_sessions, set_state, new_session_manager, in_use,
  lci_exhaustion, lcis_of,
}
use goxot.Session.Invariant.{Indexed, Added, Added-Indexed, Removed-Indexed}
use goxot.Session.Operations.{
  remove_session-Removed, remove_by_b_conn_lci-Removed, add_session-Added, register-Added,
}

pub record Inv (sm : SessionManager) : Type 0 where
  pub indexed : Indexed sm
  pub range : IsRange sm.tun_lci_start sm.tun_lci_end sm.next_lci

in_use-none : (sm : SessionManager) (l : ℕ) → in_use sm l ≡ false → get_by_a_lci sm l ≡ none
unfolding in_use get_by_a_lci
in_use-none sm l e = elim (Option-cases (lookup l sm.by_a_lci)) [
  | inl n ↦ n
  | inr (s, h) ↦ cc (rw (h, in_use) at e)
]

in_use-some :
    (sm : SessionManager) (l : ℕ)
    → in_use sm l ≡ true
    → (s : Session) × (get_by_a_lci sm l ≡ some s)
unfolding in_use get_by_a_lci
in_use-some sm l e = elim (Option-cases (lookup l sm.by_a_lci)) [
  | inl n ↦ cc (rw (n, in_use) at e)
  | inr (s, h) ↦ (s, h)
]

-- What an allocation for the LCI `lci` of connection `conn` may return.
pub data Allocated (sm : SessionManager) (conn lci : ℕ)
    : SessionManager × Result SessionError Session → Type 0 where
  existing :
      (s : Session) → get_by_b_conn_lci sm conn lci ≡ some s → Allocated sm conn lci (sm, ok s)
  made :
      (s : Session) (sm' : SessionManager)
      → get_by_b_conn_lci sm conn lci ≡ none
      → get_by_a_lci sm s.lci_a ≡ none
      → (sm.tun_lci_start ≤ s.lci_a) × (s.lci_a ≤ sm.tun_lci_end)
      → (s.conn_b ≡ conn) × (s.lci_b ≡ lci)
      → Added s sm sm'
      → IsRange sm'.tun_lci_start sm'.tun_lci_end sm'.next_lci
      → Allocated sm conn lci (sm', ok s)
  exhausted :
      get_by_b_conn_lci sm conn lci ≡ none
      → ((m : ℕ)
          → sm.tun_lci_start ≤ m
          → m ≤ sm.tun_lci_end
          → (s : Session) × (get_by_a_lci sm m ≡ some s))
      → Allocated sm conn lci (sm, err (lci_exhaustion sm.tun_lci_start sm.tun_lci_end))

-- In a manager whose indexes agree and whose cursor is in its range, an allocation returns the session that the connection and LCI already have; else a new session
-- on a free LCI of the range, which is put under its keys; else, with no change, an error, and
-- then every LCI of the range has a session.
pub allocate_and_add_tun_session-Allocated :
    (sm : SessionManager) (conn gfi lci : ℕ)
    → Inv sm
    → Allocated sm conn lci (allocate_and_add_tun_session sm conn gfi lci)
unfolding allocate_and_add_tun_session
allocate_and_add_tun_session-Allocated sm conn gfi lci v =
    elim (Option-cases (get_by_b_conn_lci sm conn lci)) [
      | inr (s, e) ↦ rw (e, allocate_and_add_tun_session) (existing s e)
      | inl e ↦
          elim (Option-cases (find_free (in_use sm) sm.tun_lci_start sm.tun_lci_end sm.next_lci)) [
            | inl n ↦
                rw (e, n, allocate_and_add_tun_session)
                  (exhausted e
                    (λ m p q. in_use-some sm m (find_free-none (in_use sm) v.range n m p q)))
            | inr (l, f) ↦ rw (e, f, allocate_and_add_tun_session) (fresh l e f)
          ]
    ]
  where
    fresh :
        (l : ℕ)
        → get_by_b_conn_lci sm conn lci ≡ none
        → find_free (in_use sm) sm.tun_lci_start sm.tun_lci_end sm.next_lci ≡ some l
        → Allocated sm conn lci
            (register sm (fresh_session sm conn gfi lci l), ok (fresh_session sm conn gfi lci l))
    fresh l e f =
        let (p, q, free, _) = find_free-some (in_use sm) v.range l f in
        unfold fresh_session register in
        made _ _ e (in_use-none sm l free) (p, q) (refl, refl)
          (register-Added sm (fresh_session sm conn gfi lci l)) (advance-IsRange v.range l p q)

pub data Step : SessionManager → SessionManager → Type 0 where
  allocate :
      (sm : SessionManager) (conn gfi lci : ℕ)
      → conn ≢ 0
      → Step sm (allocate_and_add_tun_session sm conn gfi lci).0
  add :
      (sm sm' : SessionManager) (s : Session)
      → s.conn_b ≢ 0
      → get_by_a_lci sm s.lci_a ≡ none
      → get_by_b_conn_lci sm s.conn_b s.lci_b ≡ none
      → add_session sm s ≡ ok sm'
      → Step sm sm'
  remove : (sm : SessionManager) (s : Session) → Step sm (remove_session sm s)
  remove_b : (sm : SessionManager) (conn lci : ℕ) → Step sm (remove_by_b_conn_lci sm conn lci)
  remove_all : (sm : SessionManager) → Step sm (remove_all_sessions sm).0
  change_state :
      (sm : SessionManager) (s : Session) (state : CallState) → Step sm (set_state sm s state)

pub data Reach (sm : SessionManager) : SessionManager → Type 0 where
  here : Reach sm sm
  next : {t u : SessionManager} → Reach sm t → Step t u → Reach sm u

-- A manager is made with a range of usable LCIs, whatever numbers it is given.
pub new_session_manager-Inv : (lci_start lci_end : ℕ) → Inv (new_session_manager lci_start lci_end)
unfolding new_session_manager get_by_a_lci get_by_b_conn_lci lcis_of lookup
new_session_manager-Inv lci_start lci_end = record {
  indexed = record {
    a_key = λ l s e. cc;
    b_key = λ c l s e. cc;
    id_key = λ k s e. cc;
    a_to_b = λ l s e. cc;
    b_to_a = λ c l s e. cc;
    a_to_id = λ l s e. cc;
    id_to_a = λ k s e. cc;
    has_conn = λ l s e. cc;
  };
  range = record {
    low = ground arith;
    high = ground arith;
    after_start = ground arith;
    before_end = ground arith;
  };
}

allocate-Inv :
    (sm : SessionManager) (conn gfi lci : ℕ)
    → conn ≢ 0
    → Inv sm
    → Inv (allocate_and_add_tun_session sm conn gfi lci).0
allocate-Inv sm conn gfi lci ne v =
    by_outcome _ (allocate_and_add_tun_session-Allocated sm conn gfi lci v)
  where
    by_outcome :
        (o : SessionManager × Result SessionError Session) → Allocated sm conn lci o → Inv o.0
    by_outcome _ (existing s e) = v
    by_outcome _ (made s sm' e a r k added range) = record {
      indexed = Added-Indexed v.indexed added a (rw (k.0, k.1) e) (rw k.0 ne);
      range = range;
    }
    by_outcome _ (exhausted e all) = v

remove_session-Inv : (sm : SessionManager) (s : Session) → Inv sm → Inv (remove_session sm s)
unfolding remove_session
remove_session-Inv sm s v = record {
  indexed = Removed-Indexed v.indexed (remove_session-Removed sm s v.indexed);
  range = v.range;
}

pub remove_by_b_conn_lci-Inv :
    (sm : SessionManager) (conn lci : ℕ) → Inv sm → Inv (remove_by_b_conn_lci sm conn lci)
unfolding remove_by_b_conn_lci
remove_by_b_conn_lci-Inv sm conn lci v = elim (Option-cases (get_by_b_conn_lci sm conn lci)) [
  | inl e ↦ rw (e, remove_by_b_conn_lci) v
  | inr (s, e) ↦ record {
    indexed = Removed-Indexed v.indexed (remove_by_b_conn_lci-Removed sm conn lci s v.indexed e);
    range = rw (e, remove_by_b_conn_lci) v.range;
  }
]

pub remove_all_sessions-Inv : (sm : SessionManager) → Inv sm → Inv (remove_all_sessions sm).0
unfolding remove_all_sessions get_by_a_lci get_by_b_conn_lci lcis_of lookup
remove_all_sessions-Inv sm v = record {
  indexed = record {
    a_key = λ l s e. cc;
    b_key = λ c l s e. cc;
    id_key = λ k s e. cc;
    a_to_b = λ l s e. cc;
    b_to_a = λ c l s e. cc;
    a_to_id = λ l s e. cc;
    id_to_a = λ k s e. cc;
    has_conn = λ l s e. cc;
  };
  range = v.range;
}

set_state-Inv :
    (sm : SessionManager) (s : Session) (state : CallState) → Inv sm → Inv (set_state sm s state)
unfolding set_state get_by_a_lci get_by_b_conn_lci
set_state-Inv sm s state v = record {
  indexed = record {
    a_key = v.indexed.a_key;
    b_key = v.indexed.b_key;
    id_key = v.indexed.id_key;
    a_to_b = v.indexed.a_to_b;
    b_to_a = v.indexed.b_to_a;
    a_to_id = v.indexed.a_to_id;
    id_to_a = v.indexed.id_to_a;
    has_conn = v.indexed.has_conn;
  };
  range = v.range;
}

pub add_session_range :
    (sm sm' : SessionManager) (s : Session)
    → add_session sm s ≡ ok sm'
    → (sm'.tun_lci_start ≡ sm.tun_lci_start)
      × (sm'.tun_lci_end ≡ sm.tun_lci_end)
      × (sm'.next_lci ≡ sm.next_lci)
unfolding add_session
add_session_range sm sm' s e = (ground arith, ground arith, ground arith)

add_session-IsRange :
    (sm sm' : SessionManager) (s : Session)
    → add_session sm s ≡ ok sm'
    → Inv sm
    → IsRange sm'.tun_lci_start sm'.tun_lci_end sm'.next_lci
add_session-IsRange sm sm' s e v =
    let (a, b, c) = add_session_range sm sm' s e in rw (a, b, c) v.range

-- Every operation of the manager keeps the three indexes in agreement and the cursor in its range. For
-- an allocation the connection is not nil; for AddSession, also, nothing stands under the keys.
pub Step-Inv : {sm sm' : SessionManager} → Step sm sm' → Inv sm → Inv sm'
Step-Inv (allocate sm conn gfi lci ne) v = allocate-Inv sm conn gfi lci ne v
Step-Inv (add sm sm' s ne a b e) v = record {
  indexed = Added-Indexed v.indexed (add_session-Added sm sm' s ne e).1 a b ne;
  range = add_session-IsRange sm sm' s e v;
}
Step-Inv (remove sm s) v = remove_session-Inv sm s v
Step-Inv (remove_b sm conn lci) v = remove_by_b_conn_lci-Inv sm conn lci v
Step-Inv (remove_all sm) v = remove_all_sessions-Inv sm v
Step-Inv (change_state sm s state) v = set_state-Inv sm s state v

Reach-Inv : {sm t : SessionManager} → Inv sm → Reach sm t → Inv t
Reach-Inv v here = v
Reach-Inv v (next r st) = Step-Inv st (Reach-Inv v r)

-- Whatever range the manager is made with, after any history of its operations (AddSession only on
-- free keys, and no nil connection), a session stands under a TUN LCI exactly when that is its LCI
-- and it stands under its connection and LCI, and under a connection and an LCI exactly when those
-- are its own and it stands under its TUN LCI.
pub indexes_agree :
    (lci_start lci_end : ℕ) {sm : SessionManager}
    → Reach (new_session_manager lci_start lci_end) sm
    → (a c b : ℕ) (s : Session)
    → (get_by_a_lci sm a ≡ some s
        ↔ (s.lci_a ≡ a) × (get_by_b_conn_lci sm s.conn_b s.lci_b ≡ some s))
      × (get_by_b_conn_lci sm c b ≡ some s
          ↔ (s.conn_b ≡ c) × (s.lci_b ≡ b) × (get_by_a_lci sm s.lci_a ≡ some s))
indexes_agree lci_start lci_end {sm} r a c b s =
    let x = (Reach-Inv (new_session_manager-Inv lci_start lci_end) r).indexed in
    (
      (λ e. (x.a_key a s e, x.a_to_b a s e), λ h. rw (← h.0) (x.b_to_a s.conn_b s.lci_b s h.1)),
      (
        λ e. let k = x.b_key c b s e in (k.0, k.1, x.b_to_a c b s e),
        λ h. rw (← h.0, ← h.1) (x.a_to_b s.lci_a s h.2),
      ),
    )

allocation_made :
    (sm sm' : SessionManager) (conn gfi lci : ℕ) (s : Session)
    → get_by_b_conn_lci sm conn lci ≡ none
    → allocate_and_add_tun_session sm conn gfi lci ≡ (sm', ok s)
    → (find_free (in_use sm) sm.tun_lci_start sm.tun_lci_end sm.next_lci ≡ some s.lci_a)
      × (sm'.tun_lci_start ≡ sm.tun_lci_start)
      × (sm'.tun_lci_end ≡ sm.tun_lci_end)
      × (sm'.next_lci ≡ advance sm.tun_lci_start sm.tun_lci_end s.lci_a)
unfolding allocate_and_add_tun_session
allocation_made sm sm' conn gfi lci s new e =
    elim (Option-cases (find_free (in_use sm) sm.tun_lci_start sm.tun_lci_end sm.next_lci)) [
      | inl n ↦ cc (rw (new, n, allocate_and_add_tun_session) at e)
      | inr (l, f) ↦ made l f (rw (new, f, allocate_and_add_tun_session) at e)
    ]
  where
    made :
        (l : ℕ)
        → find_free (in_use sm) sm.tun_lci_start sm.tun_lci_end sm.next_lci ≡ some l
        → (let o : SessionManager × Result SessionError Session = (
          register sm (fresh_session sm conn gfi lci l),
          ok (fresh_session sm conn gfi lci l),
        ) in
            o)
          ≡ (sm', ok s)
        → (find_free (in_use sm) sm.tun_lci_start sm.tun_lci_end sm.next_lci ≡ some s.lci_a)
          × (sm'.tun_lci_start ≡ sm.tun_lci_start)
          × (sm'.tun_lci_end ≡ sm.tun_lci_end)
          × (sm'.next_lci ≡ advance sm.tun_lci_start sm.tun_lci_end s.lci_a)
    made l f h = unfold register fresh_session in ground arith

remove_session_range :
    (sm : SessionManager) (s : Session)
    → ((remove_session sm s).tun_lci_start ≡ sm.tun_lci_start)
      × ((remove_session sm s).tun_lci_end ≡ sm.tun_lci_end)
      × ((remove_session sm s).next_lci ≡ sm.next_lci)
unfolding remove_session
remove_session_range sm s = (refl, refl, refl)

-- In a manager whose indexes agree and whose cursor is in the range, behind an allocation for a new call
-- that made a session, and after that session is removed, the next allocation for a new call gives
-- out the same TUN LCI only when every other LCI of the range has a session.
pub lci_not_reused :
    (sm sm' again : SessionManager) (conn gfi lci conn' gfi' lci' : ℕ) (s t : Session)
    → Inv sm
    → get_by_b_conn_lci sm conn lci ≡ none
    → allocate_and_add_tun_session sm conn gfi lci ≡ (sm', ok s)
    → get_by_b_conn_lci (remove_session sm' s) conn' lci' ≡ none
    → allocate_and_add_tun_session (remove_session sm' s) conn' gfi' lci' ≡ (again, ok t)
    → t.lci_a ≡ s.lci_a
    → (m : ℕ) → sm.tun_lci_start ≤ m
    → m ≤ sm.tun_lci_end
    → m ≢ s.lci_a
    → (u : Session) × (get_by_a_lci (remove_session sm' s) m ≡ some u)
lci_not_reused sm sm' again conn gfi lci conn' gfi' lci' s t v new e new' e' same m p q ne =
    let (f, a, b, c) = allocation_made sm sm' conn gfi lci s new e in
    let (f', _, _, _) = allocation_made (remove_session sm' s) again conn' gfi' lci' t new' e' in
    let (lo, hi, _, _) = find_free-some (in_use sm) v.range s.lci_a f in
    let freed = remove_session sm' s in
    let k = remove_session_range sm' s in
    let g : find_free (in_use freed) sm.tun_lci_start sm.tun_lci_end
          (advance sm.tun_lci_start sm.tun_lci_end s.lci_a)
        ≡ some s.lci_a =
      cc (f', k.0, k.1, k.2, a, b, c, same) in
    in_use-some freed m (find_free_last (in_use freed) v.range s.lci_a lo hi g m p q ne)
