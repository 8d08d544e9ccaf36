-- ===== src/Session/Operations.antt =====
-- src/session.go: each operation keeps the indexes in step, and what it does to them.
use goxot.Base.{
  ℕ, ◌≤◌, ◌≡◌, ◌≢◌, refl, sym, ap, ◌∙◌, subst, Bool, true, false, not, ◌&&◌, Option, none, some,
  ◌==◌, if◌then◌else◌, arith, Bool-cases, inl, inr, ==_iff, ok,
}
use goxot.Base.Maps.{Key, ℕ_key, Map, lookup, insert, delete, lookup-insert, lookup-delete}
use goxot.Session.{
  Session, SessionId, SessionManager, id_of, id_key, same_id, same_id_iff, get_by_a_lci,
  get_by_b_conn_lci, points_to, remove_session, remove_by_b_conn_lci, add_session, register, drop_b,
  put_b, lcis_of,
}
use goxot.Session.Views.{unless, points_to-eq, points_to_self, lookup-put_b, lookup-drop_b}
use goxot.Session.Invariant.{Indexed, Added, Removed}

lookup_if_delete {ℓ} :
    {K : Type ℓ} ⦃key : Key K⦄ (b : Bool) (k j : K) (m : Map K Session)
    → lookup j (if b then delete k m else m)
      ≡ (if b then if key.same k j then none else lookup j m else lookup j m)
lookup_if_delete true k j m = lookup-delete k j m
lookup_if_delete false k j m = refl

-- Deleting the entry of a session's own key takes that session out and no other.
unless_delete :
    (s : Session) (own o : Option Session) (hit : Bool)
    → (hit ≡ true → o ≡ own)
    → (o ≡ some s → hit ≡ true)
    → (if points_to s own then if hit then none else o else o) ≡ unless s o
unless_delete s own o hit same only = elim (Bool-cases (points_to s o)) [
  | inl e ↦
      let at : o ≡ some s = points_to-eq s o e in
      let h : hit ≡ true = only at in rw (h, ← same h, e) refl
  | inr e ↦ elim (Bool-cases hit) [
    | inl h ↦ rw (h, ← same h, e) refl
    | inr h ↦ rw (h, e) (either (points_to s own) o)
  ]
]
  where
    either : (b : Bool) (o : Option Session) → (if b then o else o) ≡ o
    either true o = refl
    either false o = refl

module _ (sm : SessionManager) (s : Session) (x : Indexed sm) where
  remove_at_a : (l : ℕ) → get_by_a_lci (remove_session sm s) l ≡ unless s (get_by_a_lci sm l)
  unfolding remove_session get_by_a_lci
  remove_at_a l =
      lookup_if_delete (points_to s (lookup s.lci_a sm.by_a_lci)) s.lci_a l sm.by_a_lci
      ∙ unless_delete s (lookup s.lci_a sm.by_a_lci) (lookup l sm.by_a_lci) (s.lci_a == l)
          (λ h. ap (λ i. lookup i sm.by_a_lci) (sym ((==_iff s.lci_a l).0 h)))
          (λ e. (==_iff s.lci_a l).1 (x.a_key l s e))

  remove_at_id :
      (k : SessionId) → lookup k (remove_session sm s).sessions ≡ unless s (lookup k sm.sessions)
  unfolding remove_session
  remove_at_id k =
      lookup_if_delete (points_to s (lookup (id_of s) sm.sessions)) (id_of s) k sm.sessions
      ∙ unless_delete s (lookup (id_of s) sm.sessions) (lookup k sm.sessions) (same_id (id_of s) k)
          (λ h. ap (λ i. lookup i sm.sessions) (sym ((same_id_iff (id_of s) k).0 h)))
          (λ e. (same_id_iff (id_of s) k).1 (x.id_key k s e))

  has_conn_test :
      (not (s.conn_b == 0) && points_to s (get_by_b_conn_lci sm s.conn_b s.lci_b))
      ≡ points_to s (get_by_b_conn_lci sm s.conn_b s.lci_b)
  has_conn_test = elim (Bool-cases (points_to s (get_by_b_conn_lci sm s.conn_b s.lci_b))) [
    | inl e ↦
        let at = points_to-eq s _ e in
        let ne : s.conn_b ≢ 0 = x.has_conn s.lci_a s (x.b_to_a s.conn_b s.lci_b s at) in
        rw e (ground arith)
    | inr e ↦ rw e (ground arith)
  ]

  remove_at_b :
      (c l : ℕ) → get_by_b_conn_lci (remove_session sm s) c l ≡ unless s (get_by_b_conn_lci sm c l)
  unfolding get_by_b_conn_lci remove_session lookup
  remove_at_b c l =
      if_drop_b (not (s.conn_b == 0) && points_to s (get_by_b_conn_lci sm s.conn_b s.lci_b))
      ∙ rw has_conn_test (
          unless_delete s (get_by_b_conn_lci sm s.conn_b s.lci_b) (get_by_b_conn_lci sm c l)
            (s.conn_b == c && s.lci_b == l) (λ h. ground arith)
            (λ e. let k = x.b_key c l s e in ground arith))
    where
      if_drop_b :
          (b : Bool)
          → lookup l
              (lcis_of c (if b then drop_b s.conn_b s.lci_b sm.by_b_conn_lci else sm.by_b_conn_lci))
            ≡ (if b
                then if s.conn_b == c && s.lci_b == l then none else get_by_b_conn_lci sm c l
                else get_by_b_conn_lci sm c l)
      if_drop_b true =
          unfold get_by_b_conn_lci in lookup-drop_b s.conn_b s.lci_b c l sm.by_b_conn_lci
      if_drop_b false = unfold get_by_b_conn_lci in refl

-- In a manager whose indexes agree, RemoveSession takes the session out of every index that points
-- to it, and touches nothing else.
pub remove_session-Removed :
    (sm : SessionManager) (s : Session) → Indexed sm → Removed s sm (remove_session sm s)
remove_session-Removed sm s x = record {
  at_a = remove_at_a sm s x;
  at_b = remove_at_b sm s x;
  at_id = remove_at_id sm s x;
}

unless_present :
    (s : Session) (own o : Option Session) (hit : Bool)
    → own ≡ some s
    → (hit ≡ true → o ≡ own)
    → (o ≡ some s → hit ≡ true)
    → (if hit then none else o) ≡ unless s o
unless_present s own o hit here same only =
    let own_hit : points_to s own ≡ true = rw here (points_to_self s) in
    rw own_hit at (unless_delete s own o hit same only)

module _ (sm : SessionManager) (conn lci : ℕ) (s : Session) (x : Indexed sm)
    (here : get_by_b_conn_lci sm conn lci ≡ some s) where
  remove_by_b-step : remove_by_b_conn_lci sm conn lci ≡ record sm {
    sessions = delete (id_of s) sm.sessions;
    by_a_lci = delete s.lci_a sm.by_a_lci;
    by_b_conn_lci = drop_b conn lci sm.by_b_conn_lci;
  }
  unfolding remove_by_b_conn_lci
  remove_by_b-step = rw (here, remove_by_b_conn_lci) refl

  -- In a manager whose indexes agree, RemoveByBConnLCI takes the session that stands under the
  -- connection and the LCI out of every index, and touches nothing else.
  pub remove_by_b_conn_lci-Removed : Removed s sm (remove_by_b_conn_lci sm conn lci)
  unfolding get_by_a_lci get_by_b_conn_lci
  remove_by_b_conn_lci-Removed = rw remove_by_b-step (record {
    at_a = λ l.
        lookup-delete s.lci_a l sm.by_a_lci
        ∙ unless_present s (lookup s.lci_a sm.by_a_lci) (lookup l sm.by_a_lci) (s.lci_a == l)
            (x.b_to_a conn lci s here)
            (λ h. ap (λ i. lookup i sm.by_a_lci) (sym ((==_iff s.lci_a l).0 h)))
            (λ e. (==_iff s.lci_a l).1 (x.a_key l s e));
    at_b = λ c l.
        lookup-drop_b conn lci c l sm.by_b_conn_lci
        ∙ unless_present s (get_by_b_conn_lci sm conn lci) (get_by_b_conn_lci sm c l)
            (conn == c && lci == l) here (λ h. ground arith)
            (λ e. let k = x.b_key c l s e in let k' = x.b_key conn lci s here in ground arith);
    at_id = λ k.
        lookup-delete (id_of s) k sm.sessions
        ∙ unless_present s (lookup (id_of s) sm.sessions) (lookup k sm.sessions)
            (same_id (id_of s) k) (x.a_to_id s.lci_a s (x.b_to_a conn lci s here))
            (λ h. ap (λ i. lookup i sm.sessions) (sym ((same_id_iff (id_of s) k).0 h)))
            (λ e. (same_id_iff (id_of s) k).1 (x.id_key k s e));
  })

-- What AddSession asks of a session.
pub record IsValid (s : Session) : Type 0 where
  pub gfi : s.gfi ≢ 0
  pub lci_a : (1 ≤ s.lci_a) × (s.lci_a ≤ 4095)
  pub lci_b : (1 ≤ s.lci_b) × (s.lci_b ≤ 4095)

entered : SessionManager → Session → SessionManager
entered sm s = record sm {
  sessions = insert (id_of s) s sm.sessions;
  by_a_lci = insert s.lci_a s sm.by_a_lci;
  by_b_conn_lci = put_b s.conn_b s.lci_b s sm.by_b_conn_lci;
}

add_session-eq_ok :
    (sm sm' : SessionManager) (s : Session)
    → s.conn_b ≢ 0
    → add_session sm s ≡ ok sm'
    → IsValid s × (entered sm s ≡ sm')
unfolding add_session entered
add_session-eq_ok sm sm' s ne e =
    (record { gfi = ground arith; lci_a = ground arith; lci_b = ground arith }, ground arith)

entered-Added : (sm : SessionManager) (s : Session) → Added s sm (entered sm s)
unfolding entered get_by_a_lci get_by_b_conn_lci
entered-Added sm s = record {
  at_a = λ l. lookup-insert s.lci_a l s sm.by_a_lci;
  at_b = λ c l. lookup-put_b s.conn_b s.lci_b c l s sm.by_b_conn_lci;
  at_id = λ k. lookup-insert (id_of s) k s sm.sessions;
}

-- AddSession, when it reports no error for a session with a connection: the session's GFI is not 0
-- and its two LCIs lie in 1 to 4095, it stands under its keys, and no other entry has changed.
pub add_session-Added :
    (sm sm' : SessionManager) (s : Session)
    → s.conn_b ≢ 0
    → add_session sm s ≡ ok sm'
    → IsValid s × Added s sm sm'
add_session-Added sm sm' s ne e =
    let (v, same) = add_session-eq_ok sm sm' s ne e in
    (v, subst (Added s sm) same (entered-Added sm s))

-- A fresh session stands under its keys, and no other entry has changed.
pub register-Added : (sm : SessionManager) (s : Session) → Added s sm (register sm s)
unfolding register get_by_a_lci get_by_b_conn_lci
register-Added sm s = record {
  at_a = λ l. lookup-insert s.lci_a l s sm.by_a_lci;
  at_b = λ c l. lookup-put_b s.conn_b s.lci_b c l s sm.by_b_conn_lci;
  at_id = λ k. lookup-insert (id_of s) k s sm.sessions;
}
