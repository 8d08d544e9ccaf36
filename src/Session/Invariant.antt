-- ===== src/Session/Invariant.antt =====
-- src/session.go: the three indexes hold the same sessions, each under its own keys.
use goxot.Base.{
  ℕ, ◌≡◌, ◌≢◌, sym, ◌∙◌, false, ◌&&◌, none, some, ◌==◌, if◌then◌else◌, arith, Option-cases, inl,
  inr,
}
use goxot.Base.Maps.{ℕ_key, lookup}
use goxot.Session.{
  Session, SessionId, SessionManager, id_of, id_key, same_id, same_session, get_by_a_lci,
  get_by_b_conn_lci,
}
use goxot.Session.Views.{unless, unless-some, unless_other}

pub record Indexed (sm : SessionManager) : Type 0 where
  pub a_key : (l : ℕ) (s : Session) → get_by_a_lci sm l ≡ some s → s.lci_a ≡ l
  pub b_key :
      (c l : ℕ) (s : Session) → get_by_b_conn_lci sm c l ≡ some s → (s.conn_b ≡ c) × (s.lci_b ≡ l)
  pub id_key : (k : SessionId) (s : Session) → lookup k sm.sessions ≡ some s → id_of s ≡ k
  pub a_to_b :
      (l : ℕ) (s : Session)
      → get_by_a_lci sm l ≡ some s
      → get_by_b_conn_lci sm s.conn_b s.lci_b ≡ some s
  pub b_to_a :
      (c l : ℕ) (s : Session) → get_by_b_conn_lci sm c l ≡ some s → get_by_a_lci sm s.lci_a ≡ some s
  pub a_to_id :
      (l : ℕ) (s : Session) → get_by_a_lci sm l ≡ some s → lookup (id_of s) sm.sessions ≡ some s
  pub id_to_a :
      (k : SessionId) (s : Session)
      → lookup k sm.sessions ≡ some s
      → get_by_a_lci sm s.lci_a ≡ some s
  pub has_conn : (l : ℕ) (s : Session) → get_by_a_lci sm l ≡ some s → s.conn_b ≢ 0

-- `sm'` is `sm` with `s` under its keys.
pub record Added (s : Session) (sm sm' : SessionManager) : Type 0 where
  pub at_a : (l : ℕ) → get_by_a_lci sm' l ≡ (if s.lci_a == l then some s else get_by_a_lci sm l)
  pub at_b :
      (c l : ℕ)
      → get_by_b_conn_lci sm' c l
        ≡ (if s.conn_b == c && s.lci_b == l then some s else get_by_b_conn_lci sm c l)
  pub at_id :
      (k : SessionId)
      → lookup k sm'.sessions ≡ (if same_id (id_of s) k then some s else lookup k sm.sessions)

-- `sm'` is `sm` with `s` in no index, and every other session where it was.
pub record Removed (s : Session) (sm sm' : SessionManager) : Type 0 where
  pub at_a : (l : ℕ) → get_by_a_lci sm' l ≡ unless s (get_by_a_lci sm l)
  pub at_b : (c l : ℕ) → get_by_b_conn_lci sm' c l ≡ unless s (get_by_b_conn_lci sm c l)
  pub at_id : (k : SessionId) → lookup k sm'.sessions ≡ unless s (lookup k sm.sessions)

module _ {s : Session} {sm sm' : SessionManager} (x : Indexed sm) (r : Removed s sm sm') where
  kept_a :
      (l : ℕ) (t : Session)
      → get_by_a_lci sm' l ≡ some t
      → (get_by_a_lci sm l ≡ some t) × (same_session t s ≡ false)
  kept_a l t e = unless-some s t (get_by_a_lci sm l) (sym (r.at_a l) ∙ e)

  kept_b :
      (c l : ℕ) (t : Session)
      → get_by_b_conn_lci sm' c l ≡ some t
      → (get_by_b_conn_lci sm c l ≡ some t) × (same_session t s ≡ false)
  kept_b c l t e = unless-some s t (get_by_b_conn_lci sm c l) (sym (r.at_b c l) ∙ e)

  kept_id :
      (k : SessionId) (t : Session)
      → lookup k sm'.sessions ≡ some t
      → (lookup k sm.sessions ≡ some t) × (same_session t s ≡ false)
  kept_id k t e = unless-some s t (lookup k sm.sessions) (sym (r.at_id k) ∙ e)

  pub Removed-Indexed : Indexed sm'
  Removed-Indexed = record {
    a_key = λ l t e. x.a_key l t (kept_a l t e).0;
    b_key = λ c l t e. x.b_key c l t (kept_b c l t e).0;
    id_key = λ k t e. x.id_key k t (kept_id k t e).0;
    a_to_b = λ l t e.
        let (a, b) = kept_a l t e in
        r.at_b t.conn_b t.lci_b ∙ unless_other s t _ (x.a_to_b l t a) b;
    b_to_a = λ c l t e.
        let (a, b) = kept_b c l t e in r.at_a t.lci_a ∙ unless_other s t _ (x.b_to_a c l t a) b;
    a_to_id = λ l t e.
        let (a, b) = kept_a l t e in r.at_id (id_of t) ∙ unless_other s t _ (x.a_to_id l t a) b;
    id_to_a = λ k t e.
        let (a, b) = kept_id k t e in r.at_a t.lci_a ∙ unless_other s t _ (x.id_to_a k t a) b;
    has_conn = λ l t e. x.has_conn l t (kept_a l t e).0;
  }

module _ {s : Session} {sm sm' : SessionManager} (x : Indexed sm) (r : Added s sm sm')
    (new_a : get_by_a_lci sm s.lci_a ≡ none) (new_b : get_by_b_conn_lci sm s.conn_b s.lci_b ≡ none)
    (conn : s.conn_b ≢ 0) where
  new_id : lookup (id_of s) sm.sessions ≡ none
  unfolding id_of
  new_id = elim (Option-cases (lookup (id_of s) sm.sessions)) [
    | inl e ↦ e
    | inr (t, e) ↦ cc (x.id_to_a (id_of s) t e, x.id_key (id_of s) t e, new_a)
  ]

  pub Added-Indexed : Indexed sm'
  unfolding id_of same_id
  Added-Indexed = record {
    a_key = λ l t e. ground (arith, r.at_a l, x.a_key l t);
    b_key = λ c l t e. ground (arith, r.at_b c l, x.b_key c l t);
    id_key = λ k t e. ground (arith, r.at_id k, x.id_key k t);
    a_to_b = λ l t e. ground (arith, r.at_a l, r.at_b t.conn_b t.lci_b, x.a_to_b l t, new_b);
    b_to_a = λ c l t e. ground (arith, r.at_b c l, r.at_a t.lci_a, x.b_to_a c l t, new_a);
    a_to_id = λ l t e. ground (arith, r.at_a l, r.at_id (id_of t), x.a_to_id l t, new_id);
    id_to_a = λ k t e. ground (arith, r.at_id k, r.at_a t.lci_a, x.id_to_a k t, new_a);
    has_conn = λ l t e. ground (arith, r.at_a l, x.has_conn l t, conn);
  }
