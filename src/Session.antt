-- ===== src/Session.antt =====
-- src/session.go: the sessions of the TUN gateway and the three indexes over them.
-- A Go pointer to a session is the session itself with its address, so two pointers are the same
-- exactly when the sessions are equal. Its State is the one field that changes: it lies in the map
-- `states`, under the address. A connection is a number, and 0 is the nil connection. The mutex
-- makes each operation one step.
pub mod Views
pub mod Invariant
pub mod Operations
pub mod Steps
pub mod Keyed
use goxot.Base.{
  ℕ, zero, suc, ◌+◌, ◌-◌, ◌%◌, ◌^◌, Bool, true, false, not, ◌&&◌, ◌||◌, List, [], ◌∷◌, Option, none,
  some, Result, ok, err, ltb, ◌==◌, if◌then◌else◌, ◌≡◌, ◌↔◌, arith,
}
use goxot.Base.Maps.{Key, ℕ_key, Map, lookup, insert, delete, values}
use goxot.Lci.{find_free, advance}
use goxot.X25.Packet.{lci_min, lci_max}
use goxot.X25.Create.{negotiate_gfi}

-- X.25 call states: ready, DTE waiting, DCE waiting, data transfer and call clearing.
pub data CallState : Type 0 where
  p1 p2 p3 p4 p5 : CallState

pub record Session : Type 0 where
  pub address : ℕ
  pub gfi : ℕ
  pub lci_a : ℕ
  pub conn_a : ℕ
  pub lci_b : ℕ
  pub conn_b : ℕ

-- The four numbers that the ID of a session is formatted from.
pub record SessionId : Type 0 where
  pub a : ℕ
  pub a_lci : ℕ
  pub b : ℕ
  pub b_lci : ℕ

pub same_id : SessionId → SessionId → Bool
same_id i j = i.a == j.a && i.a_lci == j.a_lci && i.b == j.b && i.b_lci == j.b_lci

pub same_id_iff : (i j : SessionId) → (same_id i j ≡ true) ↔ (i ≡ j)
unfolding same_id
same_id_iff i j = ground arith

instance abbrev pub id_key : Key SessionId
id_key = record { same = same_id; same_iff = same_id_iff }

-- Pointer equality.
unfoldable pub same_session : Session → Session → Bool
same_session s t =
    s.address == t.address
    && s.gfi == t.gfi
    && s.lci_a == t.lci_a
    && s.conn_a == t.conn_a
    && s.lci_b == t.lci_b
    && s.conn_b == t.conn_b

pub same_session_iff : (s t : Session) → (same_session s t ≡ true) ↔ (s ≡ t)
unfolding same_session
same_session_iff s t = ground arith

pub record SessionManager : Type 0 where
  pub sessions : Map SessionId Session
  pub by_a_lci : Map ℕ Session
  pub by_b_conn_lci : Map ℕ (Map ℕ Session)
  pub tun_lci_start : ℕ
  pub tun_lci_end : ℕ
  pub next_lci : ℕ
  pub states : Map ℕ CallState
  pub allocated : ℕ

pub data SessionError : Type 0 where
  gfi_zero lci_a_low lci_a_high lci_b_low lci_b_high : SessionError
  lci_exhaustion : ℕ → ℕ → SessionError

unfoldable pub new_session_manager : ℕ → ℕ → SessionManager
new_session_manager lci_start lci_end =
    let lo = if ltb lci_start lci_min then lci_min else lci_start in
    let hi = if ltb lci_max lci_end then lci_max else lci_end in
    record {
      sessions = [];
      by_a_lci = [];
      by_b_conn_lci = [];
      tun_lci_start = if ltb hi lo then lci_min else lo;
      tun_lci_end = if ltb hi lo then lci_max else hi;
      next_lci = if ltb hi lo then lci_min else lo;
      states = [];
      allocated = 0;
    }

unfoldable pub set_state : SessionManager → Session → CallState → SessionManager
set_state sm s new_state = record sm { states = insert s.address new_state sm.states }

unfoldable pub in_use : SessionManager → ℕ → Bool
in_use sm lci = elim (lookup lci sm.by_a_lci) [ none ↦ false | some s ↦ true ]

-- for lci := start; lci <= end; lci++
lowest_free : (ℕ → Bool) → ℕ → ℕ → Option ℕ
lowest_free used zero lci = none
lowest_free used (suc rounds) lci =
    let rest = lowest_free used rounds (lci + 1) in if used lci then rest else some lci

unfoldable pub allocate_tun_lci : SessionManager → Result SessionError ℕ
unfolding lowest_free in_use
allocate_tun_lci sm =
    elim (lowest_free (in_use sm) (sm.tun_lci_end + 1 - sm.tun_lci_start) sm.tun_lci_start) [
      | none ↦ err (lci_exhaustion sm.tun_lci_start sm.tun_lci_end)
      | some lci ↦ ok lci
    ]

unfoldable pub id_of : Session → SessionId
id_of s = record { a = s.conn_a; a_lci = s.lci_a; b = s.conn_b; b_lci = s.lci_b }

-- The inner map of a connection; a connection with no map counts as an empty one.
unfoldable pub lcis_of : ℕ → Map ℕ (Map ℕ Session) → Map ℕ Session
lcis_of conn m = elim (lookup conn m) [ none ↦ [] | some lcis ↦ lcis ]

-- sm.byBConnLCI[conn][lci] = s, where the inner map is made if there is none.
unfoldable pub put_b : ℕ → ℕ → Session → Map ℕ (Map ℕ Session) → Map ℕ (Map ℕ Session)
unfolding lcis_of
put_b conn lci s m = insert conn (insert lci s (lcis_of conn m)) m

unfoldable pub add_session : SessionManager → Session → Result SessionError SessionManager
unfolding id_of put_b
add_session sm s =
    if s.gfi == 0
    then err gfi_zero
    else if ltb s.lci_a lci_min
    then err lci_a_low
    else if ltb lci_max s.lci_a
    then err lci_a_high
    else if ltb s.lci_b lci_min
    then err lci_b_low
    else if ltb lci_max s.lci_b
    then err lci_b_high
    else ok (record sm {
      sessions = insert (id_of s) s sm.sessions;
      by_a_lci = insert s.lci_a s sm.by_a_lci;
      by_b_conn_lci =
          if s.conn_b == 0 then sm.by_b_conn_lci else put_b s.conn_b s.lci_b s sm.by_b_conn_lci;
    })

unfoldable pub get_by_a_lci : SessionManager → ℕ → Option Session
get_by_a_lci sm lci = lookup lci sm.by_a_lci

unfoldable pub get_by_b_conn_lci : SessionManager → ℕ → ℕ → Option Session
unfolding lcis_of
get_by_b_conn_lci sm conn lci = lookup lci (lcis_of conn sm.by_b_conn_lci)

-- The session that is made for a free LCI; its state is p1.
unfoldable pub fresh_session : SessionManager → ℕ → ℕ → ℕ → ℕ → Session
fresh_session sm conn gfi lci_b lci = record {
  address = sm.allocated;
  gfi = negotiate_gfi gfi;
  lci_a = lci;
  conn_a = 0;
  lci_b = lci_b;
  conn_b = conn;
}

unfoldable pub register : SessionManager → Session → SessionManager
unfolding id_of put_b
register sm s = record sm {
  next_lci = advance sm.tun_lci_start sm.tun_lci_end s.lci_a;
  sessions = insert (id_of s) s sm.sessions;
  by_a_lci = insert s.lci_a s sm.by_a_lci;
  by_b_conn_lci = put_b s.conn_b s.lci_b s sm.by_b_conn_lci;
  states = insert s.address p1 sm.states;
  allocated = suc sm.allocated;
}

unfoldable pub allocate_and_add_tun_session :
    SessionManager → ℕ → ℕ → ℕ → SessionManager × Result SessionError Session
allocate_and_add_tun_session sm conn gfi lci_b = elim (get_by_b_conn_lci sm conn lci_b) [
  | some s ↦ (sm, ok s)
  | none ↦ elim (find_free (in_use sm) sm.tun_lci_start sm.tun_lci_end sm.next_lci) [
    | none ↦ (sm, err (lci_exhaustion sm.tun_lci_start sm.tun_lci_end))
    | some lci ↦ (
      register sm (fresh_session sm conn gfi lci_b lci),
      ok (fresh_session sm conn gfi lci_b lci),
    )
  ]
]

is_empty : Map ℕ Session → Bool
is_empty [] = true
is_empty (e ∷ m) = false

-- delete(lcis, lci), and the inner map too when that leaves it empty.
unfoldable pub drop_b : ℕ → ℕ → Map ℕ (Map ℕ Session) → Map ℕ (Map ℕ Session)
unfolding is_empty lcis_of
drop_b conn lci m =
    let lcis = delete lci (lcis_of conn m) in
    if is_empty lcis then delete conn m else insert conn lcis m

unfoldable pub remove_by_b_conn_lci : SessionManager → ℕ → ℕ → SessionManager
unfolding id_of drop_b
remove_by_b_conn_lci sm conn lci = elim (get_by_b_conn_lci sm conn lci) [
  | none ↦ sm
  | some s ↦ record sm {
    sessions = delete (id_of s) sm.sessions;
    by_a_lci = delete s.lci_a sm.by_a_lci;
    by_b_conn_lci = drop_b conn lci sm.by_b_conn_lci;
  }
]

-- m[k] == s
unfoldable pub points_to : Session → Option Session → Bool
points_to s none = false
points_to s (some t) = same_session t s

unfoldable pub remove_session : SessionManager → Session → SessionManager
unfolding id_of drop_b points_to
remove_session sm s = record sm {
  sessions =
      if points_to s (lookup (id_of s) sm.sessions)
      then delete (id_of s) sm.sessions
      else sm.sessions;
  by_a_lci =
      if points_to s (lookup s.lci_a sm.by_a_lci) then delete s.lci_a sm.by_a_lci else sm.by_a_lci;
  by_b_conn_lci =
      if not (s.conn_b == 0) && points_to s (get_by_b_conn_lci sm s.conn_b s.lci_b)
      then drop_b s.conn_b s.lci_b sm.by_b_conn_lci
      else sm.by_b_conn_lci;
}

-- The list is in the order of one range over the map.
unfoldable pub get_sessions_for_conn : SessionManager → ℕ → List Session
unfolding lcis_of
get_sessions_for_conn sm conn = values (lcis_of conn sm.by_b_conn_lci)

unfoldable pub get_all_sessions : SessionManager → List Session
get_all_sessions sm = values sm.sessions

unfoldable pub remove_all_sessions : SessionManager → SessionManager × List Session
remove_all_sessions sm =
    (record sm { sessions = []; by_a_lci = []; by_b_conn_lci = [] }, values sm.sessions)
