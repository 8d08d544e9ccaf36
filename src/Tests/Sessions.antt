-- ===== src/Tests/Sessions.antt =====
-- src/session.go and the LCI scan at concrete inputs.
use goxot.Base.{ℕ, ◌≤◌, ◌<◌, ◌≡◌, ◌↔◌, refl, true, false, none, some, ok, arith, ◌==◌}
use goxot.Base.Maps.{ℕ_key, lookup, insert, delete}
use goxot.Lci.{find_free, scan}
use goxot.Lci.Scan.{find_free-some, distance, IsRange}
use goxot.X25.Create.{negotiate_gfi}
use goxot.Session.{
  in_use, register, fresh_session, Session, SessionManager, new_session_manager, get_by_a_lci,
  same_session, remove_session, points_to, drop_b, put_b, lcis_of, get_by_b_conn_lci,
  allocate_and_add_tun_session,
}
use goxot.Session.Steps.{
  Inv, Step, Reach, Allocated, new_session_manager-Inv, Step-Inv, indexes_agree,
  allocate_and_add_tun_session-Allocated, lci_not_reused,
}

-- A manager with two LCIs, and its first session.
abbrev empty : SessionManager
empty = new_session_manager 1 2

two_lcis : IsRange 1 2 1
two_lcis = record {
  low = omega arith;
  high = omega arith;
  after_start = omega arith;
  before_end = omega arith;
}

second_free : find_free (λ m. m == 1) 1 2 1 ≡ some 2
unfolding find_free scan
second_free = refl

none_free : find_free (λ m. true) 1 2 1 ≡ none
unfolding find_free scan
none_free = refl

find_free-some_example :
    (1 ≤ 2)
    × (2 ≤ 2)
    × ((2 == 1) ≡ false)
    × ((m : ℕ) → 1 ≤ m → m ≤ 2 → distance 1 2 1 m < distance 1 2 1 2 → (m == 1) ≡ true)
find_free-some_example = find_free-some (λ m. m == 1) two_lcis 2 second_free

Step-Inv_example : Inv (allocate_and_add_tun_session empty 7 1 9).0
Step-Inv_example =
    Step-Inv (Step.allocate empty 7 1 9 (λ e. ground (arith, e))) (new_session_manager-Inv 1 2)

allocate_and_add_tun_session-Allocated_example :
    Allocated empty 7 9 (allocate_and_add_tun_session empty 7 1 9)
allocate_and_add_tun_session-Allocated_example =
    allocate_and_add_tun_session-Allocated empty 7 1 9 (new_session_manager-Inv 1 2)

abbrev first : Session
first = record { address = 0; gfi = 1; lci_a = 1; conn_a = 0; lci_b = 9; conn_b = 7 }

indexes_agree_example :
    (get_by_a_lci (allocate_and_add_tun_session empty 7 1 9).0 1 ≡ some first
      ↔ (first.lci_a ≡ 1)
        × (get_by_b_conn_lci (allocate_and_add_tun_session empty 7 1 9).0 7 9 ≡ some first))
    × (get_by_b_conn_lci (allocate_and_add_tun_session empty 7 1 9).0 7 9 ≡ some first
        ↔ (first.conn_b ≡ 7)
          × (first.lci_b ≡ 9)
          × (get_by_a_lci (allocate_and_add_tun_session empty 7 1 9).0 1 ≡ some first))
indexes_agree_example =
    indexes_agree 1 2 (Reach.next Reach.here (Step.allocate empty 7 1 9 (λ e. ground (arith, e)))) 1
      7 9 first

first_here : get_by_b_conn_lci (allocate_and_add_tun_session empty 7 1 9).0 7 9 ≡ some first
unfolding get_by_b_conn_lci allocate_and_add_tun_session new_session_manager find_free lookup insert
    scan in_use register fresh_session negotiate_gfi
first_here = refl

-- The second LCI has a session, and the first one is given out, freed and given out again.
abbrev one_left : SessionManager
one_left =
    remove_session
      (allocate_and_add_tun_session (allocate_and_add_tun_session empty 7 1 9).0 7 1 10).0 first

abbrev third : Session
third = record { address = 2; gfi = 1; lci_a = 1; conn_a = 0; lci_b = 11; conn_b = 7 }

abbrev fourth : Session
fourth = record { address = 3; gfi = 1; lci_a = 1; conn_a = 0; lci_b = 12; conn_b = 7 }

one_left-Inv : Inv one_left
one_left-Inv =
    Step-Inv (Step.remove _ first)
      (Step-Inv (Step.allocate _ 7 1 10 (λ e. ground (arith, e))) Step-Inv_example)

abbrev with_third : SessionManager
with_third = (allocate_and_add_tun_session one_left 7 1 11).0

third_made : allocate_and_add_tun_session one_left 7 1 11 ≡ (with_third, ok third)
unfolding get_by_b_conn_lci allocate_and_add_tun_session new_session_manager find_free lookup insert
    scan in_use register fresh_session negotiate_gfi remove_session points_to drop_b delete put_b
    lcis_of same_session
third_made = refl

third_new : get_by_b_conn_lci one_left 7 11 ≡ none
unfolding get_by_b_conn_lci allocate_and_add_tun_session new_session_manager find_free lookup insert
    scan in_use register fresh_session negotiate_gfi remove_session points_to drop_b delete put_b
    lcis_of same_session
third_new = refl

abbrev with_fourth : SessionManager
with_fourth = (allocate_and_add_tun_session (remove_session with_third third) 7 1 12).0

fourth_new : get_by_b_conn_lci (remove_session with_third third) 7 12 ≡ none
unfolding get_by_b_conn_lci allocate_and_add_tun_session new_session_manager find_free lookup insert
    scan in_use register fresh_session negotiate_gfi remove_session points_to drop_b delete put_b
    lcis_of same_session
fourth_new = refl

fourth_made :
    allocate_and_add_tun_session (remove_session with_third third) 7 1 12 ≡ (with_fourth, ok fourth)
unfolding get_by_b_conn_lci allocate_and_add_tun_session new_session_manager find_free lookup insert
    scan in_use register fresh_session negotiate_gfi remove_session points_to drop_b delete put_b
    lcis_of same_session
fourth_made = refl

least : one_left.tun_lci_start ≤ 2
unfolding allocate_and_add_tun_session new_session_manager remove_session register get_by_b_conn_lci
    find_free lookup insert scan in_use fresh_session put_b lcis_of same_session
least = omega arith

greatest : 2 ≤ one_left.tun_lci_end
unfolding allocate_and_add_tun_session new_session_manager remove_session register get_by_b_conn_lci
    find_free lookup insert scan in_use fresh_session put_b lcis_of same_session
greatest = omega arith

lci_not_reused_example : (u : Session) × (get_by_a_lci (remove_session with_third third) 2 ≡ some u)
lci_not_reused_example =
    lci_not_reused one_left with_third with_fourth 7 1 11 7 1 12 third fourth one_left-Inv third_new
      third_made fourth_new fourth_made refl 2 least greatest (λ e. ground (arith, e))
