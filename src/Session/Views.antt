-- ===== src/Session/Views.antt =====
-- src/session.go: what the indexes hold after an entry was put in or taken out.
use goxot.Base.{
  ℕ, ◌≡◌, refl, ap, true, false, ◌&&◌, [], ◌∷◌, Option, none, some, ◌==◌, if◌then◌else◌, arith,
  Bool-cases, inl, inr,
}
use goxot.Base.Maps.{ℕ_key, Map, lookup, insert, delete, lookup-insert, lookup-delete}
use goxot.Session.{
  Session, same_session, same_session_iff, lcis_of, put_b, drop_b, is_empty, points_to,
}

lcis_of-insert :
    (conn c : ℕ) (lcis : Map ℕ Session) (m : Map ℕ (Map ℕ Session))
    → lcis_of c (insert conn lcis m) ≡ (if conn == c then lcis else lcis_of c m)
unfolding lcis_of
lcis_of-insert conn c lcis m = ground (arith, lookup-insert conn c lcis m)

lcis_of-delete :
    (conn c : ℕ) (m : Map ℕ (Map ℕ Session))
    → lcis_of c (delete conn m) ≡ (if conn == c then [] else lcis_of c m)
unfolding lcis_of
lcis_of-delete conn c m = ground (arith, lookup-delete conn c m)

-- The B index as a function of connection and LCI.
pub lookup-put_b :
    (conn lci c l : ℕ) (s : Session) (m : Map ℕ (Map ℕ Session))
    → lookup l (lcis_of c (put_b conn lci s m))
      ≡ (if conn == c && lci == l then some s else lookup l (lcis_of c m))
unfolding put_b
lookup-put_b conn lci c l s m = ground (
  arith,
  lcis_of-insert conn c (insert lci s (lcis_of conn m)) m,
  lookup-insert lci l s (lcis_of conn m),
)

lookup_empty : (l : ℕ) (m : Map ℕ Session) → is_empty m ≡ true → lookup l m ≡ none
unfolding is_empty lookup
lookup_empty l [] e = refl
lookup_empty l (x ∷ m) e = cc

pub lookup-drop_b :
    (conn lci c l : ℕ) (m : Map ℕ (Map ℕ Session))
    → lookup l (lcis_of c (drop_b conn lci m))
      ≡ (if conn == c && lci == l then none else lookup l (lcis_of c m))
unfolding drop_b
lookup-drop_b conn lci c l m = ground (
  arith,
  lcis_of-insert conn c (delete lci (lcis_of conn m)) m,
  lcis_of-delete conn c m,
  lookup-delete lci l (lcis_of conn m),
  lookup_empty l (delete lci (lcis_of conn m)),
  lookup_nil l,
)
  where
    lookup_nil : (l : ℕ) → lookup {V = Session} l [] ≡ none
    lookup_nil l = unfold lookup in refl

-- An index entry, unless it is the session that was removed.
abbrev pub unless : Session → Option Session → Option Session
unless s o = if points_to s o then none else o

pub unless-some :
    (s t : Session) (o : Option Session)
    → unless s o ≡ some t
    → (o ≡ some t) × (same_session t s ≡ false)
unfolding points_to
unless-some s t none e = cc
unless-some s t (some u) e = elim (Bool-cases (same_session u s)) [
  | inl same ↦ cc (rw same at e)
  | inr other ↦ let eq : some u ≡ some t = rw other at e in (eq, cc)
]

pub unless_other :
    (s t : Session) (o : Option Session)
    → o ≡ some t
    → same_session t s ≡ false
    → unless s o ≡ some t
unfolding points_to
unless_other s t none e h = cc
unless_other s t (some u) e h = ground arith

pub points_to-eq : (s : Session) (o : Option Session) → points_to s o ≡ true → o ≡ some s
unfolding points_to
points_to-eq s none e = cc
points_to-eq s (some t) e = ap some ((same_session_iff t s).0 e)

pub points_to_self : (s : Session) → points_to s (some s) ≡ true
unfolding points_to
points_to_self s = (same_session_iff s s).1 refl
