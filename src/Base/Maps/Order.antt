-- ===== src/Base/Maps/Order.antt =====
-- The order in which Go ranges over a map is not defined. A range is a list of the map's entries,
-- each once.
use mathlib.Core.Path.{◌≡◌, refl, sym, ◌∙◌, subst₂}
use mathlib.Core.Logic.{inl, inr}
use mathlib.Core.Option.{none, some}
use mathlib.Core.List.{[], ◌∷◌, ◌++◌, append_assoc, append-nil}
use native.Mathlib.Omega.{arith}
use goxot.Base.Tests.{Bool-cases}
use goxot.Base.Lists.{All}
use goxot.Base.Maps.{
  Key, Map, lookup, insert, delete, values, lookup-insert, lookup-delete, same_self,
}

module _ {ℓ κ} {K : Type ℓ} {V : Type κ} ⦃key : Key K⦄ where
  abbrev pub Distinct : Map K V → Type κ
  Distinct [] = Unit
  Distinct ((k, v) ∷ m) = (lookup k m ≡ none) × Distinct m

  -- `entries` is a range over `m`.
  pub record IsRange (m entries : Map K V) : Type (ℓ ⊔ κ) where
    pub distinct : Distinct entries
    pub agrees : (k : K) → lookup k entries ≡ lookup k m

  pub insert-Distinct : (k : K) (v : V) (m : Map K V) → Distinct m → Distinct (insert k v m)
  unfolding insert lookup
  insert-Distinct k v [] d = ground arith
  insert-Distinct k v ((j, w) ∷ m) d =
      ground (
        arith,
        insert-Distinct k v m d.1,
        lookup-insert k j v m,
        key.same_iff k j,
        key.same_iff j k,
      )

  insert_new : (k : K) (v : V) (m : Map K V) → lookup k m ≡ none → insert k v m ≡ m ++ (k, v) ∷ []
  unfolding insert lookup
  insert_new k v [] h = refl
  insert_new k v ((j, w) ∷ m) h = ground (arith, insert_new k v m)

  lookup_append_none : (k : K) (m n : Map K V) → lookup k (m ++ n) ≡ none → lookup k n ≡ none
  unfolding lookup
  lookup_append_none k [] n e = e
  lookup_append_none k ((j, w) ∷ m) n e = ground (arith, lookup_append_none k m n)

  lookup_front : (k : K) (v : V) (m n : Map K V) → Distinct (m ++ (k, v) ∷ n) → lookup k m ≡ none
  unfolding lookup
  lookup_front k v [] n d = refl
  lookup_front k v ((j, w) ∷ m) n d = ground (
    arith,
    lookup_front k v m n d.1,
    lookup_append_none j m ((k, v) ∷ n) d.0,
    key.same_iff k j,
    key.same_iff j k,
  )

  -- Inserting the entries of a list one by one, from the front.
  unfoldable pub insert_all : Map K V → Map K V → Map K V
  insert_all [] m = m
  insert_all ((k, v) ∷ new) m = insert_all new (insert k v m)

  insert_all-append : (new m : Map K V) → Distinct (m ++ new) → insert_all new m ≡ m ++ new
  unfolding insert_all
  insert_all-append [] m d = sym (append-nil m)
  insert_all-append ((k, v) ∷ new) m d =
      let e : insert k v m ≡ m ++ (k, v) ∷ [] = insert_new k v m (lookup_front k v m new d) in
      let assoc = append_assoc m ((k, v) ∷ []) new in
      rw e (insert_all-append new (m ++ (k, v) ∷ []) (rw assoc d) ∙ assoc)

  pub insert_all-Distinct : (new : Map K V) → Distinct new → insert_all new [] ≡ new
  insert_all-Distinct new d = insert_all-append new [] d

  All-lookup {μ} :
      (P : K × V → Type μ) (k : K) (v : V) (m : Map K V) → All P m → lookup k m ≡ some v → P (k, v)
  unfolding lookup
  All-lookup P k v [] h e = cc
  All-lookup P k v ((j, w) ∷ m) h e = elim (Bool-cases (key.same j k)) [
    | inl t ↦
        let a : w ≡ v = cc (rw t at e) in
        let b : j ≡ k = (key.same_iff j k).0 t in subst₂ (λ i u. P (i, u)) b a h.0
    | inr t ↦ All-lookup P k v m h.1 (rw t at e)
  ]

  All_of_lookup {μ} :
      (P : K × V → Type μ) (m : Map K V)
      → Distinct m
      → ((k : K) (v : V) → lookup k m ≡ some v → P (k, v))
      → All P m
  unfolding lookup
  All_of_lookup P [] d h = tt
  All_of_lookup P ((j, w) ∷ m) d h = (
    h j w (rw (same_self j) refl),
    All_of_lookup P m d.1 (λ k v e. h k v (elim (Bool-cases (key.same j k)) [
      | inl t ↦ cc ((key.same_iff j k).0 t, d.0, e)
      | inr t ↦ rw t e
    ])),
  )

  -- What holds of all entries of a map holds of all entries of a range over it.
  pub IsRange-All {μ} :
      (P : K × V → Type μ) (m entries : Map K V) → IsRange m entries → All P m → All P entries
  IsRange-All P m entries r h =
      All_of_lookup P entries r.distinct (λ k v e. All-lookup P k v m h (sym (r.agrees k) ∙ e))

  pub delete-Distinct : (k : K) (m : Map K V) → Distinct m → Distinct (delete k m)
  unfolding delete
  delete-Distinct k [] d = tt
  delete-Distinct k ((j, w) ∷ m) d = ground (arith, delete-Distinct k m d.1, lookup-delete k j m)

  -- What holds of every value that a key finds holds of every value of the map.
  pub values-All {μ} :
      (P : V → Type μ) (m : Map K V)
      → Distinct m
      → ((k : K) (v : V) → lookup k m ≡ some v → P v)
      → All P (values m)
  unfolding values lookup
  values-All P [] d h = tt
  values-All P ((j, w) ∷ m) d h = (
    h j w (rw (same_self j) refl),
    values-All P m d.1 (λ k v e. h k v (elim (Bool-cases (key.same j k)) [
      | inl t ↦ cc ((key.same_iff j k).0 t, d.0, e)
      | inr t ↦ rw t e
    ])),
  )
