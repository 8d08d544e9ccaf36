-- ===== src/Prefix.antt =====
-- The longest prefix match that src/config.go (GetServer) and src/cmd/tun-loopback/main.go
-- (findNode) each do over a list: the first item whose prefix is longer than that of every item
-- before it that matched too.
pub mod Longest
use goxot.Base.{
  ℕ, suc, ◌+◌, Bool, true, false, ◌&&◌, List, [], ◌∷◌, Option, none, some, ltb, ◌==◌, if◌then◌else◌,
  length,
}

-- strings.HasPrefix(text, prefix)
unfoldable pub has_prefix : List ℕ → List ℕ → Bool
has_prefix text [] = true
has_prefix [] (p ∷ prefix) = false
has_prefix (c ∷ text) (p ∷ prefix) = c == p && has_prefix text prefix

-- `prefix_of` gives an item's prefix, or nothing for an item that the loop skips. `bound` is
-- bestLen + 1, so it starts at 0.
module _ {ℓ} {A : Type ℓ} (prefix_of : A → Option (List ℕ)) (text : List ℕ) where
  unfoldable pub improves : ℕ → Option (List ℕ) → Bool
  improves bound none = false
  improves bound (some prefix) = has_prefix text prefix && ltb bound (suc (length prefix))

  bound_of : Option (List ℕ) → ℕ
  bound_of none = 0
  bound_of (some prefix) = suc (length prefix)

  unfoldable pub longest_match : Option A → ℕ → List A → Option A
  unfolding bound_of
  longest_match best bound [] = best
  longest_match best bound (a ∷ items) =
      longest_match (if improves bound (prefix_of a) then some a else best)
        (if improves bound (prefix_of a) then bound_of (prefix_of a) else bound) items
