-- ===== src/Prefix/Longest.antt =====
-- What the longest prefix match returns.
use goxot.Base.{
  ℕ, suc, ◌≤◌, ◌<◌, ◌≡◌, refl, List, [], ◌∷◌, Option, none, some, ltb, if◌then◌else◌, length, arith,
  All, Bool-cases, ltb→lt, inl, inr, ◌⊎◌, get_elem?, take,
}
use goxot.Prefix.{has_prefix, improves, bound_of, longest_match}

module _ {ℓ} {A : Type ℓ} (prefix_of : A → Option (List ℕ)) (text : List ℕ) where
  prefix_score : Option (List ℕ) → ℕ
  prefix_score none = 0
  prefix_score (some prefix) = if has_prefix text prefix then suc (length prefix) else 0

  -- One more than the length of an item's prefix of the text; 0 where the item is skipped or does
  -- not match.
  unfoldable pub score : A → ℕ
  unfolding prefix_score
  score a = prefix_score (prefix_of a)

  improves_lem :
      (bound : ℕ) (o : Option (List ℕ))
      → improves prefix_of text bound o ≡ ltb bound (prefix_score o)
  unfolding improves prefix_score
  improves_lem bound none = ground arith
  improves_lem bound (some prefix) = ground arith

  bound_of_lem :
      (bound : ℕ) (o : Option (List ℕ))
      → bound < prefix_score o
      → bound_of prefix_of text o ≡ prefix_score o
  unfolding bound_of prefix_score
  bound_of_lem bound none h = absurd (omega arith)
  bound_of_lem bound (some prefix) h = ground arith

  -- `a` is the first item of the best score, and its score is above `bound`.
  pub record IsFirstBest (bound : ℕ) (items : List A) (a : A) : Type ℓ where
    pub index : ℕ
    pub found : get_elem? items index ≡ some a
    pub above : bound < score a
    pub best : All (λ b. score b ≤ score a) items
    pub first : All (λ b. score b < score a) (take index items)

  Outcome : Option A → ℕ → List A → Option A → Type ℓ
  Outcome best bound items o =
      ((o ≡ best) × All (λ b. score b ≤ bound) items)
      ⊎ ((a : A) × (o ≡ some a) × IsFirstBest bound items a)

  longest_match_step :
      (best : Option A) (bound : ℕ) (a : A) (items : List A)
      → longest_match prefix_of text best bound (a ∷ items) ≡ (
          if ltb bound (score a)
          then longest_match prefix_of text (some a) (score a) items
          else longest_match prefix_of text best bound items)
  unfolding longest_match score
  longest_match_step best bound a items =
      elim (Bool-cases (ltb bound (prefix_score (prefix_of a)))) [
        | inl e ↦
            rw
              (
                improves_lem bound (prefix_of a),
                e,
                bound_of_lem bound (prefix_of a) (ltb→lt bound _ e),
              )
              refl
        | inr e ↦ rw (improves_lem bound (prefix_of a), e) refl
      ]

  later :
      (best : Option A) (bound : ℕ) (a : A) (items : List A) (o : Option A)
      → score a ≤ bound
      → Outcome best bound items o
      → Outcome best bound (a ∷ items) o
  unfolding Outcome
  later best bound a items o h (inl (e, all)) = inl (e, (h, all))
  later best bound a items o h (inr (b, e, f)) = inr (
    b,
    e,
    record {
      index = suc f.index;
      found = f.found;
      above = f.above;
      best = (omega (arith, f.above), f.best);
      first = (omega (arith, f.above), f.first);
    },
  )

  now :
      (best : Option A) (bound : ℕ) (a : A) (items : List A) (o : Option A)
      → bound < score a
      → Outcome (some a) (score a) items o
      → Outcome best bound (a ∷ items) o
  unfolding Outcome
  now best bound a items o h (inl (e, all)) =
      inr
        (a, e, record { index = 0; found = refl; above = h; best = (omega arith, all); first = tt })
  now best bound a items o h (inr (b, e, f)) = inr (
    b,
    e,
    record {
      index = suc f.index;
      found = f.found;
      above = omega (arith, f.above);
      best = (omega (arith, f.above), f.best);
      first = (omega (arith, f.above), f.first);
    },
  )

  longest_match-Outcome :
      (best : Option A) (bound : ℕ) (items : List A)
      → Outcome best bound items (longest_match prefix_of text best bound items)
  longest_match-Outcome best bound [] = unfold Outcome longest_match in inl (refl, tt)
  longest_match-Outcome best bound (a ∷ items) = rw (longest_match_step best bound a items) (
      choose (longest_match-Outcome (some a) (score a) items)
        (longest_match-Outcome best bound items))
    where
      choose :
          Outcome (some a) (score a) items (longest_match prefix_of text (some a) (score a) items)
          → Outcome best bound items (longest_match prefix_of text best bound items)
          → Outcome best bound (a ∷ items) (
              if ltb bound (score a)
              then longest_match prefix_of text (some a) (score a) items
              else longest_match prefix_of text best bound items)
      choose p q = elim (Bool-cases (ltb bound (score a))) [
        | inl e ↦ rw e (now best bound a items _ (ltb→lt bound _ e) p)
        | inr e ↦ rw e (later best bound a items _ (ground arith) q)
      ]

  -- The loop returns the first item whose prefix of the text is the longest, and nothing exactly
  -- when no item has a prefix of the text.
  pub longest_match_lem :
      (items : List A)
      → ((longest_match prefix_of text none 0 items ≡ none) × All (λ b. score b ≤ 0) items)
        ⊎ ((a : A) × (longest_match prefix_of text none 0 items ≡ some a) × IsFirstBest 0 items a)
  longest_match_lem items = unfold Outcome in longest_match-Outcome none 0 items
