-- ===== src/Config/Tun/Bounds.antt =====
-- src/config.go: what holds of the LCI range and the modulus after Reload.
use goxot.Base.{
  subst, ◌↔◌, ℕ, zero, suc, ◌≤◌, ◌<◌, ◌≡◌, refl, true, not, if◌then◌else◌, ltb, arith, ◌⊎◌, inl,
  inr, Bool-cases, ltb→lt,
}
use goxot.Config.Ints.{ℤ, pos, negsuc, lt_int}
use goxot.Config.Tun.{
  TunConfig, lci_start_default, lci_end_default, start_of, end_of, modulo_of, with_defaults,
}

-- The LCIs from `start` to `end`, two at least, are LCIs of calls, and windows count modulo 8 or 128.
pub record IsUsable (c : TunConfig) : Type 0 where
  pub start : ℕ
  pub end : ℕ
  pub is_start : c.lci_start ≡ pos start
  pub is_end : c.lci_end ≡ pos end
  pub low : 1 ≤ start
  pub ordered : start < end
  pub high : end ≤ 4095
  pub is_modulo : (c.modulo ≡ pos 8) ⊎ (c.modulo ≡ pos 128)

start_of_lem : (n : ℤ) → (s : ℕ) × (start_of n ≡ pos s) × (1 ≤ s)
unfolding start_of
start_of_lem (pos zero) = (1024, refl, omega arith)
start_of_lem (pos (suc n)) = (suc n, ground arith, omega arith)
start_of_lem (negsuc n) = (1, refl, omega arith)

end_of_lem :
    (n : ℤ) → ((e : ℕ) × (end_of n ≡ pos e) × (e ≤ 4095)) ⊎ ((e : ℕ) × (end_of n ≡ negsuc e))
unfolding end_of
end_of_lem (pos zero) = inl (2048, refl, omega arith)
end_of_lem (pos (suc n)) = elim (Bool-cases (ltb 4095 (suc n))) [
  | inl e ↦ inl (4095, ground arith, omega arith)
  | inr e ↦ inl (suc n, ground arith, ground arith)
]
end_of_lem (negsuc n) = inr (n, refl)

modulo_of_lem : (m : ℤ) → (modulo_of m ≡ pos 8) ⊎ (modulo_of m ≡ pos 128)
unfolding modulo_of
modulo_of_lem (pos n) = ground arith
modulo_of_lem (negsuc n) = inl refl

-- The range is reset when it is empty.
range_lem :
    (start end modulo : ℤ) (s : ℕ)
    → start ≡ pos s
    → 1 ≤ s
    → ((e : ℕ) × (end ≡ pos e) × (e ≤ 4095)) ⊎ ((e : ℕ) × (end ≡ negsuc e))
    → (modulo ≡ pos 8) ⊎ (modulo ≡ pos 128)
    → IsUsable (
        if not (lt_int start end)
        then record { lci_start = lci_start_default; lci_end = lci_end_default; modulo = modulo }
        else record { lci_start = start; lci_end = end; modulo = modulo })
range_lem start end modulo s h low (inr (e, k)) m =
    rw (h, k)
      (record {
        start = 1024;
        end = 2048;
        is_start = refl;
        is_end = refl;
        low = omega arith;
        ordered = omega arith;
        high = omega arith;
        is_modulo = m;
      })
range_lem start end modulo s h low (inl (e, k, high)) m = elim (Bool-cases (ltb s e)) [
  | inl b ↦
      rw (h, k, b)
        (record {
          start = s;
          end = e;
          is_start = refl;
          is_end = refl;
          low = low;
          ordered = ltb→lt s e b;
          high = high;
          is_modulo = m;
        })
  | inr b ↦
      rw (h, k, b)
        (record {
          start = 1024;
          end = 2048;
          is_start = refl;
          is_end = refl;
          low = omega arith;
          ordered = omega arith;
          high = omega arith;
          is_modulo = m;
        })
]

start_of_usable : (s : ℕ) → 1 ≤ s → start_of (pos s) ≡ pos s
unfolding start_of
start_of_usable s h = ground arith

end_of_usable : (e : ℕ) → 1 ≤ e → e ≤ 4095 → end_of (pos e) ≡ pos e
unfolding end_of
end_of_usable e h k = ground arith

modulo_of_usable : (m : ℤ) → (m ≡ pos 8) ⊎ (m ≡ pos 128) → modulo_of m ≡ m
unfolding modulo_of
modulo_of_usable m (inl e) = rw e refl
modulo_of_usable m (inr e) = rw e refl

same_range :
    (start end modulo : ℤ) (s e : ℕ)
    → start ≡ pos s
    → end ≡ pos e
    → (modulo ≡ pos 8) ⊎ (modulo ≡ pos 128)
    → 1 ≤ s
    → s < e
    → e ≤ 4095
    → with_defaults (record { lci_start = start; lci_end = end; modulo = modulo })
      ≡ record { lci_start = start; lci_end = end; modulo = modulo }
unfolding with_defaults
same_range start end modulo s e h k m low ordered high =
    let b : ltb s e ≡ true = ground arith in
    rw
      (
        h,
        k,
        start_of_usable s low,
        end_of_usable e (omega arith) high,
        modulo_of_usable modulo m,
        b,
      )
      refl

pub with_defaults-IsUsable : (c : TunConfig) → IsUsable (with_defaults c)
unfolding with_defaults
with_defaults-IsUsable c =
    let s = start_of_lem c.lci_start in
    range_lem _ _ _ s.0 s.1 s.2 (end_of_lem c.lci_end) (modulo_of_lem c.modulo)

-- A usable configuration is used as it is.
pub with_defaults_usable : (c : TunConfig) → IsUsable c → with_defaults c ≡ c
with_defaults_usable c u =
    same_range _ _ _ u.start u.end u.is_start u.is_end u.is_modulo u.low u.ordered u.high

-- Whatever LCI range and modulus the file has, the defaults and the checks make usable ones of them:
-- two LCIs at least, from 1 to 4095, and a modulus of 8 or 128; and a range and a modulus are left as
-- they are exactly when they are usable already.
pub with_defaults_lem :
    (c : TunConfig) → IsUsable (with_defaults c) × (IsUsable c ↔ (with_defaults c ≡ c))
with_defaults_lem c = (
  with_defaults-IsUsable c,
  (with_defaults_usable c, λ e. subst IsUsable e (with_defaults-IsUsable c)),
)
