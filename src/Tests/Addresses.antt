-- ===== src/Tests/Addresses.antt =====
-- src/addr.go at a concrete input: the bare port 2, with numbers written as so many ones.
use goxot.Base.{
  ℕ, zero, suc, ◌≡◌, refl, Bool, true, List, [], ◌∷◌, Option, none, some, ok, ◌==◌, if◌then◌else◌,
  ◌⊎◌,
}
use goxot.Base.Texts.{same_text}
use goxot.Config.Ints.{ℤ, pos}
use goxot.Config.Addresses.{port_number, parse_addr_spec, dial_addr}
use goxot.Config.Addresses.Dialled.{HasPort, dial_addr-HasPort}

abbrev ones : ℕ → List ℕ
ones zero = []
ones (suc n) = 49 ∷ ones n

abbrev size : List ℕ → ℕ
size [] = 0
size (c ∷ text) = suc (size text)

abbrev count : List ℕ → Option ℤ
count [] = some (pos 0)
count (c ∷ text) = if c == 58 then none else some (pos (suc (size text)))

abbrev front : ℕ → Option (List ℕ × List ℕ) → Option (List ℕ × List ℕ)
front c none = none
front c (some (host, port)) = some (c ∷ host, port)

abbrev at_colon : List ℕ → Option (List ℕ × List ℕ)
at_colon [] = none
at_colon (c ∷ text) = let rest = at_colon text in if c == 58 then some ([], text) else front c rest

abbrev join : List ℕ → List ℕ → List ℕ
join [] port = 58 ∷ port
join (c ∷ host) port = c ∷ join host port

abbrev any_ip : List ℕ → Bool
any_ip host = true

size-ones : (n : ℕ) → size (ones n) ≡ n
size-ones zero = refl
size-ones (suc n) = rw (size-ones n) refl

count-ones : (n : ℕ) → count (ones n) ≡ some (pos n)
count-ones zero = refl
count-ones (suc n) = rw (size-ones n) refl

accepted : parse_addr_spec count ones at_colon join any_ip (49 ∷ 49 ∷ []) ≡ ok (58 ∷ 49 ∷ 49 ∷ [])
unfolding parse_addr_spec same_text port_number
accepted = refl

dialled :
    dial_addr count ones at_colon join any_ip (58 ∷ 49 ∷ 49 ∷ []) (7 ∷ []) ≡ 7 ∷ 58 ∷ 49 ∷ 49 ∷ []
unfolding dial_addr same_text
dialled = refl

dial_addr-HasPort_example :
    HasPort count ones at_colon join any_ip
      (dial_addr count ones at_colon join any_ip (58 ∷ 49 ∷ 49 ∷ []) (7 ∷ []))
      (7 ∷ [])
    ⊎ (◌≡◌ {A = List ℕ}
          (dial_addr count ones at_colon join any_ip (58 ∷ 49 ∷ 49 ∷ []) (7 ∷ []))
          (49 ∷ 49 ∷ [])
        × ((host : List ℕ) × HasPort count ones at_colon join any_ip (49 ∷ 49 ∷ []) host))
dial_addr-HasPort_example =
    dial_addr-HasPort count ones at_colon join any_ip count-ones (λ n. refl) (7 ∷ [])
      (λ port i e. refl) (49 ∷ 49 ∷ []) (58 ∷ 49 ∷ 49 ∷ []) accepted
