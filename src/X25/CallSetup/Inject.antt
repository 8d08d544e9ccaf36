-- ===== src/X25/CallSetup/Inject.antt =====
-- src/x25.go, InjectFacilities: what a call request says after its facilities were changed.
use mathlib.Core.Option.{or_else}
use goxot.Base.{
  ℕ, zero, suc, ◌+◌, ◌/◌, ◌<◌, ◌≡◌, refl, subst, ap, ◌∙◌, List, [], ◌∷◌, Result, ok, ltb, ◌==◌,
  arith, length, take, drop, All, length-take, get_or, Bool-cases, inl, inr, true,
}
use goxot.Base.Bits.{IsByte, and_0f}
use goxot.Base.Maps.{Map, ℕ_key, lookup}
use goxot.Base.Maps.Order.{IsRange, IsRange-All, Distinct}
use goxot.X25.Packet.{X25Packet, call_request, Error}
use goxot.X25.Address.{decode}
use goxot.X25.Address.RoundTrip.{canonical, canonical-decode, length-decode}
use goxot.X25.Facilities.{parse_facilities, merge_facilities}
use goxot.X25.Facilities.RoundTrip.{IsFacility, parse_facilities-encode_facilities}
use goxot.X25.Facilities.Valid.{
  IsSetting, settings, requested, parse_facilities-Valid, merge_facilities-Valid,
  lookup-merge_facilities,
}
use goxot.X25.CallSetup.{
  CallFields, parse_tail, parse_body, parse_payload, parse_call_request, build_payload,
  new_facilities, rebuild, inject_facilities,
}
use goxot.X25.CallSetup.RoundTrip.{parse_payload-build_payload}

-- What holds of every parsed call setup: its parts fit the fields that they came from, and the
-- addresses are digits in lower case.
pub record IsParsed (f : CallFields) : Type 0 where
  pub called_len : length f.called < 16
  pub calling_len : length f.calling < 16
  pub called_digits : canonical f.called ≡ f.called
  pub calling_digits : canonical f.calling ≡ f.calling
  pub facilities_len : length f.facilities < 256
  pub facilities_bytes : All IsByte f.facilities
  pub user_data_bytes : All IsByte f.user_data

All-take : (n : ℕ) (xs : List ℕ) → All IsByte xs → All IsByte (take n xs)
All-take zero xs h = tt
All-take (suc n) [] h = tt
All-take (suc n) (x ∷ xs) h = (h.0, All-take n xs h.1)

All-drop : (n : ℕ) (xs : List ℕ) → All IsByte xs → All IsByte (drop n xs)
All-drop zero xs h = h
All-drop (suc n) [] h = tt
All-drop (suc n) (x ∷ xs) h = All-drop n xs h.1

All-get_or : (xs : List ℕ) (i : ℕ) → All IsByte xs → get_or xs i 0 < 256
All-get_or [] i h = omega arith
All-get_or (x ∷ xs) zero h = h.0
All-get_or (x ∷ xs) (suc i) h = All-get_or xs i h.1

ok-injective : {f g : CallFields} → (let r : Result Error CallFields = ok f in r) ≡ ok g → f ≡ g
ok-injective e = cc

module _ (called calling : List ℕ) (h : length called < 16) (k : length calling < 16)
    (dh : canonical called ≡ called) (dk : canonical calling ≡ calling) where
  parse_tail-IsParsed :
      (offset : ℕ) (tail : List ℕ) (f : CallFields)
      → All IsByte tail
      → parse_tail called calling offset tail ≡ ok f
      → IsParsed f
  unfolding parse_tail
  parse_tail-IsParsed offset [] f b e = subst IsParsed (ok-injective e) (record {
    called_len = h;
    calling_len = k;
    called_digits = dh;
    calling_digits = dk;
    facilities_len = omega arith;
    facilities_bytes = tt;
    user_data_bytes = tt;
  })
  parse_tail-IsParsed offset (fac_len ∷ rest) f b e =
      elim (Bool-cases (ltb (length rest) fac_len)) [
        | inl short ↦ cc (rw short at e)
        | inr fits ↦ subst IsParsed (ok-injective (rw fits at e)) (record {
          called_len = h;
          calling_len = k;
          called_digits = dh;
          calling_digits = dk;
          facilities_len = ground (arith, length-take fac_len rest);
          facilities_bytes = All-take fac_len rest b.1;
          user_data_bytes = All-drop fac_len rest b.1;
        })
      ]

parse_body-IsParsed :
    (m n : ℕ) (body : List ℕ) (f : CallFields)
    → m < 16
    → n < 16
    → All IsByte body
    → parse_body m n body ≡ ok f
    → IsParsed f
unfolding parse_body
parse_body-IsParsed m n body f h k b e = elim (Bool-cases (ltb (length body) total)) [
  | inl short ↦ cc (rw short at e)
  | inr fits ↦
      let size : length (take total body) ≡ total = length-take total body (ground arith) in
      parse_tail-IsParsed (decode (take total body) m 0) (decode (take total body) n m)
        (omega (arith, length-decode (take total body) m 0))
        (omega (arith, length-decode (take total body) n m))
        (canonical-decode (take total body) m 0 (λ i. All-get_or _ i (All-take total body b)))
        (canonical-decode (take total body) n m (λ i. All-get_or _ i (All-take total body b)))
        (1 + total) (drop total body) f (All-drop total body b) (rw fits at e)
]
  where
    total : ℕ
    total = (m + n + 1) / 2

-- Every call setup that parses has fields of the sizes that the format allows.
pub parse_payload-IsParsed :
    (payload : List ℕ) (f : CallFields)
    → All IsByte payload
    → parse_payload payload ≡ ok f
    → IsParsed f
unfolding parse_payload
parse_payload-IsParsed [] f b e = cc
parse_payload-IsParsed (addr_lens ∷ body) f b e =
    parse_body-IsParsed _ _ body f (omega (arith, and_0f addr_lens b.0)) (omega arith) b.1 e

-- The packet that InjectFacilities leaves, for a call request that parses.
module _ (range : Map ℕ (List ℕ) → Map ℕ (List ℕ)) (new : List (List ℕ × List ℕ)) (p : X25Packet)
    (f : CallFields) where
  injected : X25Packet
  injected = record p {
    payload = build_payload f.called f.calling (new_facilities range new f.facilities) f.user_data;
  }

  inject_facilities-injected :
      parse_call_request p ≡ ok f → inject_facilities range new p ≡ ok injected
  unfolding inject_facilities rebuild injected parse_call_request
  inject_facilities-injected e = elim (Bool-cases (p.type == call_request)) [
    | inl t ↦ rw (e, t) refl
    | inr t ↦ cc (rw t at e)
  ]

-- What InjectFacilities does to a call request that parses, for settings that decode to facilities
-- of the right length and an updated field of less than 256 bytes: it succeeds, the header stays,
-- and the new packet parses to the old addresses and the old user data. Read back, each code in the
-- new field has the value of the last setting that asks for it, or else the one that it had.
pub inject_facilities_lem :
    (range : Map ℕ (List ℕ) → Map ℕ (List ℕ)) (new : List (List ℕ × List ℕ)) (p : X25Packet)
    (f : CallFields)
    → All IsByte p.payload
    → parse_call_request p ≡ ok f
    → All IsSetting (settings new)
    → ((m : Map ℕ (List ℕ)) → Distinct m → IsRange m (range m))
    → length (new_facilities range new f.facilities) < 256
    → (q : X25Packet) × (inject_facilities range new p ≡ ok q)
      × (q.gfi ≡ p.gfi)
      × (q.lci ≡ p.lci)
      × (q.type ≡ p.type)
      × (parse_call_request q
          ≡ ok (record f { facilities = new_facilities range new f.facilities }))
      × ((code : ℕ)
          → lookup code (parse_facilities (new_facilities range new f.facilities))
            ≡ or_else (requested code (settings new)) (lookup code (parse_facilities f.facilities)))
inject_facilities_lem range new p f b e s ordered fits = (
  injected range new p f,
  inject_facilities-injected range new p f e,
  unfold injected in refl,
  unfold injected in refl,
  unfold injected in refl,
  reparsed,
  λ code. ap (lookup code) same ∙ r.agrees code ∙ lookup-merge_facilities code new old,
)
  where
    parts : (p.type == call_request) ≡ true × (parse_payload p.payload ≡ ok f)
    parts =
        unfold parse_call_request in
        elim (Bool-cases (p.type == call_request)) [
          | inl t ↦ (t, rw t at e)
          | inr t ↦ cc (rw t at e)
        ]

    v : IsParsed f
    v = parse_payload-IsParsed p.payload f b parts.1

    old : Map ℕ (List ℕ)
    old = parse_facilities f.facilities

    valid : All IsFacility (merge_facilities new old) × Distinct (merge_facilities new old)
    valid =
        let w = parse_facilities-Valid f.facilities v.facilities_bytes in
        merge_facilities-Valid new old s w.0 w.1

    r : IsRange (merge_facilities new old) (range (merge_facilities new old))
    r = ordered (merge_facilities new old) valid.1

    same :
        parse_facilities (new_facilities range new f.facilities) ≡ range (merge_facilities new old)
    same =
        unfold new_facilities in
        parse_facilities-encode_facilities _ r.distinct
          (IsRange-All IsFacility (merge_facilities new old) _ r valid.0)

    reparsed :
        parse_call_request (injected range new p f)
        ≡ ok (record f { facilities = new_facilities range new f.facilities })
    reparsed =
        unfold parse_call_request injected in
        rw
          (
            parts.0,
            parse_payload-build_payload f.called f.calling (new_facilities range new f.facilities)
                f.user_data v.called_len v.calling_len fits,
            v.called_digits,
            v.calling_digits,
          )
          refl
