-- ===== src/Bridge/Calls/Placed.antt =====
-- src/cmd/xot-server/main.go, src/cmd/xot-gateway/main.go: which calls are placed, and what is sent
-- on for them.
use goxot.Base.{
  ℕ, ◌≡◌, refl, ◌∙◌, Bool, true, false, List, [], ◌∷◌, Option, none, some, Result, ok, err, ◌==◌,
  if◌then◌else◌, arith, inl, inr, ◌⊎◌,
}
use goxot.X25.Packet.{
  X25Packet, Error, serialize, parse_x25, validate_size, get_base_type, call_request,
  cause_local_procedure_error,
}
use goxot.X25.Create.{create_clear_request}
use goxot.Bridge.Relay.{diag_packet_too_long}
use goxot.X25.CallSetup.{CallFields, parse_call_request}
use goxot.Xot.{
  XotError, too_long, no_connection, end_of_input, bad_version, wrong_length, small_buffer,
}
use goxot.Bridge.Calls.{
  Decision, ignored, ended, refused, placed, refuse, refuse_long, read_failed, screen_call,
  screen_packet, screen, await,
}

abbrev pub IsRead : Result XotError (List ℕ) → List (Result XotError (List ℕ)) → Type 0
IsRead r [] = ⊥
IsRead r (s ∷ reads) = (r ≡ s) ⊎ IsRead r reads

-- A call that passed the tests.
pub record Screened (bytes : List ℕ) (pkt : X25Packet) (f : CallFields) : Type 0 where
  pub parsed : parse_x25 bytes ≡ ok pkt
  pub fits : validate_size pkt ≡ none
  pub is_call : get_base_type pkt ≡ call_request
  pub fields : parse_call_request pkt ≡ ok f

Result-cases {ℓ κ} :
    {E : Type κ} {A : Type ℓ} (r : Result E A) → ((e : E) × (r ≡ err e)) ⊎ ((a : A) × (r ≡ ok a))
Result-cases (err e) = inl (e, refl)
Result-cases (ok a) = inr (a, refl)

module _ {D : Type 0} (route : List ℕ → X25Packet → CallFields → Decision D) (dest : D)
    (gfi lci : ℕ) (out : List ℕ) where
  read_failed-placed : (e : XotError) → read_failed e ≡ placed dest gfi lci out → ⊥
  unfolding read_failed refuse_long refuse
  read_failed-placed (too_long head) h = elim (Result-cases (parse_x25 head)) [
    | inl (e, eq) ↦ cc (rw (eq, refuse_long) at h)
    | inr (pkt, eq) ↦ cc (rw (eq, refuse_long) at h)
  ]
  read_failed-placed no_connection h = cc
  read_failed-placed end_of_input h = cc
  read_failed-placed (bad_version n) h = cc
  read_failed-placed (wrong_length n m) h = cc
  read_failed-placed (small_buffer n m) h = cc

  abbrev Found : List ℕ → Type 0
  Found bytes =
      (pkt : X25Packet) × (f : CallFields) × Screened bytes pkt f
      × (route bytes pkt f ≡ placed dest gfi lci out)

  screened : (bytes : List ℕ) → screen route (ok bytes) ≡ placed dest gfi lci out → Found bytes
  unfolding screen screen_packet screen_call refuse
  screened bytes h = by_parse (parse_x25 bytes) refl h
    where
      by_fields :
          (pkt : X25Packet) (r : Result Error CallFields)
          → parse_x25 bytes ≡ ok pkt
          → validate_size pkt ≡ none
          → get_base_type pkt ≡ call_request
          → parse_call_request pkt ≡ r
          → screen_call route bytes pkt r ≡ placed dest gfi lci out
          → Found bytes
      by_fields pkt (err e) p v t e' h = cc
      by_fields pkt (ok f) p v t e' h =
          (pkt, f, record { parsed = p; fits = v; is_call = t; fields = e' }, h)

      by_type :
          (pkt : X25Packet) (b : Bool)
          → parse_x25 bytes ≡ ok pkt
          → validate_size pkt ≡ none
          → (get_base_type pkt == call_request) ≡ b
          → (if b then screen_call route bytes pkt (parse_call_request pkt) else ignored)
            ≡ placed dest gfi lci out
          → Found bytes
      by_type pkt true p v t h =
          by_fields pkt (parse_call_request pkt) p v (ground (arith, t)) refl h
      by_type pkt false p v t h = cc

      by_size :
          (pkt : X25Packet) (o : Option Error)
          → parse_x25 bytes ≡ ok pkt
          → validate_size pkt ≡ o
          → (elim o [
            | some e ↦ refused (
                serialize (
                  create_clear_request pkt.gfi pkt.lci cause_local_procedure_error
                    diag_packet_too_long))
            | none ↦
                if get_base_type pkt == call_request
                then screen_call route bytes pkt (parse_call_request pkt)
                else ignored
          ])
            ≡ placed dest gfi lci out
          → Found bytes
      by_size pkt (some e) p v h = cc
      by_size pkt none p v h = by_type pkt (get_base_type pkt == call_request) p v refl h

      by_parse :
          (r : Result Error X25Packet)
          → parse_x25 bytes ≡ r
          → elim r [ err e ↦ ignored | ok pkt ↦ screen_packet route bytes pkt ]
            ≡ placed dest gfi lci out
          → Found bytes
      by_parse (err e) p h = cc
      by_parse (ok pkt) p h = by_size pkt (validate_size pkt) p refl h

  -- The read that placed the call.
  pub await-placed :
      (reads : List (Result XotError (List ℕ)))
      → await route reads ≡ placed dest gfi lci out
      → (bytes : List ℕ) × IsRead (ok bytes) reads × Found bytes
  unfolding await
  await-placed [] h = cc
  await-placed (r ∷ reads) h = by_screen r (screen route r) refl (λ k. await-placed reads k) h
    where
      by_read :
          (r : Result XotError (List ℕ))
          → screen route r ≡ placed dest gfi lci out
          → (bytes : List ℕ) × (ok bytes ≡ r) × Found bytes
      by_read (err e) k = absurd (read_failed-placed e (unfold screen in k))
      by_read (ok bytes) k = (bytes, refl, screened bytes k)

      by_screen :
          (r : Result XotError (List ℕ)) (d : Decision D)
          → screen route r ≡ d
          → (await route reads ≡ placed dest gfi lci out
              → (bytes : List ℕ) × IsRead (ok bytes) reads × Found bytes)
          → elim d [
            | ignored ↦ await route reads
            | ended ↦ ended
            | refused packet ↦ refused packet
            | placed dest gfi lci bytes ↦ placed dest gfi lci bytes
          ]
            ≡ placed dest gfi lci out
          → (bytes : List ℕ) × ((ok bytes ≡ r) ⊎ IsRead (ok bytes) reads) × Found bytes
      by_screen r ignored e rest k = let (bytes, m, found) = rest k in (bytes, inr m, found)
      by_screen r ended e rest k = cc
      by_screen r (refused packet) e rest k = cc
      by_screen r (placed d g l o) e rest k =
          let (bytes, m, found) = by_read r (e ∙ k) in (bytes, inl m, found)
