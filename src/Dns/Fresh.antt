-- ===== src/Dns/Fresh.antt =====
-- src/dns.go: the answers from the cache, over every history of calls.
use goxot.Base.{
  ℕ, ◌+◌, ◌≤◌, ◌<◌, ◌≡◌, ◌≢◌, refl, sym, ◌∙◌, Bool, true, false, List, [], ◌∷◌, Option, none, some,
  Result, ok, err, ltb, if◌then◌else◌, arith, All, inl, inr, ◌⊎◌, ltb→lt,
}
use goxot.Base.Maps.{Map, lookup, lookup-insert}
use goxot.Base.Texts.{text_key, same_text, same_text_iff}
use goxot.Config.Servers.{ServerConfig, is_empty}
use goxot.Dns.{
  DnsCacheEntry, DnsError, cache_seconds, dns_name_of, store, resolve_name, resolve_xot_destination,
}

-- A call: its times, the address and the server.
pub record Query : Type 0 where
  pub now : ℕ
  pub later : ℕ
  pub addr : List ℕ
  pub srv : ServerConfig

module _ {Regexp : Type 0} (compile : List ℕ → Option Regexp)
    (match : Regexp → List ℕ → Option (List (List ℕ))) (replace_all : List ℕ → ℕ → List ℕ → List ℕ)
    (lookup_host : ℕ → List ℕ → Option (List (List ℕ))) where
  -- The resolver gave the addresses for the name, and they are stored since `stored`.
  pub record Looked (name : List ℕ) (ips : List (List ℕ)) (stored : ℕ) : Type 0 where
    pub asked : ℕ
    pub before : asked ≤ stored
    pub answer : lookup_host asked name ≡ some ips
    pub some_ips : ips ≢ []

  abbrev IsFresh : Map (List ℕ) DnsCacheEntry → Type 0
  IsFresh cache =
      (name : List ℕ) (entry : DnsCacheEntry)
      → lookup name cache ≡ some entry
      → (stored : ℕ) × Looked name entry.ips stored × (entry.expiry ≡ stored + 60)

  -- A call keeps the cache fresh, and its answer, when it gives one, is less than 60 seconds old.
  abbrev Kept : ℕ → List ℕ → Map (List ℕ) DnsCacheEntry × Result DnsError (List (List ℕ)) → Type 0
  Kept now name o =
      IsFresh o.0
      × ((ips : List (List ℕ))
          → o.1 ≡ ok ips
          → (stored : ℕ) × Looked name ips stored × (now < stored + 60))

  store-Kept :
      (cache : Map (List ℕ) DnsCacheEntry) (now later : ℕ) (name : List ℕ)
      (o : Option (List (List ℕ)))
      → lookup_host now name ≡ o
      → now ≤ later
      → IsFresh cache
      → Kept now name (store compile match replace_all lookup_host cache name later o)
  unfolding store
  store-Kept cache now later name none e h v = (v, λ ips k. cc)
  store-Kept cache now later name (some []) e h v = (v, λ ips k. cc)
  store-Kept cache now later name (some (ip ∷ ips)) e h v = (
    λ name' entry k.
        by_name name' entry (same_text name name') refl
          (sym (lookup-insert name name' _ cache) ∙ k),
    λ ips' k. let same : ip ∷ ips ≡ ips' = cc in (later, rw (← same) looked, omega (arith, h)),
  )
    where
      looked : Looked name (ip ∷ ips) later
      looked = record { asked = now; before = h; answer = e; some_ips = λ k. cc }

      by_name :
          (name' : List ℕ) (entry : DnsCacheEntry) (b : Bool)
          → same_text name name' ≡ b
          → (if b
              then some (record { ips = ip ∷ ips; expiry = later + cache_seconds })
              else lookup name' cache)
            ≡ some entry
          → (stored : ℕ) × Looked name' entry.ips stored × (entry.expiry ≡ stored + 60)
      by_name name' entry true t k =
          let same : name ≡ name' = (same_text_iff name name').0 t in
          let ips_same : ip ∷ ips ≡ entry.ips = cc in
          let expiry_same : later + cache_seconds ≡ entry.expiry = cc in
          (later, rw (← ips_same) (rw (← same) looked), sym expiry_same)
      by_name name' entry false t k = v name' entry k

  resolve_name-Kept :
      (cache : Map (List ℕ) DnsCacheEntry) (now later : ℕ) (name : List ℕ)
      → now ≤ later
      → IsFresh cache
      → Kept now name (resolve_name compile match replace_all lookup_host cache now later name)
  unfolding resolve_name
  resolve_name-Kept cache now later name h v = by_entry (lookup name cache) refl
    where
      kept :
          Kept now name
            (store compile match replace_all lookup_host cache name later (lookup_host now name))
      kept = store-Kept cache now later name (lookup_host now name) refl h v

      by_time :
          (entry : DnsCacheEntry) (b : Bool)
          → lookup name cache ≡ some entry
          → ltb now entry.expiry ≡ b
          → Kept now name (
              if b
              then (cache, ok entry.ips)
              else store compile match replace_all lookup_host cache name later
                  (lookup_host now name))
      by_time entry true e t =
          let (stored, l, x) = v name entry e in
          (
            v,
            λ ips k.
                let same : entry.ips ≡ ips = cc in
                (stored, rw (← same) l, omega (arith, x, ltb→lt now entry.expiry t)),
          )
      by_time entry false e t = kept

      by_entry :
          (o : Option DnsCacheEntry)
          → lookup name cache ≡ o
          → Kept now name (elim o [
            | none ↦
                store compile match replace_all lookup_host cache name later (lookup_host now name)
            | some entry ↦
                if ltb now entry.expiry
                then (cache, ok entry.ips)
                else store compile match replace_all lookup_host cache name later
                    (lookup_host now name)
          ])
      by_entry none e = kept
      by_entry (some entry) e = by_time entry (ltb now entry.expiry) e refl

  -- What an answer to a call is: the configured address, or young addresses for the name.
  IsAnswer : Query → List (List ℕ) → Type 0
  IsAnswer q ips =
      (ips ≡ q.srv.ip ∷ [])
      ⊎ ((name : List ℕ) × (dns_name_of compile match replace_all lookup_host q.addr q.srv
            ≡ ok name)
          × ((stored : ℕ) × Looked name ips stored × (q.now < stored + cache_seconds)))

  abbrev Answered : Query → Map (List ℕ) DnsCacheEntry × Result DnsError (List (List ℕ)) → Type 0
  Answered q o = IsFresh o.0 × ((ips : List (List ℕ)) → o.1 ≡ ok ips → IsAnswer q ips)

  resolve_xot_destination-Answered :
      (cache : Map (List ℕ) DnsCacheEntry) (q : Query)
      → q.now ≤ q.later
      → IsFresh cache
      → Answered q (
          resolve_xot_destination compile match replace_all lookup_host cache q.now q.later q.addr
            q.srv)
  unfolding resolve_xot_destination IsAnswer
  resolve_xot_destination-Answered cache q h v =
      by_ip (is_empty q.srv.ip) (dns_name_of compile match replace_all lookup_host q.addr q.srv)
        refl
    where
      by_ip :
          (b : Bool) (o : Result DnsError (List ℕ))
          → dns_name_of compile match replace_all lookup_host q.addr q.srv ≡ o
          → Answered q (
              if b
              then elim o [
                | err e ↦ (cache, err e)
                | ok name ↦
                    resolve_name compile match replace_all lookup_host cache q.now q.later name
              ]
              else (cache, ok (q.srv.ip ∷ [])))
      by_ip true (err e) n = (v, λ ips k. cc)
      by_ip true (ok name) n =
          let (fresh, young) = resolve_name-Kept cache q.now q.later name h v in
          (fresh, λ ips k. inr (name, n, young ips k))
      by_ip false o n = (v, λ ips k. inl cc)

  empty-IsFresh : IsFresh []
  unfolding lookup
  empty-IsFresh name entry e = cc

  -- The cache after a history of calls.
  unfoldable pub replay : Map (List ℕ) DnsCacheEntry → List Query → Map (List ℕ) DnsCacheEntry
  replay cache [] = cache
  replay cache (q ∷ qs) =
      replay
        (resolve_xot_destination compile match replace_all lookup_host cache q.now q.later q.addr
          q.srv).0
        qs

  abbrev pub InOrder : Query → Type 0
  InOrder q = q.now ≤ q.later

  replay-IsFresh :
      (cache : Map (List ℕ) DnsCacheEntry) (qs : List Query)
      → All InOrder qs
      → IsFresh cache
      → IsFresh (replay cache qs)
  unfolding replay
  replay-IsFresh cache [] h v = v
  replay-IsFresh cache (q ∷ qs) h v =
      replay-IsFresh
        (resolve_xot_destination compile match replace_all lookup_host cache q.now q.later q.addr
          q.srv).0
        qs h.1 (resolve_xot_destination-Answered cache q h.0 v).0

  -- After any history of calls that starts from the empty cache, each of which stores no earlier than
  -- it looked the cache up, the addresses that a call returns are the configured address of the server
  -- alone; or they are not empty, the resolver gave them for the name that the pattern makes of this
  -- call's address, at or before a time `stored`, and less than 60 seconds passed from `stored` to
  -- the call.
  pub replay_fresh :
      (qs : List Query) (q : Query) (ips : List (List ℕ))
      → All InOrder qs
      → q.now ≤ q.later
      → (resolve_xot_destination compile match replace_all lookup_host
          (replay [] qs)
          q.now
          q.later
          q.addr
          q.srv).1
        ≡ ok ips
      → (ips ≡ q.srv.ip ∷ [])
        ⊎ ((name : List ℕ) × (dns_name_of compile match replace_all lookup_host q.addr q.srv
              ≡ ok name)
            × ((stored : ℕ) × Looked name ips stored × (q.now < stored + cache_seconds)))
  unfolding IsAnswer
  replay_fresh qs q ips hs h k =
      (resolve_xot_destination-Answered (replay [] qs) q h
          (replay-IsFresh [] qs hs empty-IsFresh)).1
        ips k
