-- ===== src/Tests/Names.antt =====
-- src/dns.go at concrete inputs: a name is looked up, and the second call takes it from the cache.
use goxot.Base.{
  ℕ, ◌≡◌, refl, List, [], ◌∷◌, Option, none, some, Result, ok, arith, ◌⊎◌, ◌<◌, ◌+◌, ◌==◌, ltb,
  if◌then◌else◌, ◌++◌,
}
use goxot.Base.Maps.{lookup, insert}
use goxot.Base.Texts.{same_text}
use goxot.Config.Ints.{pos}
use goxot.Config.Servers.{ServerConfig}
use goxot.Dns.{
  DnsError, expand, submatches, dns_name_of, store, resolve_name, resolve_xot_destination,
}
use goxot.Dns.Fresh.{Query, Looked, replay, replay_fresh}

-- The patterns are bytes that an address starts with, and the rest is the one submatch.
abbrev compile : List ℕ → Option ℕ
compile [] = none
compile (c ∷ text) = some c

abbrev match : ℕ → List ℕ → Option (List (List ℕ))
match c [] = none
match c (b ∷ rest) = if c == b then some ((b ∷ rest) ∷ rest ∷ []) else none

abbrev replace_all : List ℕ → ℕ → List ℕ → List ℕ
replace_all name i m = name ++ m

abbrev lookup_host : ℕ → List ℕ → Option (List (List ℕ))
lookup_host now name = if ltb now 20 then some ((1 ∷ []) ∷ []) else some ((2 ∷ []) ∷ [])

abbrev server : ServerConfig
server = record {
  prefix = [];
  ip = [];
  port = [];
  dns_pattern = 49 ∷ [];
  dns_name = 120 ∷ [];
  tcp_keepalive_interval = none;
  x25_keepalive_interval = pos 0;
}

abbrev first : Query
first = record { now = 10; later = 12; addr = 49 ∷ 50 ∷ []; srv = server }

abbrev second : Query
second = record first { now = 71; later = 71 }

abbrev third : Query
third = record first { now = 72; later = 73 }

abbrev answer : List Query → Query → Result DnsError (List (List ℕ))
answer qs q =
    (resolve_xot_destination compile match replace_all lookup_host
      (replay compile match replace_all lookup_host [] qs) q.now q.later q.addr q.srv).1

-- The last second of the entry, and the first one after it.
from_cache : answer (first ∷ []) second ≡ ok ((1 ∷ []) ∷ [])
unfolding replay resolve_xot_destination resolve_name store dns_name_of expand submatches lookup
    insert same_text
from_cache = refl

expired : answer (first ∷ []) third ≡ ok ((2 ∷ []) ∷ [])
unfolding replay resolve_xot_destination resolve_name store dns_name_of expand submatches lookup
    insert same_text
expired = refl

replay_fresh_example :
    ◌≡◌ {A = List (List ℕ)} ((1 ∷ []) ∷ []) ([] ∷ [])
    ⊎ ((name : List ℕ) × (dns_name_of compile match replace_all lookup_host second.addr second.srv
          ≡ ok name)
        × ((stored : ℕ) × Looked compile match replace_all lookup_host name ((1 ∷ []) ∷ []) stored
            × (71 < stored + 60)))
replay_fresh_example =
    replay_fresh compile match replace_all lookup_host (first ∷ []) second ((1 ∷ []) ∷ [])
      (omega arith, tt) (omega arith) from_cache
