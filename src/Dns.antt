-- ===== src/Dns.antt =====
-- src/dns.go: the addresses of a server for a call, and the cache of names. The regular expression,
-- the replacement of a placeholder and the resolver are parameters. A name is looked up at one time
-- and stored at a later one, in seconds.
pub mod Fresh
use goxot.Base.{
  ℕ, suc, ◌+◌, Bool, true, false, List, [], ◌∷◌, Option, none, some, Result, ok, err, ltb, ◌==◌,
  if◌then◌else◌,
}
use goxot.Base.Maps.{Map, lookup, insert}
use goxot.Base.Texts.{text_key}
use goxot.Config.Servers.{ServerConfig, is_empty}

pub record DnsCacheEntry : Type 0 where
  pub ips : List (List ℕ)
  pub expiry : ℕ

pub data DnsError : Type 0 where
  invalid_pattern no_match lookup_failed no_addresses : DnsError

abbrev pub cache_seconds : ℕ
cache_seconds = 60

-- `compile pattern` is `none` for a bad pattern, and `match` gives the submatches of an address, the
-- whole match first.
module _ {Regexp : Type 0} (compile : List ℕ → Option Regexp)
    (match : Regexp → List ℕ → Option (List (List ℕ))) (replace_all : List ℕ → ℕ → List ℕ → List ℕ)
    (lookup_host : ℕ → List ℕ → Option (List (List ℕ))) where
  -- The i-th placeholder is replaced by the i-th submatch, from 1 on.
  unfoldable pub expand : ℕ → List (List ℕ) → List ℕ → List ℕ
  expand i [] name = name
  expand i (m ∷ matches) name = expand (suc i) matches (replace_all name i m)

  unfoldable pub submatches : List (List ℕ) → List (List ℕ)
  submatches [] = []
  submatches (whole ∷ matches) = matches

  -- The name of a server for an address.
  unfoldable pub dns_name_of : List ℕ → ServerConfig → Result DnsError (List ℕ)
  unfolding submatches
  dns_name_of addr srv = elim (compile srv.dns_pattern) [
    | none ↦ err invalid_pattern
    | some re ↦ elim (match re addr) [
      | none ↦ err no_match
      | some matches ↦ ok (expand 1 (submatches matches) srv.dns_name)
    ]
  ]

  unfoldable pub store :
      Map (List ℕ) DnsCacheEntry
      → List ℕ
      → ℕ
      → Option (List (List ℕ))
      → Map (List ℕ) DnsCacheEntry × Result DnsError (List (List ℕ))
  store cache name later none = (cache, err lookup_failed)
  store cache name later (some []) = (cache, err no_addresses)
  store cache name later (some (ip ∷ ips)) =
      (insert name (record { ips = ip ∷ ips; expiry = later + cache_seconds }) cache, ok (ip ∷ ips))

  unfoldable pub resolve_name :
      Map (List ℕ) DnsCacheEntry
      → ℕ
      → ℕ
      → List ℕ
      → Map (List ℕ) DnsCacheEntry × Result DnsError (List (List ℕ))
  unfolding store
  resolve_name cache now later name = elim (lookup name cache) [
    | none ↦ store cache name later (lookup_host now name)
    | some entry ↦
        if ltb now entry.expiry
        then (cache, ok entry.ips)
        else store cache name later (lookup_host now name)
  ]

  unfoldable pub resolve_xot_destination :
      Map (List ℕ) DnsCacheEntry
      → ℕ
      → ℕ
      → List ℕ
      → ServerConfig
      → Map (List ℕ) DnsCacheEntry × Result DnsError (List (List ℕ))
  resolve_xot_destination cache now later addr srv =
      if is_empty srv.ip
      then elim (dns_name_of addr srv) [
        | err e ↦ (cache, err e)
        | ok name ↦ resolve_name cache now later name
      ]
      else (cache, ok (srv.ip ∷ []))
