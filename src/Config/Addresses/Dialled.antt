-- ===== src/Config/Addresses/Dialled.antt =====
-- src/addr.go: what DialAddr makes of an address that ParseAddrSpec accepts.
use goxot.Base.{
  ℕ, ◌≡◌, ◌≤◌, refl, Bool, true, false, ◌||◌, List, [], ◌∷◌, Option, none, some, Result, ok, err,
  arith, if◌then◌else◌, ltb→lt, sym, ◌∙◌, inl, inr, ◌⊎◌,
}
use goxot.Base.Texts.{same_text, same_text_iff}
use goxot.Config.Ints.{ℤ, pos, negsuc}
use goxot.Config.Addresses.{
  AddrError, invalid_port, invalid_host_ip, port_number, bare_port, host_is_valid, with_port,
  with_host, not_empty, dial_host, parse_addr_spec, dial_addr,
}

port_number-some : (i : ℤ) (n : ℕ) → port_number i ≡ some n → (i ≡ pos n) × (1 ≤ n) × (n ≤ 65535)
unfolding port_number
port_number-some (pos m) n e = ground (arith, e, ltb→lt m 1, ltb→lt 65535 m)
port_number-some (negsuc m) n e = cc

module _ (atoi : List ℕ → Option ℤ) (show : ℕ → List ℕ)
    (split_host_port : List ℕ → Option (List ℕ × List ℕ))
    (join_host_port : List ℕ → List ℕ → List ℕ) (is_ip : List ℕ → Bool) where
  -- An address that has a host, which may be empty, and a port that is a number from 1 to 65535.
  pub record HasPort (address host : List ℕ) : Type 0 where
    pub port : List ℕ
    pub number : ℕ
    pub parts : split_host_port address ≡ some (host, port)
    pub is_number : atoi port ≡ some (pos number)
    pub low : 1 ≤ number
    pub high : number ≤ 65535

  -- What an accepted address is: empty, a bare port, or the text as it was.
  IsSpec : List ℕ → List ℕ → Type 0
  IsSpec s spec =
      (spec ≡ []) ⊎ HasPort spec [] ⊎ ((spec ≡ s) × ((host : List ℕ) × HasPort spec host))

  module _ (show_atoi : (n : ℕ) → atoi (show n) ≡ some (pos n))
      (split_bare : (n : ℕ) → split_host_port (b':' ∷ show n) ≡ some ([], show n)) where
    bare_port-IsSpec :
        (s spec : List ℕ) (i : ℤ) (o : Option ℕ)
        → port_number i ≡ o
        → bare_port atoi show split_host_port join_host_port is_ip o ≡ ok spec
        → IsSpec s spec
    unfolding bare_port IsSpec
    bare_port-IsSpec s spec i none n e = cc
    bare_port-IsSpec s spec i (some m) n e =
        let (_, low, high) = port_number-some i m n in
        let same : b':' ∷ show m ≡ spec = cc in
        inr (
          inl (record {
            port = show m;
            number = m;
            parts = rw (← same) (split_bare m);
            is_number = show_atoi m;
            low = low;
            high = high;
          }))

    with_port-IsSpec :
        (s spec host port : List ℕ) (o : Option ℤ)
        → split_host_port s ≡ some (host, port)
        → atoi port ≡ o
        → with_port atoi show split_host_port join_host_port is_ip s host o ≡ ok spec
        → IsSpec s spec
    unfolding with_port IsSpec
    with_port-IsSpec s spec host port none parts a e = cc
    with_port-IsSpec s spec host port (some i) parts a e = by_number (port_number i) refl e
      where
        by_number :
            (o : Option ℕ)
            → port_number i ≡ o
            → ◌≡◌ {A = Result AddrError (List ℕ)}
                (elim o [
                  | none ↦ err invalid_port
                  | some n ↦
                      if host_is_valid atoi show split_host_port join_host_port is_ip host
                      then ok s
                      else err invalid_host_ip
                ])
                (ok spec)
            → IsSpec s spec
        by_number none n e = cc
        by_number (some m) n e =
            let (same_i, low, high) = port_number-some i m n in
            let same : s ≡ spec = ground (arith, e) in
            inr (
              inr (
                sym same,
                (
                  host,
                  record {
                    port = port;
                    number = m;
                    parts = rw (← same) parts;
                    is_number = cc (a, same_i);
                    low = low;
                    high = high;
                  },
                ),
              ))

    with_host-IsSpec :
        (s spec : List ℕ) (o : Option (List ℕ × List ℕ))
        → split_host_port s ≡ o
        → with_host atoi show split_host_port join_host_port is_ip s o ≡ ok spec
        → IsSpec s spec
    unfolding with_host
    with_host-IsSpec s spec none p e = cc
    with_host-IsSpec s spec (some (host, port)) p e =
        with_port-IsSpec s spec host port (atoi port) p refl e

    parse_addr_spec-IsSpec :
        (s spec : List ℕ)
        → parse_addr_spec atoi show split_host_port join_host_port is_ip s ≡ ok spec
        → IsSpec s spec
    unfolding parse_addr_spec not_empty IsSpec
    parse_addr_spec-IsSpec s spec e =
        by_empty (same_text s [] || same_text s (b'0' ∷ [])) (atoi s) e
      where
        by_empty :
            (b : Bool) (n : Option ℤ)
            → ◌≡◌ {A = Result AddrError (List ℕ)}
                (if b then ok [] else not_empty atoi show split_host_port join_host_port is_ip s n)
                (ok spec)
            → IsSpec s spec
        by_empty true n e = inl cc
        by_empty false (some i) e = bare_port-IsSpec s spec i (port_number i) refl e
        by_empty false none e = with_host-IsSpec s spec (split_host_port s) refl e

    module _ (ip : List ℕ)
        (split_join : (port : List ℕ) (i : ℤ)
          → atoi port ≡ some i
          → split_host_port (join_host_port ip port) ≡ some (ip, port)) where
      default-HasPort : HasPort (join_host_port ip (show 1998)) ip
      default-HasPort = record {
        port = show 1998;
        number = 1998;
        parts = split_join (show 1998) (pos 1998) (show_atoi 1998);
        is_number = show_atoi 1998;
        low = omega arith;
        high = omega arith;
      }

      dial_host-bare :
          (a : List ℕ)
          → HasPort a []
          → HasPort
              (dial_host atoi show split_host_port join_host_port is_ip a ip (split_host_port a))
              ip
      unfolding dial_host
      dial_host-bare a p = rw p.parts (record {
        port = p.port;
        number = p.number;
        parts = split_join p.port (pos p.number) p.is_number;
        is_number = p.is_number;
        low = p.low;
        high = p.high;
      })

      dial_host-whole :
          (a host : List ℕ)
          → HasPort a host
          → HasPort
              (dial_host atoi show split_host_port join_host_port is_ip a ip (split_host_port a))
              ip
            ⊎ (dial_host atoi show split_host_port join_host_port is_ip a ip (split_host_port a)
                ≡ a)
      unfolding dial_host
      dial_host-whole a [] p = inl (dial_host-bare a p)
      dial_host-whole a (c ∷ host) p = inr (rw p.parts refl)

      -- The address that DialAddr makes of a text that ParseAddrSpec accepts has a port from 1 to
      -- 65535. Its host is the resolved address, or it is the text itself. Atoi reads what the format
      -- %d writes, SplitHostPort gives an empty host and the number for a colon and a number, and
      -- it takes apart what JoinHostPort makes of the resolved address and a number.
      pub dial_addr-HasPort :
          (s spec : List ℕ)
          → parse_addr_spec atoi show split_host_port join_host_port is_ip s ≡ ok spec
          → HasPort (dial_addr atoi show split_host_port join_host_port is_ip spec ip) ip
            ⊎ ((dial_addr atoi show split_host_port join_host_port is_ip spec ip ≡ s)
                × ((host : List ℕ) × HasPort s host))
      unfolding dial_addr IsSpec
      dial_addr-HasPort s spec e =
          by_empty (same_text spec []) refl (parse_addr_spec-IsSpec s spec e)
        where
          by_empty :
              (b : Bool)
              → same_text spec [] ≡ b
              → IsSpec s spec
              → HasPort
                  (if b
                    then join_host_port ip (show 1998)
                    else dial_host atoi show split_host_port join_host_port is_ip spec ip
                        (split_host_port spec))
                  ip
                ⊎ (((if b
                        then join_host_port ip (show 1998)
                        else dial_host atoi show split_host_port join_host_port is_ip spec ip
                            (split_host_port spec))
                      ≡ s)
                    × ((host : List ℕ) × HasPort s host))
          by_empty true _ _ = inl default-HasPort
          by_empty false t (inl empty) = cc (t, (same_text_iff spec []).1 empty)
          by_empty false t (inr (inl p)) = inl (dial_host-bare spec p)
          by_empty false t (inr (inr (same, (host, p)))) = elim (dial_host-whole spec host p) [
            | inl q ↦ inl q
            | inr q ↦ inr (q ∙ same, (host, rw (← same) p))
          ]
