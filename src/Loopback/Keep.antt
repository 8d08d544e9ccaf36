-- ===== src/Loopback/Keep.antt =====
-- src/cmd/tun-loopback/main.go: what keeps the session tables whole, and that no index is out of
-- range.
use goxot.Base.{
  ℕ, zero, suc, subst, ◌≡◌, refl, ◌∙◌, Bool, true, false, List, [], ◌∷◌, Option, none, some,
  if◌then◌else◌, length, length-set, arith, All, ◌≤◌, ◌<◌, get_elem?, set,
}
use goxot.Lci.Scan.{IsRange, advance-IsRange}
use goxot.Loopback.{
  get, place_key, LinkState, down, connecting, operational, TunNode, LoopSession, Place, place_a,
  place_b, Relay, and_then, has_node, in_range, slot, take_out, remove, is_reserved, write_frame,
  write_peer, send_clear, set_node_link, set_link, set_cursor,
}
use goxot.Loopback.Tables.{Tables, Fits, IsFree, live-IsFree, take_out-Tables}

-- A node has its index and gives out the relay's LCIs.
pub record IsReady (start end count : ℕ) (n : TunNode) : Type 0 where
  pub starts : n.lci_start ≡ start
  pub ends : n.lci_end ≡ end
  pub placed : n.idx < count
  pub in_range : IsRange start end n.next_lci

pub record Inv (start end count : ℕ) (r : Relay) : Type 0 where
  pub counted : length r.nodes ≡ count
  pub tables : Tables start end count r
  pub ready : All (IsReady start end count) r.nodes

-- A step that does not panic and keeps the tables.
pub record Kept (start end count : ℕ) (o : Option Relay) : Type 0 where
  pub result : Relay
  pub runs : o ≡ some result
  pub keeps : Inv start end count result

-- A session that can be removed: its places are its own and in range.
abbrev pub IsDead : ℕ → Relay → LoopSession → Type 0
IsDead count r s = IsFree r s × Fits count s

pub IsReady-get :
    (start end count : ℕ) (nodes : List TunNode) (i : ℕ) (n : TunNode)
    → All (IsReady start end count) nodes
    → get_elem? nodes i ≡ some n
    → IsReady start end count n
IsReady-get start end count [] i n a e = ground arith
IsReady-get start end count (m ∷ nodes) zero n a e =
    let h : m ≡ n = ground (arith, e) in subst (IsReady start end count) h a.0
IsReady-get start end count (m ∷ nodes) (suc i) n a e = IsReady-get start end count nodes i n a.1 e

pub IsReady-set :
    (start end count : ℕ) (nodes : List TunNode) (i : ℕ) (n : TunNode)
    → All (IsReady start end count) nodes
    → IsReady start end count n
    → All (IsReady start end count) (set nodes i n)
IsReady-set start end count [] i n a h = tt
IsReady-set start end count (m ∷ nodes) zero n a h = (h, a.1)
IsReady-set start end count (m ∷ nodes) (suc i) n a h =
    (a.0, IsReady-set start end count nodes i n a.1 h)

set_node_link-All :
    (start end count : ℕ) (nodes : List TunNode) (node : ℕ) (state : LinkState)
    → All (IsReady start end count) nodes
    → (o : Option TunNode) → get_elem? nodes node ≡ o
    → All (IsReady start end count) (elim o as (λ o'. List TunNode) [
      | none ↦ nodes
      | some n ↦ set nodes node (record n { link_state = state })
    ])
set_node_link-All start end count nodes node state a none e = a
set_node_link-All start end count nodes node state a (some n) e =
    let h = IsReady-get start end count nodes node n a e in
    IsReady-set start end count nodes node _ a
      (record { starts = h.starts; ends = h.ends; placed = h.placed; in_range = h.in_range })

set_node_link-length :
    (nodes : List TunNode) (node : ℕ) (state : LinkState) (o : Option TunNode)
    → length (elim o as (λ o'. List TunNode) [
      | none ↦ nodes
      | some n ↦ set nodes node (record n { link_state = state })
    ])
      ≡ length nodes
set_node_link-length nodes node state none = refl
set_node_link-length nodes node state (some n) = length-set nodes node _

module _ {start end count : ℕ} where
  -- Only the tables count.
  keep-Tables :
      (r r' : Relay)
      → r'.slots ≡ r.slots
      → r'.used_lci ≡ r.used_lci
      → Tables start end count r
      → Tables start end count r'
  unfolding slot is_reserved
  keep-Tables r r' e f x = record {
    distinct = rw e x.distinct;
    own_place = rw e x.own_place;
    at_a = rw e x.at_a;
    at_b = rw e x.at_b;
    used = rw (e, f) x.used;
    relay_lci = rw e x.relay_lci;
    kernel_lci = rw e x.kernel_lci;
    kernel_pos = rw e x.kernel_pos;
    fits = rw e x.fits;
  }

  pub keep-Inv :
      (r r' : Relay)
      → r'.slots ≡ r.slots
      → r'.used_lci ≡ r.used_lci
      → length r'.nodes ≡ length r.nodes
      → All (IsReady start end count) r'.nodes
      → Inv start end count r
      → Inv start end count r'
  keep-Inv r r' e f l a x = record {
    counted = l ∙ x.counted;
    tables = keep-Tables r r' e f x.tables;
    ready = a;
  }

  -- Steps one after the other.
  pub and_then-Kept :
      {A : Type 0} (P : A → Type 0) (o : Option A) (f : A → Option Relay)
      → (a : A) × (o ≡ some a) × P a
      → ((a : A) → P a → Kept start end count (f a))
      → Kept start end count (and_then o f)
  unfolding and_then
  and_then-Kept P o f (a, e, h) k = rw e (k a h)

  pub some-Kept : (r : Relay) → Inv start end count r → Kept start end count (some r)
  some-Kept r x = record { result = r; runs = refl; keeps = x }

  pub step-Kept :
      (o : Option Relay) (f : Relay → Option Relay)
      → Kept start end count o
      → ((r : Relay) → Inv start end count r → Kept start end count (f r))
      → Kept start end count (and_then o f)
  step-Kept o f h k = and_then-Kept (Inv start end count) o f (h.result, h.runs, h.keeps) k

  pub has_node-Inv :
      (r : Relay) (node : ℕ) → Inv start end count r → node < count → has_node r node ≡ true
  unfolding has_node
  has_node-Inv r node x h = ground (arith, x.counted, h)

  pub in_range-Inv :
      (r : Relay) (p : Place)
      → Inv start end count r
      → p.node < count
      → p.lci < 4096
      → in_range r p ≡ true
  unfolding in_range
  in_range-Inv r p x h k = rw (has_node-Inv r p.node x h) (ground (arith, k))

  pub get-Inv :
      (r : Relay) (p : Place)
      → Inv start end count r
      → p.node < count
      → p.lci < 4096
      → get r p ≡ some (slot r p)
  unfolding get
  get-Inv r p x h k = rw (in_range-Inv r p x h k) refl

  pub remove-Inv :
      (r : Relay) (s : LoopSession)
      → IsDead count r s
      → Inv start end count r
      → (remove r s ≡ some (take_out r s)) × Inv start end count (take_out r s)
  unfolding remove take_out
  remove-Inv r s (f, h) x = (
    rw
        (
          in_range-Inv r (place_a s) x h.node_a h.small_a,
          in_range-Inv r (place_b s) x h.node_b h.small_b,
        )
        refl,
    record { counted = x.counted; tables = take_out-Tables x.tables s f; ready = x.ready },
  )

  pub remove-Kept :
      (r : Relay) (s : LoopSession)
      → IsDead count r s
      → Inv start end count r
      → Kept start end count (remove r s)
  remove-Kept r s h x =
      let (e, y) = remove-Inv r s h x in record { result = take_out r s; runs = e; keeps = y }

  pub live-IsDead :
      (r : Relay) (q : Place) (s : LoopSession)
      → Inv start end count r
      → slot r q ≡ some s
      → IsDead count r s
  live-IsDead r q s x e = (live-IsFree x.tables q s e, x.tables.fits q s e)

  pub write_frame-Inv :
      (r : Relay) (node header : ℕ) (bytes : List ℕ)
      → Inv start end count r
      → Inv start end count (write_frame r node header bytes)
  unfolding write_frame
  write_frame-Inv r node header bytes x = keep-Inv r _ refl refl refl x.ready x

  pub send_clear-Inv :
      (r : Relay) (node gfi lci cause diag : ℕ)
      → Inv start end count r
      → Inv start end count (send_clear r node gfi lci cause diag)
  unfolding send_clear
  send_clear-Inv r node gfi lci cause diag x = write_frame-Inv r node _ _ x

  pub if-Inv :
      (b : Bool) {r r' : Relay}
      → Inv start end count r
      → Inv start end count r'
      → Inv start end count (if b then r else r')
  if-Inv true x y = x
  if-Inv false x y = y

  pub if-Kept :
      (b : Bool) (o o' : Option Relay)
      → (b ≡ true → Kept start end count o)
      → (b ≡ false → Kept start end count o')
      → Kept start end count (if b then o else o')
  if-Kept true o o' f g = f refl
  if-Kept false o o' f g = g refl

  pub write_peer-Kept :
      (r : Relay) (node header : ℕ) (bytes : List ℕ)
      → node < count
      → Inv start end count r
      → Kept start end count (write_peer r node header bytes)
  unfolding write_peer
  write_peer-Kept r node header bytes h x =
      rw (has_node-Inv r node x h) (some-Kept _ (write_frame-Inv r node header bytes x))

  pub set_link-Inv :
      (r : Relay) (node : ℕ) (state : LinkState)
      → Inv start end count r
      → Inv start end count (set_link r node state)
  unfolding set_link set_node_link
  set_link-Inv r node state x =
      keep-Inv r _ refl refl (set_node_link-length r.nodes node state (get_elem? r.nodes node))
        (set_node_link-All start end count r.nodes node state x.ready _ refl) x

  pub by_link-Kept :
      (l : LinkState) {d c o : Option Relay}
      → Kept start end count d
      → Kept start end count c
      → Kept start end count o
      → Kept start end count (elim l [ down ↦ d | connecting ↦ c | operational ↦ o ])
  by_link-Kept down x y z = x
  by_link-Kept connecting x y z = y
  by_link-Kept operational x y z = z

  pub set_cursor-Inv :
      (r : Relay) (n : TunNode) (lci : ℕ)
      → IsReady start end count n
      → start ≤ lci
      → lci ≤ end
      → Inv start end count r
      → Inv start end count (set_cursor r n lci)
  unfolding set_cursor
  set_cursor-Inv r n lci h lo hi x =
      keep-Inv r _ refl refl (length-set r.nodes n.idx _)
        (IsReady-set start end count r.nodes n.idx _ x.ready (record {
          starts = h.starts;
          ends = h.ends;
          placed = h.placed;
          in_range = rw (h.starts, h.ends) (advance-IsRange h.in_range lci lo hi);
        }))
        x
