-- ===== src/Map.antt =====
-- kernel/map.c and kernel/include/map.h: the hash map with linear probing. Cells own their key and
-- value; an allocation that fails panics in kalloc and is not modelled here.
pub mod Search
pub mod Lookup
pub mod Update
pub mod Set
use silkware.Base.{
  ℕ, zero, suc, ◌+◌, ◌-◌, ◌*◌, ◌/◌, ◌%◌, ◌^◌, bit_xor, Bool, true, false, ◌&&◌, Option, none, some,
  List, [], ◌∷◌, ◌++◌, length, get_or, set, replicate, ltb, leb, ◌==◌, if◌then◌else◌, u64,
}
use silkware.Base.Exec.{Exec, done, panicked, out_of_fuel, ◌>>=◌}
use silkware.Map.Search.{search}

abbrev pub Bytes : Type 0
Bytes = List ℕ

-- `c[i]` is an `int8_t`, which is sign-extended when it meets the 64-bit `h`.
unfoldable pub sign_extend : ℕ → ℕ
sign_extend b = if ltb b 128 then b else 2 ^ 64 - 256 + b

hash_from : ℕ → Bytes → ℕ
hash_from h [] = h
hash_from h (c ∷ cs) = hash_from (u64 (bit_xor h (sign_extend c) * 0x100000001b3)) cs

unfoldable pub hash : Bytes → ℕ
unfolding hash_from sign_extend
hash cs = hash_from 0xcbf29ce484222325 cs

-- `Flex(int8_t)`
pub record Flex : Type 0 where
  pub n : ℕ
  pub item : Bytes

-- `struct map_item`; `none` is a NULL key.
pub record MapItem : Type 0 where
  pub h : ℕ
  pub k : Option Flex
  pub v : Flex

pub record Map : Type 0 where
  pub max : ℕ
  pub cap : ℕ
  pub cell : List MapItem

-- What `kzalloc` leaves in a cell.
abbrev pub empty_item : MapItem
empty_item = record { h = 0; k = none; v = record { n = 0; item = [] } }

abbrev pub item_at : Map → ℕ → MapItem
item_at m i = get_or m.cell i empty_item

abbrev pub take : ℕ → Bytes → Bytes
take zero xs = []
take (suc n) [] = []
take (suc n) (x ∷ xs) = x ∷ take n xs

abbrev pub drop : ℕ → Bytes → Bytes
drop zero xs = xs
drop (suc n) [] = []
drop (suc n) (x ∷ xs) = drop n xs

-- `memcmp(...) == 0`
unfoldable pub same_bytes : Bytes → Bytes → Bool
same_bytes [] [] = true
same_bytes [] (y ∷ ys) = false
same_bytes (x ∷ xs) [] = false
same_bytes (x ∷ xs) (y ∷ ys) = x == y && same_bytes xs ys

-- The test on a cell that `map_get` and `map_del` share.
unfoldable pub is_match : Bytes → MapItem → Bool
unfolding same_bytes
is_match key item = elim item.k [
  | none ↦ false
  | some f ↦ item.h == hash key && (f.n == length key && same_bytes (take (length key) f.item) key)
]

unfoldable pub is_free : MapItem → Bool
is_free item = elim item.k [ none ↦ true | some _ ↦ false ]

unfoldable pub map_new : ℕ → Map
map_new n =
    let c = if ltb n 8 then 8 else n in record { max = 0; cap = c; cell = replicate c empty_item }

-- The slot of a key among the cells up to `max`, for `map_get` and `map_del`.
unfoldable pub find_slot : Map → Bytes → Exec (Option ℕ)
find_slot m key =
    let idx = hash key % m.cap in
    let start = if ltb m.max idx then m.max else idx in
    if m.max == 0
    then done none
    else search (λ i. is_match key (item_at m i)) (m.max + 1) start (m.max + 1) start

unfoldable pub map_get : Map → Bytes → Exec (Option Bytes)
map_get m key = find_slot m key >>= λ slot. elim slot [
  | none ↦ done none
  | some i ↦ done (some (item_at m i).v.item)
]

unfoldable pub map_del : Map → Bytes → Exec Map
map_del m key = find_slot m key >>= λ slot. elim slot [
  | none ↦ done m
  | some i ↦ done (record m { cell = set m.cell i (record (item_at m i) { k = none }) })
]

-- The first free cell behind the hashed index, or none after a whole round.
unfoldable pub free_slot : Map → Bytes → Exec (Option ℕ)
free_slot m key =
    let idx = hash key % m.cap in search (λ i. is_free (item_at m i)) m.cap idx m.cap idx

abbrev pub flex_of : Bytes → Flex
flex_of bs = record { n = length bs; item = bs }

-- Writing an item at `i`, and `if (i > m->max) m->max = i;`
unfoldable pub put_item : Map → ℕ → MapItem → Map
put_item m i item = record m { max = if ltb m.max i then i else m.max; cell = set m.cell i item }

-- The 8 bytes of a `size_t` in memory, and the number that 8 bytes stand for.
unfoldable pub le_bytes : ℕ → ℕ → Bytes
le_bytes zero x = []
le_bytes (suc k) x = (x % 256) ∷ le_bytes k (x / 256)

unfoldable pub of_le : Bytes → ℕ
of_le [] = 0
of_le (b ∷ bs) = b + 256 * of_le bs

-- `FlexAlloc`, `->n = kn`, and then `memcpy(m->cell[i].k, k, kn)`, which starts at `n` and not at
-- `item`.
unfoldable pub clobbered : Bytes → Flex
unfolding le_bytes of_le
clobbered bs =
    let kn = length bs in
    let raw = bs ++ drop kn (le_bytes 8 kn ++ replicate kn 0) in
    record { n = of_le (take 8 raw); item = drop 8 raw }

-- `while (new->cell[idx].k) idx = (idx + 1) % m->cap;`
unfoldable pub settle : ℕ → Map → ℕ → ℕ → Exec ℕ
settle zero new old_cap idx = out_of_fuel
settle (suc fuel) new old_cap idx =
    let rest = settle fuel new old_cap ((idx + 1) % old_cap) in
    if is_free (item_at new idx) then done idx else rest

-- The `for` loop of `map_grow`, from cell `i` of `m`, with `left` cells to go.
unfoldable pub grow_loop : Map → ℕ → ℕ → Map → Exec Map
grow_loop m i zero new = done new
grow_loop m i (suc left) new =
    let item = item_at m i in
    let moved = settle (m.cap + 2) new m.cap (item.h % new.cap) >>= λ idx.
    grow_loop m (i + 1) left (record new { cell = set new.cell idx item }) in
    let skipped = grow_loop m (i + 1) left new in if is_free item then skipped else moved

unfoldable pub map_grow : Map → ℕ → Exec Map
map_grow m n = if leb n m.cap then done m else grow_loop m 0 (m.max + 1) (map_new n)

-- The part of `map_insert` behind the call of `map_grow`.
unfoldable pub insert_grown : Map → Bytes → Bytes → Exec Map
insert_grown g key v = free_slot g key >>= λ slot. elim slot [
  | none ↦ panicked
  | some i ↦
      if i == hash key % g.cap
      then panicked
      else done (put_item g i (record { h = hash key; k = some (clobbered key); v = clobbered v }))
]

-- `m->cap * 1.5` is a product of doubles cut to an integer.
unfoldable pub map_insert : Map → Bytes → Bytes → Exec Map
map_insert m key v = free_slot m key >>= λ slot. elim slot [
  | some i ↦ done (put_item m i (record { h = hash key; k = some (flex_of key); v = flex_of v }))
  | none ↦ map_grow m (m.cap * 3 / 2) >>= λ g. insert_grown g key v
]

unfoldable pub map_set : Map → Bytes → Bytes → Exec Map
map_set m key v = map_del m key >>= λ m'. map_insert m' key v
