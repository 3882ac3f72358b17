-- ===== src/Map/Lookup.antt =====
-- Well-formed maps, and what `map_get` finds in them.
use native.Mathlib.Nat.{le_refl}
use silkware.Base.{
  leb, ℕ, ◌+◌, ◌%◌, ◌≤◌, ◌<◌, ◌≡◌, ◌≢◌, ◌↔◌, refl, sym, ◌∙◌, ◌⊎◌, inl, inr, Bool, true, false,
  Option, none, some, [], ◌∷◌, arith, length, ltb, ◌==◌, if◌then◌else◌, Bool-cases, Option-cases,
}
use silkware.Base.Exec.{done}
use silkware.Map.{
  Bytes, hash, Flex, MapItem, Map, item_at, take, same_bytes, is_match, find_slot, map_get,
}
use silkware.Map.Search.{search-Reports, Reports, Ahead}

-- The key that a cell holds.
abbrev pub key_of : MapItem → Option Bytes
key_of item = elim item.k [ none ↦ none | some f ↦ some f.item ]

-- A cell stores the length of its key and the key's hash.
abbrev pub IsStored : MapItem → Type 0
IsStored item = (f : Flex) → item.k ≡ some f → (f.n ≡ length f.item) × (item.h ≡ hash f.item)

pub record IsMap (m : Map) : Type 0 where
  pub cells : length m.cell ≡ m.cap
  pub top : m.max < m.cap
  pub above : (i : ℕ) → m.max < i → key_of (item_at m i) ≡ none
  pub stored : (i : ℕ) → IsStored (item_at m i)
  pub unique :
      (i j : ℕ) (key : Bytes)
      → key_of (item_at m i) ≡ some key
      → key_of (item_at m j) ≡ some key
      → i ≡ j

-- The map, as an abstract table, holds `v` under `key`.
abbrev pub Binds : Map → Bytes → Bytes → Type 0
Binds m key v = (i : ℕ) × (key_of (item_at m i) ≡ some key) × ((item_at m i).v.item ≡ v)

same_bytes_iff : (xs ys : Bytes) → (same_bytes xs ys ≡ true) ↔ (xs ≡ ys)
unfolding same_bytes
same_bytes_iff [] [] = ground arith
same_bytes_iff [] (y ∷ ys) = ground arith
same_bytes_iff (x ∷ xs) [] = ground arith
same_bytes_iff (x ∷ xs) (y ∷ ys) = ground (arith, same_bytes_iff xs ys)

take_all : (xs : Bytes) → take (length xs) xs ≡ xs
take_all [] = refl
take_all (x ∷ xs) = rw (take_all xs)

-- On a stored cell the test of the loops is equality of keys.
is_match_iff :
    (key : Bytes) (item : MapItem)
    → IsStored item
    → (is_match key item ≡ true) ↔ (key_of item ≡ some key)
unfolding is_match
is_match_iff key item st = elim (Option-cases item.k) [
  | inl e ↦ ground arith
  | inr (f, e) ↦
      let (len, hashed) = st f e in
      ground (arith, same_bytes_iff (take (length key) f.item) key, take_all f.item)
]

pub true-ne-false : (b : Bool) → b ≡ true → b ≡ false → ⊥
true-ne-false b p q = cc

none-ne-some : (key : Bytes) → ◌≡◌ {A = Option Bytes} none (some key) → ⊥
none-ne-some key p = cc

lt_or_le : (a b : ℕ) → (a < b) ⊎ (b ≤ a)
lt_or_le a b = omega arith

-- What a lookup returns: the value bound to the key, or that there is none.
abbrev pub IsLookup : Map → Bytes → Option Bytes → Type 0
IsLookup m key none = (v : Bytes) → ¬ Binds m key v
IsLookup m key (some v) = Binds m key v

-- What the search for a slot reports in a well-formed map with `max` above 0.
abbrev pub IsSlot : Map → Bytes → Option ℕ → Type 0
IsSlot m key none = (i : ℕ) → key_of (item_at m i) ≢ some key
IsSlot m key (some i) = (key_of (item_at m i) ≡ some key) × (i ≤ m.max)

module _ {m : Map} (is : IsMap m) (key : Bytes) where
  abbrev start : ℕ
  start = if ltb m.max (hash key % m.cap) then m.max else hash key % m.cap

  IsSlot-of_report :
      (r : Option ℕ)
      → Reports (λ i. is_match key (item_at m i)) (m.max + 1) start start r
      → IsSlot m key r
  IsSlot-of_report none report = λ i same. elim (Bool-cases (leb i m.max)) [
    | inl within ↦
        let ahead : Ahead (m.max + 1) start start i = inr (le_refl _, lt_or_le start i) in
        let miss = report i (ground arith) ahead in
        let hit = (is_match_iff key (item_at m i) (is.stored i)).1 same in true-ne-false _ hit miss
    | inr beyond ↦ none-ne-some key (sym (is.above i (ground arith)) ∙ same)
  ]
  IsSlot-of_report (some i) (hit, range) =
      ((is_match_iff key (item_at m i) (is.stored i)).0 hit, omega arith)

  pub find_slot-IsSlot : m.max ≢ 0 → (r : Option ℕ) × (find_slot m key ≡ done r) × IsSlot m key r
  find_slot-IsSlot pos =
      let above_zero : (m.max == 0) ≡ false = ground arith in
      let (r, run, report) =
        search-Reports (λ i. is_match key (item_at m i)) (m.max + 1) start (m.max + 1) start
          (ground arith) (ground arith) (ground arith) in
      (r, unfold find_slot in rw above_zero run, IsSlot-of_report r report)

  IsLookup-of_slot :
      (slot : Option ℕ)
      → IsSlot m key slot
      → (r : Option Bytes) × ((elim slot [
        | none ↦ done none
        | some i ↦ done (some (item_at m i).v.item)
      ])
          ≡ done r)
        × IsLookup m key r
  IsLookup-of_slot none absent = (none, refl, λ v (i, same, _). absent i same)
  IsLookup-of_slot (some i) (same, le) = (some (item_at m i).v.item, refl, (i, same, refl))

  -- In a well-formed map whose `max` is above 0, map_get ends, and returns the value that the map
  -- holds under the key, or NULL when it holds none.
  pub map_get-IsLookup :
      m.max ≢ 0 → (r : Option Bytes) × (map_get m key ≡ done r) × IsLookup m key r
  unfolding map_get
  map_get-IsLookup pos =
      let (r, run, slot) = find_slot-IsSlot pos in rw run (IsLookup-of_slot r slot)
