-- ===== src/Map/Update.antt =====
-- `map_insert` with room, `map_del` and `map_set` on well-formed maps.
use native.Mathlib.Nat.{le_refl, mod-lt}
use silkware.Base.{
  ℕ, ◌%◌, ◌≤◌, ◌<◌, ◌≡◌, ◌≢◌, ◌↔◌, refl, ap, ◌∙◌, ◌⊎◌, inl, inr, true, false, Option, none, some,
  List, arith, length, get_or, set, length-set, get_or-set_self, get_or-set_ne, ◌==◌, if◌then◌else◌,
  Bool-cases, Option-cases,
}
use silkware.Base.Exec.{done}
use silkware.Map.{
  Bytes, hash, MapItem, Map, empty_item, item_at, flex_of, is_free, put_item, find_slot, free_slot,
  map_insert, map_del,
}
use silkware.Map.Search.{search, search-Reports, Reports}
use silkware.Map.Lookup.{key_of, IsStored, IsMap, Binds, IsSlot, find_slot-IsSlot, true-ne-false}

-- What the cells hold after one of them is written.
pub get_or-set :
    (xs : List MapItem) (i j : ℕ) (x : MapItem)
    → i < length xs
    → get_or (set xs i x) j empty_item ≡ (if j == i then x else get_or xs j empty_item)
get_or-set xs i j x h = elim (Bool-cases (j == i)) [
  | inl same ↦ let e : j ≡ i = ground arith in rw same (rw e (get_or-set_self xs i x empty_item h))
  | inr other ↦ rw other (get_or-set_ne xs i j x empty_item (ground arith))
]

is_free_iff : (item : MapItem) → (is_free item ≡ true) ↔ (key_of item ≡ none)
unfolding is_free
is_free_iff item = elim (Option-cases item.k) [ inl e ↦ ground arith | inr (f, e) ↦ ground arith ]

-- A free cell of a well-formed map.
abbrev pub IsRoom : Map → ℕ → Type 0
IsRoom m i = (i < m.cap) × (key_of (item_at m i) ≡ none)

abbrev pub Absent : Map → Bytes → Type 0
Absent m key = (i : ℕ) → key_of (item_at m i) ≢ some key

-- `m'` holds `v` under `key` and otherwise what `m` holds.
abbrev pub Extends : Map → Bytes → Bytes → Map → Type 0
Extends m key v m' = (k w : Bytes) → Binds m' k w ↔ (((k ≡ key) × (w ≡ v)) ⊎ Binds m k w)

-- `m'` holds what `m` holds, less what stands under `key`.
abbrev pub Without : Map → Bytes → Map → Type 0
Without m key m' = (k w : Bytes) → Binds m' k w ↔ ((k ≢ key) × Binds m k w)

module _ {m : Map} (is : IsMap m) (key v : Bytes) (i : ℕ) (room : IsRoom m i)
    (absent : Absent m key) where
  abbrev new_item : MapItem
  new_item = record { h = hash key; k = some (flex_of key); v = flex_of v }

  abbrev put : Map
  put = put_item m i new_item

  item_at-put : (j : ℕ) → item_at put j ≡ (if j == i then new_item else item_at m j)
  unfolding put_item
  item_at-put j = get_or-set m.cell i j new_item (rw is.cells room.0)

  put-IsStored : (j : ℕ) → IsStored (item_at put j)
  put-IsStored j f e = ground (arith, item_at-put j, is.stored j f)

  put-IsMap : IsMap put
  put-IsMap = record {
    cells = unfold put_item in (length-set m.cell i new_item ∙ is.cells);
    top = unfold put_item in ground (arith, is.top);
    above = unfold put_item in (λ j h. ground (arith, item_at-put j, is.above j));
    stored = put-IsStored;
    unique = λ a b k p q.
        ground (arith, item_at-put a, item_at-put b, is.unique a b k, absent a, absent b);
  }

  put_to : (k w : Bytes) → Binds put k w → ((k ≡ key) × (w ≡ v)) ⊎ Binds m k w
  put_to k w (j, e, ev) = elim (Bool-cases (j == i)) [
    | inl same ↦ inl (ground (arith, item_at-put j), ground (arith, item_at-put j))
    | inr other ↦ inr (j, ground (arith, item_at-put j), ground (arith, item_at-put j))
  ]

  put_from : (k w : Bytes) → ((k ≡ key) × (w ≡ v)) ⊎ Binds m k w → Binds put k w
  put_from k w (inl (ek, ev)) = (i, ground (arith, item_at-put i), ground (arith, item_at-put i))
  put_from k w (inr (j, e, ev)) =
      (j, ground (arith, item_at-put j, room.1), ground (arith, item_at-put j, room.1))

  put-Extends : Extends m key v put
  put-Extends k w = (put_to k w, put_from k w)

  map_insert-put : free_slot m key ≡ done (some i) → map_insert m key v ≡ done put
  unfolding map_insert
  map_insert-put e = rw e

module _ {m : Map} (is : IsMap m) (key : Bytes) where
  -- With a free cell the search for one finds one.
  free_slot-IsRoom : (j : ℕ) → IsRoom m j → (i : ℕ) × (free_slot m key ≡ done (some i)) × IsRoom m i
  free_slot-IsRoom j room =
      let idx = hash key % m.cap in
      let (r, run, report) =
        search-Reports (λ i. is_free (item_at m i)) m.cap idx m.cap idx
          (mod-lt (hash key) (omega arith)) (mod-lt (hash key) (omega arith)) (ground arith) in
      found r run report
    where
      found :
          (r : Option ℕ)
          → search (λ i. is_free (item_at m i)) m.cap (hash key % m.cap) m.cap (hash key % m.cap)
            ≡ done r
          → Reports (λ i. is_free (item_at m i)) m.cap (hash key % m.cap) (hash key % m.cap) r
          → (i : ℕ) × (free_slot m key ≡ done (some i)) × IsRoom m i
      found none run report =
          let side : (hash key % m.cap < j) ⊎ (j ≤ hash key % m.cap) = omega arith in
          let miss = report j room.0 (inr (le_refl _, side)) in
          absurd (true-ne-false _ ((is_free_iff (item_at m j)).1 room.1) miss)
      found (some i) run (hit, lt) =
          (i, unfold free_slot in run, (lt, (is_free_iff (item_at m i)).0 hit))

  -- With a free cell, and the key not in the map, map_insert takes the path that does not grow the
  -- map: it ends in a well-formed map that holds the value under the key and otherwise what it held
  -- before.
  pub map_insert-Extends :
      (v : Bytes) (j : ℕ)
      → IsRoom m j
      → Absent m key
      → (m' : Map) × (map_insert m key v ≡ done m')
        × IsMap m'
        × Extends m key v m'
        × (m.max ≤ m'.max)
  map_insert-Extends v j room absent =
      let (i, e, here) = free_slot-IsRoom j room in
      (
        put is key v i here absent,
        map_insert-put is key v i here absent e,
        put-IsMap is key v i here absent,
        put-Extends is key v i here absent,
        unfold put_item in ground arith,
      )

module _ {m : Map} (is : IsMap m) (key : Bytes) (i : ℕ) (here : key_of (item_at m i) ≡ some key)
    (low : i ≤ m.max) where
  abbrev cleared : Map
  cleared = record m { cell = set m.cell i (record (item_at m i) { k = none }) }

  item_at-cleared :
      (j : ℕ)
      → item_at cleared j ≡ (if j == i then (record (item_at m i) { k = none }) else item_at m j)
  item_at-cleared j =
      get_or-set m.cell i j (record (item_at m i) { k = none }) (omega (arith, is.cells, is.top))

  cleared-IsMap : IsMap cleared
  cleared-IsMap = record {
    cells = length-set m.cell i _ ∙ is.cells;
    top = is.top;
    above = λ j h. ground (arith, item_at-cleared j, is.above j);
    stored = λ j f e. ground (arith, item_at-cleared j, is.stored j f);
    unique = λ a b k p q. ground (arith, item_at-cleared a, item_at-cleared b, is.unique a b k);
  }

  cleared_to : (k w : Bytes) → Binds cleared k w → (k ≢ key) × Binds m k w
  cleared_to k w (j, e, ev) = elim (Bool-cases (j == i)) [
    | inl same ↦ absurd (ground (arith, item_at-cleared j))
    | inr other ↦
        let e' : key_of (item_at m j) ≡ some k = ground (arith, item_at-cleared j) in
        let ev' : (item_at m j).v.item ≡ w = ground (arith, item_at-cleared j) in
        (λ eq. absurd (ground (arith, is.unique i j key)), (j, e', ev'))
  ]

  cleared_from : (k w : Bytes) → (k ≢ key) × Binds m k w → Binds cleared k w
  cleared_from k w (ne, (j, e, ev)) =
      let other : (j == i) ≡ false = ground arith in
      (j, ground (arith, item_at-cleared j), ground (arith, item_at-cleared j))

-- In a well-formed map whose `max` is above 0, map_del ends in a well-formed map that holds nothing
-- under the key and otherwise what it held before; `max` stays, and free cells stay free.
pub map_del-Without :
    {m : Map} (is : IsMap m) (key : Bytes)
    → m.max ≢ 0
    → (m' : Map) × (map_del m key ≡ done m')
      × IsMap m'
      × Without m key m'
      × (m'.max ≡ m.max)
      × ((j : ℕ) → IsRoom m j → IsRoom m' j)
map_del-Without {m} is key pos =
    let (slot, run, found) = find_slot-IsSlot is key pos in outcome slot run found
  where
    outcome :
        (slot : Option ℕ)
        → find_slot m key ≡ done slot
        → IsSlot m key slot
        → (m' : Map) × (map_del m key ≡ done m')
          × IsMap m'
          × Without m key m'
          × (m'.max ≡ m.max)
          × ((j : ℕ) → IsRoom m j → IsRoom m' j)
    outcome none run absent = (
      m,
      unfold map_del in rw run,
      is,
      λ k w. (λ b. ((λ e. absent b.0 (b.1 ∙ ap some e)), b), λ b. b.1),
      refl,
      λ j room. room,
    )
    outcome (some i) run (here, low) = (
      cleared is key i here low,
      unfold map_del in rw run,
      cleared-IsMap is key i here low,
      λ k w. (cleared_to is key i here low k w, cleared_from is key i here low k w),
      refl,
      λ j room. (room.0, ground (arith, item_at-cleared is key i here low j, room.1)),
    )
