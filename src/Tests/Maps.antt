-- ===== src/Tests/Maps.antt =====
-- kernel/map.c on a small map.
use silkware.Base.{
  ◌==◌, ◌≤◌, inl, inr, Bool-cases, ap, sym, ◌∙◌, ℕ, zero, suc, ◌<◌, ◌≡◌, ◌≢◌, refl, Option, none,
  some, [], ◌∷◌, arith, replicate, get_or-replicate,
}
use silkware.Base.Exec.{done}
use silkware.Map.{
  Bytes, hash, MapItem, Map, empty_item, item_at, flex_of, map_get, map_insert, map_del, map_set,
}
use silkware.Map.Lookup.{key_of, IsStored, IsMap, IsLookup, map_get-IsLookup}
use silkware.Map.Update.{IsRoom, Absent, Extends, Without, map_insert-Extends, map_del-Without}
use silkware.Map.Set.{Assigns, map_set-Assigns}

abbrev item : MapItem
item = record { h = hash (7 ∷ []); k = some (flex_of (7 ∷ [])); v = flex_of (42 ∷ []) }

-- One key, in cell 1 of 8.
abbrev one_key : Map
one_key = record { max = 1; cap = 8; cell = empty_item ∷ item ∷ replicate 6 empty_item }

item_at-other : (i : ℕ) → i ≢ 1 → item_at one_key i ≡ empty_item
item_at-other zero ne = refl
item_at-other (suc zero) ne = absurd (ne refl)
item_at-other (suc (suc i)) ne = get_or-replicate 6 i empty_item

held : (i : ℕ) (key : Bytes) → key_of (item_at one_key i) ≡ some key → i ≡ 1
held i key e = elim (Bool-cases (i == 1)) [
  | inl same ↦ ground arith
  | inr other ↦ absurd (ground (arith, item_at-other i))
]

free_above : (i : ℕ) → 1 < i → key_of (item_at one_key i) ≡ none
free_above i h = ap key_of (item_at-other i (omega arith))

one_key-IsStored : (i : ℕ) → IsStored (item_at one_key i)
one_key-IsStored i f e = elim (Bool-cases (i == 1)) [
  | inl same ↦ let at : i ≡ 1 = ground arith in ground arith
  | inr other ↦ absurd (ground (arith, item_at-other i))
]

one_key_unique :
    (i j : ℕ) (key : Bytes)
    → key_of (item_at one_key i) ≡ some key
    → key_of (item_at one_key j) ≡ some key
    → i ≡ j
one_key_unique i j key p q = held i key p ∙ sym (held j key q)

one_key-IsMap : IsMap one_key
one_key-IsMap = record {
  cells = refl;
  top = omega arith;
  above = free_above;
  stored = one_key-IsStored;
  unique = one_key_unique;
}

room : IsRoom one_key 4
room = (omega arith, refl)

absent : Absent one_key (9 ∷ [])
absent i e = absurd (ground (arith, held i (9 ∷ []) e))

map_get-IsLookup_example :
    (r : Option Bytes) × (map_get one_key (7 ∷ []) ≡ done r) × IsLookup one_key (7 ∷ []) r
map_get-IsLookup_example = map_get-IsLookup one_key-IsMap (7 ∷ []) (omega arith)

map_insert-Extends_example :
    (m' : Map) × (map_insert one_key (9 ∷ []) (5 ∷ []) ≡ done m')
    × IsMap m'
    × Extends one_key (9 ∷ []) (5 ∷ []) m'
    × (1 ≤ m'.max)
map_insert-Extends_example = map_insert-Extends one_key-IsMap (9 ∷ []) (5 ∷ []) 4 room absent

map_del-Without_example :
    (m' : Map) × (map_del one_key (7 ∷ []) ≡ done m')
    × IsMap m'
    × Without one_key (7 ∷ []) m'
    × (m'.max ≡ 1)
    × ((j : ℕ) → IsRoom one_key j → IsRoom m' j)
map_del-Without_example = map_del-Without one_key-IsMap (7 ∷ []) (omega arith)

map_set-Assigns_example :
    (m' : Map) × (map_set one_key (7 ∷ []) (5 ∷ []) ≡ done m')
    × IsMap m'
    × (m'.max ≢ 0)
    × Assigns one_key (7 ∷ []) (5 ∷ []) m'
map_set-Assigns_example = map_set-Assigns one_key-IsMap (7 ∷ []) (5 ∷ []) 4 (omega arith) room
