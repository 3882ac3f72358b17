-- ===== src/Map/Set.antt =====
-- `map_set`, and what `map_get` returns after it.
use silkware.Base.{ℕ, ◌≡◌, ◌≢◌, ◌↔◌, refl, sym, ap, ◌∙◌, ◌⊎◌, inl, inr, Option, none, some, arith}
use silkware.Base.Exec.{done}
use silkware.Map.{Bytes, Map, map_get, map_set}
use silkware.Map.Lookup.{IsMap, Binds, IsLookup, map_get-IsLookup}
use silkware.Map.Update.{IsRoom, Absent, Without, map_insert-Extends, map_del-Without}

-- A key is bound to one value.
pub Binds-unique :
    {m : Map} (is : IsMap m) (key v w : Bytes) → Binds m key v → Binds m key w → v ≡ w
Binds-unique is key v w (i, e, ev) (j, f, fw) = ground (arith, is.unique i j key)

-- In a well-formed map whose `max` is above 0, map_get returns `v` exactly when the map holds `v`
-- under the key.
pub map_get-Binds_iff :
    {m : Map} (is : IsMap m) (key v : Bytes)
    → m.max ≢ 0
    → (map_get m key ≡ done (some v)) ↔ Binds m key v
map_get-Binds_iff {m} is key v pos =
    let (r, run, found) = map_get-IsLookup is key pos in decide r run found
  where
    done_injective : {a b : Option Bytes} → done a ≡ done b → a ≡ b
    done_injective e = cc

    some_injective : (a b : Bytes) → some a ≡ some b → a ≡ b
    some_injective a b e = cc

    value_of : (w : Bytes) → Binds m key w → v ≡ w → Binds m key v
    value_of w found e = rw e found

    decide :
        (r : Option Bytes)
        → map_get m key ≡ done r
        → IsLookup m key r
        → (map_get m key ≡ done (some v)) ↔ Binds m key v
    decide none run found = ((λ e. absurd (cc (run, e))), λ b. absurd (found v b))
    decide (some w) run found = (
      λ got. value_of w found (some_injective v w (done_injective (sym got ∙ run))),
      λ b. run ∙ ap (λ x. done (some x)) (Binds-unique is key w v found b),
    )

-- `m'` holds `v` under `key`, and under every other key what `m` holds.
abbrev pub Assigns : Map → Bytes → Bytes → Map → Type 0
Assigns m key v m' =
    (k w : Bytes) → Binds m' k w ↔ (((k ≡ key) × (w ≡ v)) ⊎ ((k ≢ key) × Binds m k w))

assigns_to :
    (m m1 : Map) (key v k w : Bytes)
    → Without m key m1
    → ((k ≡ key) × (w ≡ v)) ⊎ Binds m1 k w
    → ((k ≡ key) × (w ≡ v)) ⊎ ((k ≢ key) × Binds m k w)
assigns_to m m1 key v k w without (inl same) = inl same
assigns_to m m1 key v k w without (inr b) = inr ((without k w).0 b)

assigns_from :
    (m m1 : Map) (key v k w : Bytes)
    → Without m key m1
    → ((k ≡ key) × (w ≡ v)) ⊎ ((k ≢ key) × Binds m k w)
    → ((k ≡ key) × (w ≡ v)) ⊎ Binds m1 k w
assigns_from m m1 key v k w without (inl same) = inl same
assigns_from m m1 key v k w without (inr b) = inr ((without k w).1 b)

-- In a well-formed map with `max` above 0 and a free cell, map_set ends in a well-formed map, with
-- `max` above 0, that holds the value under the key and under every other key what it held before.
pub map_set-Assigns :
    {m : Map} (is : IsMap m) (key v : Bytes) (j : ℕ)
    → m.max ≢ 0
    → IsRoom m j
    → (m' : Map) × (map_set m key v ≡ done m') × IsMap m' × (m'.max ≢ 0) × Assigns m key v m'
map_set-Assigns {m} is key v j pos room =
    let (m1, run1, is1, without, top, roomy) = map_del-Without is key pos in
    let absent : Absent m1 key = λ i e. ((without key _).0 (i, e, refl)).0 refl in
    let (m2, run2, is2, extends, le) = map_insert-Extends is1 key v j (roomy j room) absent in
    (
      m2,
      unfold map_set in rw run1 run2,
      is2,
      omega arith,
      λ k w. (
        λ b. assigns_to m m1 key v k w without ((extends k w).0 b),
        λ b. (extends k w).1 (assigns_from m m1 key v k w without b),
      ),
    )
