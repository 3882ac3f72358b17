-- ===== src/PageAlloc/Order.antt =====
-- Free lists in address order, without overlap, of blocks that are aligned powers of two.
use silkware.Base.{
  ℕ, ◌+◌, ◌*◌, ◌^◌, ◌≤◌, ◌<◌, ◌≡◌, refl, ◌⊎◌, false, [], ◌∷◌, ◌++◌, arith, Option, none, some,
}
use silkware.Links.{Items, has, Cells, Seg, Seg-append}

-- The blocks of `xs` lie in `[lo, hi)`, in address order and apart from one another.
abbrev pub Ordered : ℕ → Items → ℕ → Type 0
Ordered lo [] hi = lo ≤ hi
Ordered lo ((a, v) ∷ xs) hi = (lo ≤ a) × (0 < v) × Ordered (a + v) xs hi

pub Ordered-le : (lo hi : ℕ) (xs : Items) → Ordered lo xs hi → lo ≤ hi
Ordered-le lo hi [] o = o
Ordered-le lo hi ((a, v) ∷ xs) o = omega (arith, Ordered-le (a + v) hi xs o.2)

pub Ordered-append :
    (lo mid hi : ℕ) (xs ys : Items)
    → Ordered lo xs mid
    → Ordered mid ys hi
    → Ordered lo (xs ++ ys) hi
Ordered-append lo mid hi [] [] o p = omega arith
Ordered-append lo mid hi [] ((a, v) ∷ ys) o p = (omega arith, p.1, p.2)
Ordered-append lo mid hi ((a, v) ∷ xs) ys o p =
    (o.0, o.1, Ordered-append (a + v) mid hi xs ys o.2 p)

pub Ordered-split :
    (lo hi : ℕ) (xs ys : Items)
    → Ordered lo (xs ++ ys) hi
    → (mid : ℕ) × Ordered lo xs mid × Ordered mid ys hi
Ordered-split lo hi [] ys o = (lo, omega arith, o)
Ordered-split lo hi ((a, v) ∷ xs) ys o =
    let (mid, l, r) = Ordered-split (a + v) hi xs ys o.2 in (mid, (o.0, o.1, l), r)

pub Ordered-weaken : (lo lo' hi : ℕ) (xs : Items) → lo ≤ lo' → Ordered lo' xs hi → Ordered lo xs hi
Ordered-weaken lo lo' hi [] le o = omega arith
Ordered-weaken lo lo' hi ((a, v) ∷ xs) le o = (omega arith, o.1, o.2)

-- An address below or above the range is in no block of the list.
pub not-has-Ordered :
    (lo hi : ℕ) (xs : Items) (a : ℕ) → Ordered lo xs hi → (a < lo) ⊎ (hi ≤ a) → has a xs ≡ false
not-has-Ordered lo hi [] a o h = refl
not-has-Ordered lo hi ((b, v) ∷ xs) a o h =
    ground (arith, Ordered-le (b + v) hi xs o.2, not-has-Ordered (b + v) hi xs a o.2)

-- A block whose size is a power of two, and whose offset in the pool is a multiple of it.
abbrev pub IsBuddy : ℕ → ℕ → ℕ → Type 0
IsBuddy base a v = (k : ℕ) × (q : ℕ) × (v ≡ 2 ^ k) × (a ≡ base + q * 2 ^ k)

abbrev pub AllBuddies : ℕ → Items → Type 0
AllBuddies base [] = Unit
AllBuddies base ((a, v) ∷ xs) = IsBuddy base a v × AllBuddies base xs

pub AllBuddies-append :
    (base : ℕ) (xs ys : Items)
    → AllBuddies base xs
    → AllBuddies base ys
    → AllBuddies base (xs ++ ys)
AllBuddies-append base [] ys p q = q
AllBuddies-append base ((a, v) ∷ xs) ys p q = (p.0, AllBuddies-append base xs ys p.1 q)

pub AllBuddies-split :
    (base : ℕ) (xs ys : Items)
    → AllBuddies base (xs ++ ys)
    → AllBuddies base xs × AllBuddies base ys
AllBuddies-split base [] ys p = (tt, p)
AllBuddies-split base ((a, v) ∷ xs) ys p =
    let (l, r) = AllBuddies-split base xs ys p.1 in ((p.0, l), r)

-- `g` agrees with `h` outside `[lo, hi)`.
abbrev pub SameOutside : ℕ → ℕ → Cells → Cells → Type 0
SameOutside lo hi h g = (a : ℕ) → (a < lo) ⊎ (hi ≤ a) → g a ≡ h a

-- A list on one side of a range does not see the changes inside the range.
pub Seg-SameOutside :
    (xs : Items) (h g : Cells) (p stop l m lo hi : ℕ)
    → SameOutside lo hi h g
    → Ordered l xs m
    → (m ≤ lo) ⊎ (hi ≤ l)
    → Seg h p xs stop
    → Seg g p xs stop
Seg-SameOutside [] h g p stop l m lo hi same o side s = s
Seg-SameOutside ((a, v) ∷ xs) h g p stop l m lo hi same o side s =
    let e : g a ≡ h a = same a (ground (arith, Ordered-le (a + v) m xs o.2)) in
    (
      s.0,
      rw e s.1,
      rw e (Seg-SameOutside xs h g (h a).next stop (a + v) m lo hi same o.2 (ground arith) s.2),
    )

-- The blocks of `xs` that the walk has passed, `prev` the last of them, from `start` up to `cur`.
abbrev pub Passed : Cells → ℕ → Option ℕ → Items → ℕ → Type 0
Passed h start none xs cur = (xs ≡ []) × (start ≡ cur)
Passed h start (some p) xs cur =
    (ys : Items) × (v : ℕ) × (xs ≡ ys ++ (p, v) ∷ []) × Seg h start xs cur

Passed-Seg :
    (h : Cells) (start cur : ℕ) (prev : Option ℕ) (xs : Items)
    → Passed h start prev xs cur
    → Seg h start xs cur
Passed-Seg h start cur none xs (e, f) = rw e f
Passed-Seg h start cur (some p) xs (ys, v, e, s) = s

-- One more block is passed.
pub Passed-next :
    (h : Cells) (start cur v : ℕ) (prev : Option ℕ) (xs : Items)
    → Passed h start prev xs cur
    → (h cur).value ≡ v
    → Passed h start (some cur) (xs ++ (cur, v) ∷ []) (h cur).next
Passed-next h start cur v prev xs past e = (
  xs,
  v,
  refl,
  Seg-append xs ((cur, v) ∷ []) h start cur (h cur).next (Passed-Seg h start cur prev xs past)
      (refl, e, refl),
)
