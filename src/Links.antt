-- ===== src/Links.antt =====
-- Singly linked lists in memory: a cell at each address, and the segments that `next` leads
-- through. `struct block` of the two allocators and `struct node` of the scheduler are such cells:
-- `value` is the size of a block, or the pid of a node.
pub mod Last
use silkware.Base.{ℕ, ◌≡◌, refl, List, [], ◌∷◌, ◌++◌, arith, ◌==◌, if◌then◌else◌, Bool, false, ◌||◌}

pub record Cell : Type 0 where
  pub value : ℕ
  pub next : ℕ

abbrev pub cell : ℕ → ℕ → Cell
cell v q = record { value = v; next = q }

abbrev pub Cells : Type 0
Cells = ℕ → Cell

abbrev pub write : Cells → ℕ → Cell → Cells
write h p c a = if a == p then c else h a

-- `p->next = q`
abbrev pub set_next : Cells → ℕ → ℕ → Cells
set_next h p q = write h p (cell (h p).value q)

-- `p->value = v`
abbrev pub set_value : Cells → ℕ → ℕ → Cells
set_value h p v = write h p (cell v (h p).next)

-- The addresses and values of a list, in order.
abbrev pub Items : Type 0
Items = List (ℕ × ℕ)

-- From `p` the `next` pointers lead through `xs` to `stop`.
abbrev pub Seg : Cells → ℕ → Items → ℕ → Type 0
Seg h p [] stop = p ≡ stop
Seg h p ((a, v) ∷ xs) stop = (p ≡ a) × ((h a).value ≡ v) × Seg h (h a).next xs stop

abbrev pub has : ℕ → Items → Bool
has a [] = false
has a ((b, _) ∷ xs) = a == b || has a xs

-- The addresses of a list are distinct.
abbrev pub Distinct : Items → Type 0
Distinct [] = Unit
Distinct ((a, _) ∷ xs) = (has a xs ≡ false) × Distinct xs

-- A segment does not see a write outside it.
pub Seg-write :
    (xs : Items) (h : Cells) (p stop a : ℕ) (c : Cell)
    → has a xs ≡ false
    → Seg h p xs stop
    → Seg (write h a c) p xs stop
Seg-write [] h p stop a c out s = s
Seg-write ((b, v) ∷ xs) h p stop a c out s = ground (arith, Seg-write xs h (h b).next stop a c)

pub Seg-append :
    (xs ys : Items) (h : Cells) (p mid stop : ℕ)
    → Seg h p xs mid
    → Seg h mid ys stop
    → Seg h p (xs ++ ys) stop
Seg-append [] ys h p mid stop s t = rw s t
Seg-append ((b, v) ∷ xs) ys h p mid stop s t =
    (s.0, s.1, Seg-append xs ys h (h b).next mid stop s.2 t)

-- A segment over two lists passes through a middle.
pub Seg-split :
    (xs ys : Items) (h : Cells) (p stop : ℕ)
    → Seg h p (xs ++ ys) stop
    → (mid : ℕ) × Seg h p xs mid × Seg h mid ys stop
Seg-split [] ys h p stop s = (p, refl, s)
Seg-split ((b, v) ∷ xs) ys h p stop s =
    let (mid, l, r) = Seg-split xs ys h (h b).next stop s.2 in (mid, (s.0, s.1, l), r)

pub has-append : (a : ℕ) (xs ys : Items) → has a (xs ++ ys) ≡ (has a xs || has a ys)
has-append a [] ys = refl
has-append a ((b, _) ∷ xs) ys = ground (arith, has-append a xs ys)
