-- ===== src/Links/Last.antt =====
-- The last node of a list, and lists without one of their nodes.
use silkware.Base.{ℕ, ◌≡◌, ◌≢◌, refl, ap, true, false, Option, none, some, [], ◌∷◌, ◌++◌, arith}
use silkware.Links.{Cells, set_next, Items, Seg, has, Distinct, has-append}

-- The address of the last node, or NULL.
abbrev pub last : Items → ℕ
last [] = 0
last ((a, _) ∷ []) = a
last (_ ∷ (b ∷ xs)) = last (b ∷ xs)

pub last-append : (xs : Items) (a v : ℕ) → last (xs ++ (a, v) ∷ []) ≡ a
last-append [] a v = refl
last-append (x ∷ []) a v = refl
last-append (x ∷ (y ∷ xs)) a v = last-append (y ∷ xs) a v

pub has-last : (x : ℕ × ℕ) (xs : Items) → has (last (x ∷ xs)) (x ∷ xs) ≡ true
has-last (a, v) [] = ground arith
has-last (a, v) (y ∷ xs) = ground (arith, has-last y xs)

-- Changing where the last node points.
pub Seg-link_last :
    (x : ℕ × ℕ) (xs : Items) (h : Cells) (p stop new : ℕ)
    → Seg h p (x ∷ xs) stop
    → Distinct (x ∷ xs)
    → Seg (set_next h (last (x ∷ xs)) new) p (x ∷ xs) new
Seg-link_last (a, v) [] h p stop new s d = (s.0, ground arith, ground arith)
Seg-link_last (a, v) (y ∷ xs) h p stop new s d =
    let end = last (y ∷ xs) in
    let other : a ≢ end = ground (arith, has-last y xs) in
    let rest = Seg-link_last y xs h (h a).next stop new s.2 d.1 in
    let same : set_next h end new a ≡ h a = ground arith in (s.0, rw same s.1, rw same rest)

-- The node before the one that the walk stands at.
abbrev pub prev_of : Items → Option ℕ
prev_of [] = none
prev_of (x ∷ xs) = some (last (x ∷ xs))

pub last-append_cons : (xs : Items) (y : ℕ × ℕ) (ys : Items) → last (xs ++ y ∷ ys) ≡ last (y ∷ ys)
last-append_cons [] y ys = refl
last-append_cons (x ∷ []) y ys = refl
last-append_cons (x ∷ (z ∷ xs)) y ys = last-append_cons (z ∷ xs) y ys

pub prev_of-append : (xs : Items) (a v : ℕ) → prev_of (xs ++ (a, v) ∷ []) ≡ some a
prev_of-append [] a v = refl
prev_of-append (x ∷ xs) a v = ap some (last-append_cons (x ∷ xs) (a, v) [])

-- Distinct lists without one node.
pub Distinct-drop :
    (xs ys : Items) (a v : ℕ)
    → Distinct (xs ++ (a, v) ∷ ys)
    → Distinct (xs ++ ys) × Distinct xs × (has a xs ≡ false) × (has a ys ≡ false)
Distinct-drop [] ys a v d = (d.1, tt, refl, d.0)
Distinct-drop ((b, w) ∷ xs) ys a v d =
    let (rest, front, out, behind) = Distinct-drop xs ys a v d.1 in
    let with_a = has-append b xs ((a, v) ∷ ys) in
    let without_a = has-append b xs ys in
    ((ground arith, rest), (ground arith, front), ground arith, behind)

-- The last node of the first part is not in the second.
pub last_apart :
    (x : ℕ × ℕ) (xs ys : Items) → Distinct ((x ∷ xs) ++ ys) → has (last (x ∷ xs)) ys ≡ false
last_apart (a, v) [] ys d = d.0
last_apart (a, v) (y ∷ xs) ys d = last_apart y xs ys d.1

pub Distinct-append :
    (xs : Items) (a v : ℕ) → Distinct xs → has a xs ≡ false → Distinct (xs ++ (a, v) ∷ [])
Distinct-append [] a v d out = (refl, tt)
Distinct-append ((b, w) ∷ xs) a v d out =
    (ground (arith, has-append b xs ((a, v) ∷ [])), Distinct-append xs a v d.1 (ground arith))
