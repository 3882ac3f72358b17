-- ===== src/Paging/Translate.antt =====
-- kernel/arch/x86_64/paging.c: kvirt2phys finds what the tables say.
use silkware.Base.{
  ℕ, suc, Bool, sym, ◌+◌, ◌/◌, ◌%◌, ◌^◌, arith, ◌≡◌, ◌≢◌, ap, ◌∙◌, false, ◌==◌, bit_and, bit_or,
  Option,
}
use silkware.Base.Exec.{Exec, done}
use silkware.Paging.{Layout, addr_masked, entry_at}
use silkware.Bits.Shifts.{bit_or_fields, bit_and_mask}
use silkware.Paging.Walk.{
  pte, slot, frame_of, walk1, pte-walk1, entry_at-slot, addr_masked-frame_of,
}
use silkware.Paging.Calls.{Kernel, top_table, descend, kvirt2phys}
use silkware.Paging.Window.{IsWindow, IsKept, descend-IsDescended}

IsKept-trans : (l : Layout) (w w' w'' : ℕ → ℕ) → IsKept l w w' → IsKept l w' w'' → IsKept l w w''
IsKept-trans l w w' w'' p q = record {
  same = λ a ne. q.same a (λ e. ne (e ∙ p.still)) ∙ p.same a ne;
  window = q.window;
  still = q.still ∙ p.still;
}

-- A step down from tables that have been kept.
record IsStep (l : Layout) (w : ℕ → ℕ) (home : ℕ → ℕ) (entry : ℕ) (r : Exec (ℕ × Kernel))
    : Type 0 where
  after : Kernel
  returns : r ≡ done (home (addr_masked (w entry)), after)
  kept : IsKept l w after.tables.word

descend-IsStep :
    (fuel : ℕ) (l : Layout) (home : ℕ → ℕ) (w : ℕ → ℕ) (entry : ℕ) (k : Kernel)
    → IsKept l w k.tables.word
    → entry ≢ pte l w l.page_tmp
    → (bit_and (w entry) 1 == 0) ≡ false
    → IsStep l w home entry (descend (suc (suc fuel)) l home entry k)
descend-IsStep fuel l home w entry k kept ne present =
    let e = kept.same entry ne in
    let here = ap (λ (x : ℕ). bit_and x 1 == 0) e ∙ present in
    let down = descend-IsDescended fuel l home entry k kept.window here in
    record {
      after = down.after;
      returns = down.returns ∙ ap (λ (x : ℕ). done (home (addr_masked x), down.after)) e;
      kept = IsKept-trans l w _ _ kept down.kept;
    }

-- The offset in the page under a frame.
address-sum : (x virt : ℕ) → bit_or (addr_masked x) (bit_and virt 0xfff) ≡ frame_of x + virt % 4096
address-sum x virt =
    ap (λ (t : ℕ). bit_or (addr_masked x) t) (bit_and_mask 12 virt)
    ∙ ap (λ (t : ℕ). bit_or t (virt % 2 ^ 12)) (addr_masked-frame_of x)
    ∙ bit_or_fields 12 (x / 2 ^ 12 % 2 ^ 51) (virt % 2 ^ 12) (omega arith)

module _ (l : Layout) (home : ℕ → ℕ) (top : Option ℕ) (virt : ℕ) (w : ℕ → ℕ) where
  -- The addresses that the code computes for the entries, one table after the other.
  abbrev entry4 : ℕ
  entry4 = entry_at (top_table l top) virt 39

  abbrev entry3 : ℕ
  entry3 = entry_at (home (addr_masked (w entry4))) virt 30

  abbrev entry2 : ℕ
  entry2 = entry_at (home (addr_masked (w entry3))) virt 21

  abbrev entry1 : ℕ
  entry1 = entry_at (home (addr_masked (w entry2))) virt 12

  -- The words on the walk of the processor for `virt`.
  abbrev pub at4 : ℕ
  at4 = slot (top_table l top) virt 39

  abbrev pub at3 : ℕ
  at3 = slot (home (frame_of (w at4))) virt 30

  abbrev pub at2 : ℕ
  at2 = slot (home (frame_of (w at3))) virt 21

  abbrev pub at1 : ℕ
  at1 = slot (home (frame_of (w at2))) virt 12

  below :
      (e f k : ℕ)
      → e ≡ f
      → entry_at (home (addr_masked (w e))) virt k ≡ slot (home (frame_of (w f))) virt k
  below e f k same =
      entry_at-slot (home (addr_masked (w e))) virt k
      ∙ ap (λ (t : ℕ). slot (home t) virt k) (addr_masked-frame_of (w e))
      ∙ ap (λ (t : ℕ). slot (home (frame_of (w t))) virt k) same

  entry4-at4 : entry4 ≡ at4
  entry4-at4 = entry_at-slot (top_table l top) virt 39

  entry3-at3 : entry3 ≡ at3
  entry3-at3 = below entry4 at4 30 entry4-at4

  entry2-at2 : entry2 ≡ at2
  entry2-at2 = below entry3 at3 21 entry3-at3

  entry1-at1 : entry1 ≡ at1
  entry1-at1 = below entry2 at2 12 entry2-at2

  -- The address is not NULL, the words of its three upper tables are present, and the lower three
  -- words are not the one that maps the window.
  pub record IsTranslatable : Type 0 where
    pub virtual : (virt == 0) ≡ false
    pub present4 : (bit_and (w at4) 1 == 0) ≡ false
    pub present3 : (bit_and (w at3) 1 == 0) ≡ false
    pub present2 : (bit_and (w at2) 1 == 0) ≡ false
    pub apart3 : at3 ≢ walk1 l w l.page_tmp
    pub apart2 : at2 ≢ walk1 l w l.page_tmp
    pub apart1 : at1 ≢ walk1 l w l.page_tmp

  abbrev is_absent : ℕ → Bool
  is_absent x = bit_and (w x) 1 == 0

  apart_from : (e f : ℕ) → e ≡ f → f ≢ walk1 l w l.page_tmp → e ≢ pte l w l.page_tmp
  apart_from e f same ne h = ne (sym same ∙ h ∙ pte-walk1 l w l.page_tmp)

  -- What kvirt2phys gives.
  pub record IsTranslated (r : Exec (ℕ × Kernel)) : Type 0 where
    pub after : Kernel
    pub returns : r ≡ done (frame_of (w at1) + virt % 4096, after)
    pub others : (a : ℕ) → a ≢ walk1 l w l.page_tmp → after.tables.word a ≡ w a

-- Let the tables that lead to the window page_tmp be there, the address not be NULL, the words that
-- the processor's walk meets for it in the three upper tables be present, and none of the lower three
-- be the word of the window. Then kvirt2phys returns the frame in the last word of the walk plus the
-- address's offset in the page, and changes no word of the tables but that of the window.
pub kvirt2phys-IsTranslated :
    (fuel : ℕ) (l : Layout) (home : ℕ → ℕ) (top : Option ℕ) (virt : ℕ) (k : Kernel)
    → IsWindow l k.tables.word
    → IsTranslatable l home top virt k.tables.word
    → IsTranslated l home top virt k.tables.word (kvirt2phys (suc (suc fuel)) l home top virt k)
unfolding kvirt2phys
kvirt2phys-IsTranslated fuel l home top virt k window is =
    let w = k.tables.word in
    let e4 = entry4-at4 l home top virt w in
    let e3 = entry3-at3 l home top virt w in
    let e2 = entry2-at2 l home top virt w in
    let e1 = entry1-at1 l home top virt w in
    let absent : ℕ → Bool = λ (x : ℕ). is_absent l home top virt w x in
    let d3 =
      descend-IsDescended fuel l home (entry4 l home top virt w) k window
        (ap absent e4 ∙ is.present4) in
    let d2 =
      descend-IsStep fuel l home w (entry3 l home top virt w) d3.after d3.kept
        (apart_from l home top virt w _ _ e3 is.apart3) (ap absent e3 ∙ is.present3) in
    let d1 =
      descend-IsStep fuel l home w (entry2 l home top virt w) d2.after d2.kept
        (apart_from l home top virt w _ _ e2 is.apart2) (ap absent e2 ∙ is.present2) in
    let last =
      d1.kept.same (entry1 l home top virt w) (apart_from l home top virt w _ _ e1 is.apart1) in
    let value =
      address-sum (w (entry1 l home top virt w)) virt
      ∙ ap (λ (t : ℕ). frame_of (w t) + virt % 4096) e1 in
    record {
      after = d1.after;
      returns =
          rw (is.virtual, d3.returns, d2.returns, d1.returns, last)
            (ap (λ (t : ℕ). done (t, d1.after)) value);
      others = λ a ne. d1.kept.same a (λ e. ne (e ∙ pte-walk1 l w l.page_tmp));
    }
