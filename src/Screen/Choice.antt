-- ===== src/Screen/Choice.antt =====
-- kernel/arch/x86_64/screen.c: the frame buffer that init_fb chooses.
use silkware.Base.{
  ℕ, ◌≤◌, ◌≡◌, refl, ◌⊎◌, inl, inr, ◌∙◌, List, [], ◌∷◌, if◌then◌else◌, at_branches, some, u32,
  arith,
}
use silkware.Base.Exec.{Exec, done}
use silkware.Screen.{Offer, Framebuffer, better, choose, init_fb}

-- One of the list.
abbrev pub Among : Offer → List Offer → Type 0
Among fb [] = ⊥
Among fb (f ∷ fs) = (fb ≡ f) ⊎ Among fb fs

-- None of the list is wider.
abbrev pub NoneWider : Offer → List Offer → Type 0
NoneWider fb [] = Unit
NoneWider fb (f ∷ fs) = (f.fb_width ≤ fb.fb_width) × NoneWider fb fs

pub record IsWidest (fb : Offer) (fs : List Offer) : Type 0 where
  pub member : Among fb fs
  pub widest : NoneWider fb fs

-- The wider of two.
abbrev wider : Offer → Offer → Offer
wider f fb = if better f fb then f else fb

wider_one : (f fb : Offer) → (wider f fb ≡ f) ⊎ (wider f fb ≡ fb)
wider_one f fb = at_branches (λ r. (r ≡ f) ⊎ (r ≡ fb)) (better f fb) f fb (inl refl) (inr refl)

wider_bounds :
    (f fb : Offer) → (f.fb_width ≤ (wider f fb).fb_width) × (fb.fb_width ≤ (wider f fb).fb_width)
unfolding better
wider_bounds f fb = ground arith

first_two :
    (r f fb : Offer) (fs : List Offer)
    → (wider f fb ≡ f) ⊎ (wider f fb ≡ fb)
    → (r ≡ wider f fb) ⊎ Among r fs
    → Among r (fb ∷ f ∷ fs)
first_two r f fb fs one (inr m) = inr (inr m)
first_two r f fb fs (inl e) (inl p) = inr (inl (p ∙ e))
first_two r f fb fs (inr e) (inl p) = inl (p ∙ e)

choose-IsWidest : (fb : Offer) (fs : List Offer) → IsWidest (choose fb fs) (fb ∷ fs)
unfolding choose
choose-IsWidest fb [] = record { member = inl refl; widest = (omega arith, tt) }
choose-IsWidest fb (f ∷ fs) =
    let rest = choose-IsWidest (wider f fb) fs in
    let bounds = wider_bounds f fb in
    let top = rest.widest in
    record {
      member = first_two _ f fb fs (wider_one f fb) rest.member;
      widest = (omega (arith, bounds.1, top.0), (omega (arith, bounds.0, top.0), top.1));
    }

-- What init_fb leaves: the screen of a frame buffer that is the widest of those on offer.
pub record IsChosen (fs : List Offer) (r : Exec Framebuffer) : Type 0 where
  pub offer : Offer
  pub screen : Framebuffer
  pub returns : r ≡ done screen
  pub widest : IsWidest offer fs
  pub width : screen.width ≡ u32 offer.fb_width
  pub height : screen.height ≡ u32 offer.fb_height
  pub vaddr : screen.vaddr ≡ offer.address

-- When the boot loader offers at least one frame buffer, init_fb returns with the address, the
-- width and the height, in 32 digits, of one that is on offer and than which none on offer is wider.
pub init_fb-IsChosen :
    (high_addr : ℕ) (f : Offer) (fs : List Offer)
    → IsChosen (f ∷ fs) (init_fb high_addr (some (f ∷ fs)))
unfolding init_fb
init_fb-IsChosen high_addr f fs = record {
  offer = choose f fs;
  screen = _;
  returns = refl;
  widest = choose-IsWidest f fs;
  width = refl;
  height = refl;
  vaddr = refl;
}
