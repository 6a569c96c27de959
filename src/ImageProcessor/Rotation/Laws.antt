-- ===== src/ImageProcessor/Rotation/Laws.antt =====
-- image_processor/worker.py: `_rotate_image` against the table of orientations of the EXIF standard.
use filo_j.Prelude.{
  ℕ, String, ◌≡◌, refl, ap, ◌∙◌, ◌-◌, ◌<◌, Bool, some, ok, arith, leb, if◌then◌else◌,
}
use filo_j.ImageProcessor.Rotation.{Pillow, PillowLaws, turn, turn_by, turn_found, rotate_image}

-- Where the stored row 0 and the stored column 0 are seen
pub data Orientation : Type 0 where
  top_left top_right bottom_right bottom_left : Orientation
  left_top right_top right_bottom left_bottom : Orientation

-- The tag's value
abbrev pub code : Orientation → ℕ
code top_left = 1
code top_right = 2
code bottom_right = 3
code bottom_left = 4
code left_top = 5
code right_top = 6
code right_bottom = 7
code left_bottom = 8

-- Which stored pixel is seen at (x, y); `w` and `h` are the stored size.
abbrev pub seen : Orientation → ℕ → ℕ → ℕ → ℕ → ℕ × ℕ
seen top_left w h x y = (x, y)
seen top_right w h x y = (w - 1 - x, y)
seen bottom_right w h x y = (w - 1 - x, h - 1 - y)
seen bottom_left w h x y = (x, h - 1 - y)
seen left_top w h x y = (y, x)
seen right_top w h x y = (y, h - 1 - x)
seen right_bottom w h x y = (w - 1 - y, h - 1 - x)
seen left_bottom w h x y = (w - 1 - y, x)

abbrev is_upright : Orientation → Bool
is_upright o = leb (code o) 4

-- The size of what is seen
abbrev pub seen_size : Orientation → ℕ → ℕ → ℕ × ℕ
seen_size o w h = if is_upright o then (w, h) else (h, w)

module _ (p : Pillow) (laws : PillowLaws p) where
  -- The image shows what the standard says.
  abbrev pub Shows : Orientation → p.Image → p.Image → ℕ → ℕ → Type 0
  Shows o img img' x y =
      let size = seen_size o (p.width img) (p.height img) in
      let at = seen o (p.width img) (p.height img) x y in
      (p.width img' ≡ size.0)
      × (p.height img' ≡ size.1)
      × (p.pixel img' x y ≡ p.pixel img at.0 at.1)

  -- A turn that is followed by a flip
  flipped :
      (img img' : p.Image) (w h : ℕ) (at : ℕ → ℕ → ℕ × ℕ) (x y : ℕ)
      → p.width img' ≡ w
      → p.height img' ≡ h
      → ((a b : ℕ) → a < w → b < h → p.pixel img' a b ≡ p.pixel img (at a b).0 (at a b).1)
      → x < w
      → y < h
      → p.pixel (p.flip_left_right img') x y ≡ p.pixel img (at (w - 1 - x) y).0 (at (w - 1 - x) y).1
  flipped img img' w h at x y ew eh turned hx hy =
      laws.pixel-flip img' x y (omega arith) (omega arith)
      ∙ (ap (λ v. p.pixel img' (v - 1 - x) y) ew ∙ turned (w - 1 - x) y (omega arith) hy)

  mirrored : (w x : ℕ) → x < w → w - 1 - (w - 1 - x) ≡ x
  mirrored w x h = omega arith

  turn-Shows :
      (o : Orientation) (img : p.Image) (x y : ℕ)
      → x < (seen_size o (p.width img) (p.height img)).0
      → y < (seen_size o (p.width img) (p.height img)).1
      → Shows o img (turn p (code o) img) x y
  turn-Shows top_left img x y hx hy = (refl, refl, refl)
  turn-Shows top_right img x y hx hy =
      (laws.width-flip img, laws.height-flip img, laws.pixel-flip img x y hx hy)
  turn-Shows bottom_right img x y hx hy =
      (laws.width-half img, laws.height-half img, laws.pixel-half img x y hx hy)
  turn-Shows bottom_left img x y hx hy = (
    laws.width-flip (p.rotate_half img) ∙ laws.width-half img,
    laws.height-flip (p.rotate_half img) ∙ laws.height-half img,
    flipped img (p.rotate_half img) (p.width img) (p.height img)
          (λ a b. (p.width img - 1 - a, p.height img - 1 - b)) x y (laws.width-half img)
          (laws.height-half img) (laws.pixel-half img) hx hy
        ∙ ap (λ v. p.pixel img v (p.height img - 1 - y)) (mirrored (p.width img) x hx),
  )
  turn-Shows left_top img x y hx hy = (
    laws.width-flip (p.rotate_right img) ∙ laws.width-right img,
    laws.height-flip (p.rotate_right img) ∙ laws.height-right img,
    flipped img (p.rotate_right img) (p.height img) (p.width img) (λ a b. (b, p.height img - 1 - a))
          x y (laws.width-right img) (laws.height-right img) (laws.pixel-right img) hx hy
        ∙ ap (p.pixel img y) (mirrored (p.height img) x hx),
  )
  turn-Shows right_top img x y hx hy =
      (laws.width-right img, laws.height-right img, laws.pixel-right img x y hx hy)
  turn-Shows right_bottom img x y hx hy = (
    laws.width-flip (p.rotate_left img) ∙ laws.width-left img,
    laws.height-flip (p.rotate_left img) ∙ laws.height-left img,
    flipped img (p.rotate_left img) (p.height img) (p.width img) (λ a b. (p.width img - 1 - b, a)) x
        y (laws.width-left img) (laws.height-left img) (laws.pixel-left img) hx hy,
  )
  turn-Shows left_bottom img x y hx hy =
      (laws.width-left img, laws.height-left img, laws.pixel-left img x y hx hy)

  -- For each of the eight orientations that the EXIF standard has, `_rotate_image` gives back an image
  -- of the size and with the pixels that the standard says are to be seen, where Pillow turns and
  -- flips as its manual says.
  pub rotate_image-Shows :
      (o : Orientation) (bytes : String) (img : p.Image) (x y : ℕ)
      → p.exif img ≡ some bytes
      → p.load_orientation bytes ≡ ok (some (code o))
      → x < (seen_size o (p.width img) (p.height img)).0
      → y < (seen_size o (p.width img) (p.height img)).1
      → (img' : p.Image) × (rotate_image p img ≡ ok img') × Shows o img img' x y
  unfolding rotate_image
  rotate_image-Shows o bytes img x y he hl hx hy = (
    turn p (code o) img,
    ap (λ e. turn_found p e img) he ∙ ap (λ t. turn_by p t img) hl,
    turn-Shows o img x y hx hy,
  )
