-- ===== src/ImageProcessor/Rotation.antt =====
-- image_processor/worker.py: `_rotate_image`. Pillow and piexif are a parameter: what they do to an
-- image is said by the pixels that it shows, as their manuals have it.
pub mod Laws
use filo_j.Prelude.{
  ℕ, String, ◌≡◌, ◌-◌, ◌<◌, Option, none, some, Result, ok, err, nat_eq, if◌then◌else◌,
}
use filo_j.Shared.Errors.{Exn}

-- The operations, with `Color` for the pixels' values. `rotate_left` is `rotate(90, expand=True)`,
-- `rotate_right` is `rotate(-90, expand=True)`, and `rotate_half` is `rotate(180)`.
pub record Pillow : Type 1 where
  pub Image : Type 0
  pub Color : Type 0
  pub width : Image → ℕ
  pub height : Image → ℕ
  pub pixel : Image → ℕ → ℕ → Color
  pub flip_left_right : Image → Image
  pub rotate_half : Image → Image
  pub rotate_left : Image → Image
  pub rotate_right : Image → Image
  -- `img.info.get("exif")`
  pub exif : Image → Option String
  -- `piexif.load(exif)["0th"].get(piexif.ImageIFD.Orientation)`
  pub load_orientation : String → Result Exn (Option ℕ)

-- What the manual of Pillow says of the operations
pub record PillowLaws (p : Pillow) : Type 0 where
  pub width-flip : (i : p.Image) → p.width (p.flip_left_right i) ≡ p.width i
  pub height-flip : (i : p.Image) → p.height (p.flip_left_right i) ≡ p.height i
  pub pixel-flip :
      (i : p.Image) (x y : ℕ)
      → x < p.width i
      → y < p.height i
      → p.pixel (p.flip_left_right i) x y ≡ p.pixel i (p.width i - 1 - x) y
  pub width-half : (i : p.Image) → p.width (p.rotate_half i) ≡ p.width i
  pub height-half : (i : p.Image) → p.height (p.rotate_half i) ≡ p.height i
  pub pixel-half :
      (i : p.Image) (x y : ℕ)
      → x < p.width i
      → y < p.height i
      → p.pixel (p.rotate_half i) x y ≡ p.pixel i (p.width i - 1 - x) (p.height i - 1 - y)
  pub width-left : (i : p.Image) → p.width (p.rotate_left i) ≡ p.height i
  pub height-left : (i : p.Image) → p.height (p.rotate_left i) ≡ p.width i
  pub pixel-left :
      (i : p.Image) (x y : ℕ)
      → x < p.height i
      → y < p.width i
      → p.pixel (p.rotate_left i) x y ≡ p.pixel i (p.width i - 1 - y) x
  pub width-right : (i : p.Image) → p.width (p.rotate_right i) ≡ p.height i
  pub height-right : (i : p.Image) → p.height (p.rotate_right i) ≡ p.width i
  pub pixel-right :
      (i : p.Image) (x y : ℕ)
      → x < p.height i
      → y < p.width i
      → p.pixel (p.rotate_right i) x y ≡ p.pixel i y (p.height i - 1 - x)

module _ (p : Pillow) where
  -- The chain of `elif`s
  abbrev pub turn : ℕ → p.Image → p.Image
  turn orientation img =
      if nat_eq orientation 2
      then p.flip_left_right img
      else if nat_eq orientation 3
      then p.rotate_half img
      else if nat_eq orientation 4
      then p.flip_left_right (p.rotate_half img)
      else if nat_eq orientation 5
      then p.flip_left_right (p.rotate_right img)
      else if nat_eq orientation 6
      then p.rotate_right img
      else if nat_eq orientation 7
      then p.flip_left_right (p.rotate_left img)
      else if nat_eq orientation 8
      then p.rotate_left img
      else img

  -- Bytes that piexif cannot read make it raise.
  abbrev pub turn_by : Result Exn (Option ℕ) → p.Image → Result Exn p.Image
  turn_by (err e) img = err e
  turn_by (ok none) img = ok img
  turn_by (ok (some orientation)) img = ok (turn orientation img)

  abbrev pub turn_found : Option String → p.Image → Result Exn p.Image
  turn_found none img = ok img
  turn_found (some bytes) img = turn_by (p.load_orientation bytes) img

  unfoldable pub rotate_image : p.Image → Result Exn p.Image
  rotate_image img = turn_found (p.exif img) img
