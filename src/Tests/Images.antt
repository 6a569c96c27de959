-- ===== src/Tests/Images.antt =====
-- Scenarios of image_processor/worker.py: an image that was taken with the camera upside down.
use filo_j.Prelude.{ℕ, ◌≡◌, ◌-◌, refl, none, some, ok, arith}
use filo_j.Shared.World.{Faults}
use filo_j.ImageProcessor.Rotation.{Pillow, PillowLaws, rotate_image}
use filo_j.ImageProcessor.Rotation.Laws.{Shows, right_top, rotate_image-Shows}
use filo_j.ImageProcessor.Worker.{Libraries, process_image}
use filo_j.ImageProcessor.Worker.Laws.{Progress}
use filo_j.ImageProcessor.Worker.Whole.{process_image-Progress}
use filo_j.Tests.Scanner.{scan_world, scan_message}

-- Images as functions from positions to numbers
pub record Picture : Type 0 where
  wide : ℕ
  high : ℕ
  at : ℕ → ℕ → ℕ

abbrev pub pillow : Pillow
pillow = record {
  Image = Picture;
  Color = ℕ;
  width = λ i. i.wide;
  height = λ i. i.high;
  pixel = λ i. i.at;
  flip_left_right = λ i. record i { at = λ x y. i.at (i.wide - 1 - x) y };
  rotate_half = λ i. record i { at = λ x y. i.at (i.wide - 1 - x) (i.high - 1 - y) };
  rotate_left = λ i. record { wide = i.high; high = i.wide; at = λ x y. i.at (i.wide - 1 - y) x };
  rotate_right = λ i. record { wide = i.high; high = i.wide; at = λ x y. i.at y (i.high - 1 - x) };
  exif = λ i. some "exif";
  load_orientation = λ bytes. ok (some 6);
}

abbrev laws : PillowLaws pillow
laws = record {
  width-flip = λ i. refl;
  height-flip = λ i. refl;
  pixel-flip = λ i x y hx hy. refl;
  width-half = λ i. refl;
  height-half = λ i. refl;
  pixel-half = λ i x y hx hy. refl;
  width-left = λ i. refl;
  height-left = λ i. refl;
  pixel-left = λ i x y hx hy. refl;
  width-right = λ i. refl;
  height-right = λ i. refl;
  pixel-right = λ i x y hx hy. refl;
}

abbrev pub picture : Picture
picture = record { wide = 3; high = 2; at = λ x y. x }

rotate_image-Shows_example :
    (img : Picture) × (rotate_image pillow picture ≡ ok img)
    × Shows pillow laws right_top picture img 1 2
rotate_image-Shows_example =
    rotate_image-Shows pillow laws right_top "exif" picture 1 2 refl refl (omega arith)
      (omega arith)

abbrev pub lib : Libraries pillow
lib = record {
  parse_uuid = λ s. some 7;
  show = λ n. "n";
  lower = λ s. s;
  first = λ n s. s;
  stem = λ s. "cafe";
  chunks = λ key. 1;
  open_rgb = λ key. ok picture;
  clean = λ img. ok img;
  save = λ img size format. ok tt;
}

abbrev no_fault : Faults
no_fault n = none

process_image-Progress_example :
    Progress pillow lib no_fault
      (some 7)
      scan_world
      (process_image pillow lib no_fault scan_message scan_world).1
process_image-Progress_example = process_image-Progress pillow lib no_fault scan_message scan_world
