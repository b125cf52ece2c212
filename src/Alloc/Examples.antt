-- ===== src/Alloc/Examples.antt =====
-- Instances for the layouts of src/alloc/raw.
use o.Prelude.{◌+◌, ◌-◌, ◌*◌, ◌≡◌, refl, true, arith, ok, err, if◌then◌else◌, leb}
use o.Alloc.{
  round_up, isize_max, Element, Layout, Shape, Buffer, overflowed, fits, extend, shape_bounds,
  extra_max, try_extend, fits_after, extend_unchecked, try_layout, shape_layout, try_grow,
}
use o.Alloc.Size.{IsAlign}
use o.Alloc.Extend.{try_extend-extend_unchecked}
use o.Alloc.Planes.{IsShape, fits_exactly, try_layout-shape_layout}
use o.Alloc.Apart.{IsApart, fits-IsApart}
use o.Alloc.Greatest.{extra_max-fits}
use o.Alloc.Grow.{Outcome, try_grow-Outcome}

abbrev word : Element
word = record { size = 8; align = 8 }

abbrev half : Element
half = record { size = 4; align = 4 }

abbrev byte : Element
byte = record { size = 1; align = 1 }

word-IsAlign : IsAlign word.align
word-IsAlign = (3, omega arith, refl)

half-IsAlign : IsAlign half.align
half-IsAlign = (2, omega arith, refl)

byte-IsAlign : IsAlign byte.align
byte-IsAlign = (0, omega arith, refl)

abbrev prior : Layout
prior = record { size = 5; align = 1 }

abbrev shape : Shape
shape = record { root = byte; tail = word; extra = half; last = byte }

shape-IsShape : IsShape shape
shape-IsShape = record {
  root = byte-IsAlign;
  tail = word-IsAlign;
  extra = half-IsAlign;
  last = byte-IsAlign;
}

shape_fits : fits (shape_bounds shape 3 2) ≡ true
unfolding shape_bounds extend
shape_fits = refl

try_extend-extend_unchecked_example :
    (try_extend half prior 3 ≡ (
      if leb (round_up 5 4 + 4 * 3) (isize_max - (4 - 1))
      then ok (extend_unchecked half prior 3)
      else err overflowed))
    × (fits_after half prior 3 ≡ leb (round_up 5 4 + 4 * 3) (isize_max - (4 - 1)))
try_extend-extend_unchecked_example =
    try_extend-extend_unchecked half prior 3 half-IsAlign (omega arith)

try_layout-shape_layout_example :
    try_layout shape 3 2
    ≡ (if fits_exactly shape 3 2 then ok (shape_layout shape 3 2) else err overflowed)
try_layout-shape_layout_example = try_layout-shape_layout shape 3 2 shape-IsShape

fits-IsApart_example : IsApart shape 3 2
fits-IsApart_example = fits-IsApart shape 3 2 shape-IsShape shape_fits

extra_max-fits_example : fits (shape_bounds shape 5 5) ≡ leb 5 (extra_max shape)
extra_max-fits_example = extra_max-fits shape shape-IsShape 5 (omega arith)

abbrev buffer : Buffer
buffer = record { len = 3; capacity = 4 }

try_grow-Outcome_example :
    Outcome
      (λ l. true)
      (λ s l. true)
      word
      true
      buffer
      2
      (try_grow (λ l. true) (λ s l. true) word true buffer 2)
try_grow-Outcome_example = try_grow-Outcome (λ l. true) (λ s l. true) word true buffer 2
