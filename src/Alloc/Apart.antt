-- ===== src/Alloc/Apart.antt =====
-- Where the planes of a shape stand in its layout.
use native.Mathlib.Nat.{mul-mod_left}
use o.Prelude.{ℕ, ◌+◌, ◌-◌, ◌*◌, ◌/◌, ◌%◌, ◌≤◌, ◌≡◌, sym, ◌∙◌, true, arith}
use o.Alloc.{
  Shape, fits, isize_max, round_up, shape_bounds, tail_offset, extra_offset, last_offset,
  shape_layout,
}
use o.Alloc.Size.{IsAlign, round_up-between}
use o.Alloc.Extend.{align-positive, larger-IsAlign}
use o.Alloc.Planes.{
  IsShape, root_end, tail_end, extra_end, last_end, shape_align, fits_exactly, shape_bounds-fits,
  tail_offset-exact, extra_offset-exact, last_offset-exact, shape_layout-exact,
}

-- Planes of a shape in its layout: each starts aligned and ends before the next, and the layout holds
-- all, is padded to its alignment, and is at most `isize::MAX`.
pub record IsApart (self : Shape) (len tail_len : ℕ) : Type 0 where
  pub tail_aligned : tail_offset self len tail_len % self.tail.align ≡ 0
  pub extra_aligned : extra_offset self len tail_len % self.extra.align ≡ 0
  pub last_aligned : last_offset self len tail_len % self.last.align ≡ 0
  pub root_fits : self.root.size * len ≤ tail_offset self len tail_len
  pub tail_fits :
      tail_offset self len tail_len + self.tail.size * tail_len ≤ extra_offset self len tail_len
  pub extra_fits :
      extra_offset self len tail_len + self.extra.size * len ≤ last_offset self len tail_len
  pub last_fits :
      last_offset self len tail_len + self.last.size * len ≤ (shape_layout self len tail_len).size
  pub padded : (shape_layout self len tail_len).size % (shape_layout self len tail_len).align ≡ 0
  pub representable : (shape_layout self len tail_len).size ≤ isize_max

round_up-aligned : (size align : ℕ) → round_up size align % align ≡ 0
round_up-aligned size align = mul-mod_left ((size + (align - 1)) / align) align

-- For a shape of four planes whose alignments are powers of two up to 2 ^ 62, where its saturated
-- bounds fit, the planes at the offsets that the shape computes are apart: each starts aligned and
-- ends before the next starts, and the layout of the shape holds them all, is padded to its
-- alignment, and is at most `isize::MAX`.
pub fits-IsApart :
    (self : Shape) (len tail_len : ℕ)
    → IsShape self
    → fits (shape_bounds self len tail_len) ≡ true
    → IsApart self len tail_len
fits-IsApart self len tail_len v e =
    let exact : fits_exactly self len tail_len ≡ true =
      sym (shape_bounds-fits self len tail_len v) ∙ e in
    let l : last_end self len tail_len ≤ isize_max = ground (arith, exact) in
    let tail = tail_offset-exact self len tail_len v l in
    let extra = extra_offset-exact self len tail_len v l in
    let last = last_offset-exact self len tail_len v l in
    let layout = shape_layout-exact self len tail_len v l in
    let align : IsAlign (shape_align self) =
      larger-IsAlign _ self.last.align
        (larger-IsAlign _ self.extra.align
          (larger-IsAlign self.root.align self.tail.align v.root v.tail) v.extra)
        v.last in
    let some_align = (align-positive (shape_align self) align) in
    let up = round_up-between (last_end self len tail_len) (shape_align self) some_align.0 in
    let up_tail =
      round_up-between (root_end self len) self.tail.align
        (align-positive self.tail.align v.tail).0 in
    let up_extra =
      round_up-between (tail_end self len tail_len) self.extra.align
        (align-positive self.extra.align v.extra).0 in
    let up_last =
      round_up-between (extra_end self len tail_len) self.last.align
        (align-positive self.last.align v.last).0 in
    record {
      tail_aligned = rw tail (round_up-aligned (root_end self len) self.tail.align);
      extra_aligned = rw extra (round_up-aligned (tail_end self len tail_len) self.extra.align);
      last_aligned = rw last (round_up-aligned (extra_end self len tail_len) self.last.align);
      root_fits = rw tail up_tail.0;
      tail_fits = rw (tail, extra) up_extra.0;
      extra_fits = rw (extra, last) up_last.0;
      last_fits = rw (last, layout) up.0;
      padded = rw layout (round_up-aligned (last_end self len tail_len) (shape_align self));
      representable = rw layout (ground (arith, up, exact, some_align));
    }
