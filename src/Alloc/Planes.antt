-- ===== src/Alloc/Planes.antt =====
-- The four planes of a `Shape` in one allocation.
use mathlib.Core.Path.{subst}
use native.Mathlib.Nat.{mod-eq_of_lt}
use o.Prelude.{
  ℕ, ◌+◌, ◌-◌, ◌*◌, ◌%◌, ◌<◌, ◌≤◌, ◌≡◌, refl, sym, ap, ◌∙◌, Bool, ok, err, leb, if◌then◌else◌,
  arith, Bool-cases, inl, inr, mod64, wrapping_add, wrapping_mul,
}
use o.Alloc.{
  Bounds, Shape, overflowed, extend, fits, round_up, larger, isize_max, shape_bounds, try_layout,
  tail_offset, extra_offset, last_offset, shape_layout, pad_to_align, new_bounds, bounds_layout,
}
use o.Alloc.Size.{IsAlign, Reads, round_up-split, round_up-between}
use o.Alloc.Extend.{
  align-positive, after_plane, extend-Reads, limit, word_within, same-Reads, plane_word,
}

pub record IsShape (self : Shape) : Type 0 where
  pub root : IsAlign self.root.align
  pub tail : IsAlign self.tail.align
  pub extra : IsAlign self.extra.align
  pub last : IsAlign self.last.align

-- The sizes behind the planes, and the alignment of all.
abbrev pub root_end : Shape → (len : ℕ) → ℕ
root_end self len = self.root.size * len

abbrev pub tail_end : Shape → (len tail_len : ℕ) → ℕ
tail_end self len tail_len = after_plane self.tail (root_end self len) tail_len

abbrev pub extra_end : Shape → (len tail_len : ℕ) → ℕ
extra_end self len tail_len = after_plane self.extra (tail_end self len tail_len) len

abbrev pub last_end : Shape → (len tail_len : ℕ) → ℕ
last_end self len tail_len = after_plane self.last (extra_end self len tail_len) len

abbrev pub shape_align : Shape → ℕ
shape_align self =
    larger (larger (larger self.root.align self.tail.align) self.extra.align) self.last.align

abbrev pub fits_exactly : Shape → (len tail_len : ℕ) → Bool
fits_exactly self len tail_len = leb (last_end self len tail_len) (limit (shape_align self))

pub round_up_zero : (align : ℕ) → 0 < align → round_up 0 align ≡ 0
round_up_zero align l =
    let split = round_up-split 0 align l in
    let low : (0 + (align - 1)) % align ≡ 0 + (align - 1) = mod-eq_of_lt (omega (arith, l)) in
    omega (arith, split, low)

module _ (self : Shape) (len tail_len : ℕ) (v : IsShape self) where
  shape_bounds-Reads : Reads (shape_bounds self len tail_len).size (last_end self len tail_len)
  unfolding shape_bounds
  shape_bounds-Reads =
      let unit : Bounds = new_bounds (record { size = 0; align = 1 }) in
      let zero_up = round_up_zero self.root.align (align-positive self.root.align v.root).0 in
      let one = extend-Reads self.root unit 0 len v.root (same-Reads 0 (omega arith)) in
      let start : after_plane self.root 0 len ≡ root_end self len = omega (arith, zero_up) in
      let first_plane : Reads (extend self.root unit len).size (root_end self len) =
        subst (λ s. Reads (extend self.root unit len).size s) start one.1 in
      let root_bounds = extend self.root unit len in
      let tail_bounds = extend self.tail root_bounds tail_len in
      let two =
        extend-Reads self.tail root_bounds (root_end self len) tail_len v.tail first_plane in
      let three =
        extend-Reads self.extra tail_bounds (tail_end self len tail_len) len v.extra two.1 in
      (extend-Reads self.last (extend self.extra tail_bounds len) (extra_end self len tail_len) len
        v.last three.1).1

  shape_bounds-align : (shape_bounds self len tail_len).align ≡ shape_align self
  unfolding shape_bounds extend
  shape_bounds-align =
      let least : larger 1 self.root.align ≡ self.root.align =
        ground (arith, (align-positive self.root.align v.root).0) in
      ap (λ a. larger (larger (larger a self.tail.align) self.extra.align) self.last.align) least

  pub shape_bounds-fits : fits (shape_bounds self len tail_len) ≡ fits_exactly self len tail_len
  shape_bounds-fits =
      word_within _ (last_end self len tail_len) (limit (shape_bounds self len tail_len).align)
        shape_bounds-Reads (omega arith)
      ∙ ap (λ a. leb (last_end self len tail_len) (limit a)) shape_bounds-align

  module _ (l : last_end self len tail_len ≤ isize_max) where
    -- Every plane ends before the next, and none wraps.
    ends :
        (root_end self len ≤ round_up (root_end self len) self.tail.align)
        × (tail_end self len tail_len ≤ round_up (tail_end self len tail_len) self.extra.align)
        × (extra_end self len tail_len ≤ round_up (extra_end self len tail_len) self.last.align)
    ends = (
      (round_up-between (root_end self len) self.tail.align
          (align-positive self.tail.align v.tail).0).0,
      (round_up-between (tail_end self len tail_len) self.extra.align
          (align-positive self.extra.align v.extra).0).0,
      (round_up-between (extra_end self len tail_len) self.last.align
          (align-positive self.last.align v.last).0).0,
    )

    pub tail_offset-exact :
        tail_offset self len tail_len ≡ round_up (root_end self len) self.tail.align
    unfolding tail_offset
    tail_offset-exact = ap (λ s. round_up s self.tail.align) (mod-eq_of_lt (omega (arith, l, ends)))

    pub extra_offset-exact :
        extra_offset self len tail_len ≡ round_up (tail_end self len tail_len) self.extra.align
    unfolding extra_offset
    extra_offset-exact =
        ap (λ s. round_up s self.extra.align)
          (ap (λ o. wrapping_add mod64 o (wrapping_mul mod64 self.tail.size tail_len))
              tail_offset-exact
            ∙ plane_word (round_up (root_end self len) self.tail.align) self.tail.size tail_len
                (omega (arith, l, ends)))

    pub last_offset-exact :
        last_offset self len tail_len ≡ round_up (extra_end self len tail_len) self.last.align
    unfolding last_offset
    last_offset-exact =
        ap (λ s. round_up s self.last.align)
          (ap (λ o. wrapping_add mod64 o (wrapping_mul mod64 self.extra.size len))
              extra_offset-exact
            ∙ plane_word (round_up (tail_end self len tail_len) self.extra.align) self.extra.size
                len (omega (arith, l, ends)))

    pub shape_layout-exact :
        shape_layout self len tail_len
        ≡ pad_to_align (record { size = last_end self len tail_len; align = shape_align self })
    unfolding shape_layout
    shape_layout-exact =
        ap (λ t. pad_to_align (record { size = t; align = shape_align self }))
          (ap (λ o. wrapping_add mod64 o (wrapping_mul mod64 self.last.size len)) last_offset-exact
            ∙ plane_word (round_up (extra_end self len tail_len) self.last.align) self.last.size len
                l)

  -- For a shape of four planes whose alignments are powers of two up to 2 ^ 62, the check of its
  -- layout with saturated sizes is exact, whatever the lengths: it succeeds exactly if the exact
  -- end of the planes leaves room for the alignment below `isize::MAX`, then with the very layout
  -- that the shape computes unchecked with wrapping sums, and is an overflow otherwise.
  pub try_layout-shape_layout : try_layout self len tail_len ≡ (
      if fits_exactly self len tail_len
      then ok (shape_layout self len tail_len)
      else err overflowed)
  unfolding try_layout
  try_layout-shape_layout = elim (Bool-cases (fits_exactly self len tail_len)) [
    | inl e ↦
        let l : last_end self len tail_len ≤ isize_max = ground (arith, e) in
        let bounds = shape_bounds self len tail_len in
        let whole : pad_to_align (bounds_layout bounds) ≡ shape_layout self len tail_len =
          ap (λ s. pad_to_align (record { size = s; align = bounds.align }))
            (shape_bounds-Reads.exact l)
          ∙ ap (λ a. pad_to_align (record { size = last_end self len tail_len; align = a }))
              shape_bounds-align
          ∙ sym (shape_layout-exact l) in
        rw (try_layout, shape_bounds-fits, e) (ap ok whole)
    | inr e ↦ rw (try_layout, shape_bounds-fits, e) refl
  ]
