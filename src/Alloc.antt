-- ===== src/Alloc.antt =====
-- src/alloc/raw: layouts of planes in one allocation (layout.rs, `Bundle` of mod.rs, shape.rs, rows.rs).
-- A type is what a layout needs of it, its size and its alignment. `Layout` is the standard library's,
-- of which `pad_to_align` rounds the size up to a multiple of the alignment.
pub mod Size
pub mod Extend
pub mod Planes
pub mod Apart
pub mod Greatest
pub mod Grow
mod Examples
use Prim.Native.Nat.{bit_and}
use o.Prelude.{
  ℕ, zero, suc, ◌+◌, ◌-◌, ◌*◌, ◌/◌, ◌^◌, Bool, true, false, Result, ok, err, Option, none, some,
  ltb, leb, ◌==◌, if◌then◌else◌, mod64, checked_add, wrapping_add, wrapping_mul,
}

abbrev pub isize_max : ℕ
isize_max = 2 ^ 63 - 1

abbrev pub saturating_add : ℕ → ℕ → ℕ
saturating_add a b = if ltb (a + b) mod64 then a + b else mod64 - 1

abbrev pub saturating_mul : ℕ → ℕ → ℕ
saturating_mul a b = if ltb (a * b) mod64 then a * b else mod64 - 1

abbrev pub larger : ℕ → ℕ → ℕ
larger a b = if ltb b a then a else b

pub record Element : Type 0 where
  pub size : ℕ
  pub align : ℕ

pub record Layout : Type 0 where
  pub size : ℕ
  pub align : ℕ

pub data Overflow : Type 0 where
  overflowed : Overflow

-- `alloc::Error`
pub data Error : Type 0 where
  exhausted : Error
  overflow : Error

pub record Bounds : Type 0 where
  pub size : ℕ
  pub align : ℕ
  pub offset : ℕ

abbrev pub round_up : (size align : ℕ) → ℕ
round_up size align = (size + (align - 1)) / align * align

abbrev pub pad_to_align : Layout → Layout
pad_to_align self = record self { size = round_up self.size self.align }

-- `Bounds::new`
abbrev pub new_bounds : Layout → Bounds
new_bounds layout = record { size = layout.size; align = layout.align; offset = 0 }

-- `Bounds::extend`
unfoldable pub extend : Element → Bounds → (len : ℕ) → Bounds
extend element self len =
    let align = larger self.align element.align in
    let offset = bit_and (saturating_add self.size (element.align - 1)) (mod64 - element.align) in
    record {
      size = saturating_add offset (saturating_mul element.size len);
      align = align;
      offset = offset;
    }

-- `Bounds::fits`
abbrev pub fits : Bounds → Bool
fits self = leb self.size (isize_max - (self.align - 1))

-- `Bounds::layout`
abbrev pub bounds_layout : Bounds → Layout
bounds_layout self = record { size = self.size; align = self.align }

-- `Layout::try_extend`
unfoldable pub try_extend : Element → Layout → (len : ℕ) → Result Overflow (Layout × ℕ)
try_extend element prior len =
    let bounds = extend element (new_bounds prior) len in
    if fits bounds then ok (bounds_layout bounds, bounds.offset) else err overflowed

-- `Layout::fits_after`
unfoldable pub fits_after : Element → Layout → (len : ℕ) → Bool
fits_after element prior len = fits (extend element (new_bounds prior) len)

-- `Layout::offset`
abbrev pub offset_of : Element → (size : ℕ) → ℕ
offset_of element size = (pad_to_align (record { size = size; align = element.align })).size

-- `Layout::at`
abbrev pub layout_at : Element → (offset len align : ℕ) → Layout
layout_at element offset len align = record {
  size = wrapping_add mod64 offset (wrapping_mul mod64 element.size len);
  align = larger align element.align;
}

-- `Layout::extend`
unfoldable pub extend_unchecked : Element → Layout → (len : ℕ) → Layout × ℕ
extend_unchecked element prior len =
    let offset = offset_of element prior.size in (layout_at element offset len prior.align, offset)

-- The element types of a `Shape`
pub record Shape : Type 0 where
  pub root : Element
  pub tail : Element
  pub extra : Element
  pub last : Element

-- `Bundle::bounds`
unfoldable pub shape_bounds : Shape → (len tail_len : ℕ) → Bounds
unfolding extend
shape_bounds self len tail_len =
    extend self.last
      (extend self.extra
        (extend self.tail (extend self.root (new_bounds (record { size = 0; align = 1 })) len)
          tail_len)
        len)
      len

-- `Bundle::try_layout`
unfoldable pub try_layout : Shape → (len tail_len : ℕ) → Result Overflow Layout
unfolding shape_bounds
try_layout self len tail_len =
    let bounds = shape_bounds self len tail_len in
    if fits bounds then ok (pad_to_align (bounds_layout bounds)) else err overflowed

-- `Shape::offset`, `Shape::extra`, `Shape::last` and `Shape::layout`
unfoldable pub tail_offset : Shape → (len tail_len : ℕ) → ℕ
tail_offset self len tail_len = offset_of self.tail (wrapping_mul mod64 self.root.size len)

unfoldable pub extra_offset : Shape → (len tail_len : ℕ) → ℕ
unfolding tail_offset
extra_offset self len tail_len = offset_of self.extra (
    wrapping_add mod64 (tail_offset self len tail_len) (wrapping_mul mod64 self.tail.size tail_len))

unfoldable pub last_offset : Shape → (len tail_len : ℕ) → ℕ
unfolding extra_offset
last_offset self len tail_len =
    offset_of self.last
      (wrapping_add mod64 (extra_offset self len tail_len) (wrapping_mul mod64 self.extra.size len))

unfoldable pub shape_layout : Shape → (len tail_len : ℕ) → Layout
unfolding last_offset
shape_layout self len tail_len =
    let align = larger (larger self.root.align self.tail.align) self.extra.align in
    pad_to_align (layout_at self.last (last_offset self len tail_len) len align)

-- `Rows::MAX`
abbrev pub rows_max : Shape → ℕ
rows_max self =
    let align = larger self.root.align self.tail.align in
    let bound = bit_and isize_max (mod64 - align) in
    let size = self.root.size + self.tail.size in if size == 0 then mod64 - 1 else bound / size

-- The loop of `Rows::EXTRA_MAX` for its test of a count; the fuel bounds its rounds.
unfoldable pub search : (ℕ → Bool) → (fuel low high : ℕ) → ℕ
search test zero low high = low
search test (suc fuel) low high =
    let count = low + (high - low + 1) / 2 in
    elim (ltb low high) as (λ x. ℕ) [
      | false ↦ low
      | true ↦ elim (test count) as (λ x. ℕ) [
        | true ↦ search test fuel count high
        | false ↦ search test fuel low (count - 1)
      ]
    ]

-- `Rows::EXTRA_MAX`
unfoldable pub extra_max : Shape → ℕ
unfolding search
extra_max self = search (λ count. fits (shape_bounds self count count)) 64 0 (rows_max self)

-- `Layout::reserve`
unfoldable pub reserve : Element → (capacity required : ℕ) → ℕ
reserve element capacity required =
    let minimum = if element.size == 1 then 8 else if leb element.size 1024 then 4 else 1 in
    if leb required capacity
    then capacity
    else larger minimum (larger (saturating_mul capacity 2) required)

-- `Layout::array` of the standard library, as `Layout::try_layout` passes it on
abbrev pub array_layout : Element → (len : ℕ) → Result Overflow Layout
array_layout element len =
    if leb (element.size * len) (isize_max - (element.align - 1))
    then ok (record { size = element.size * len; align = element.align })
    else err overflowed

-- What a `Vec` tells of its buffer
pub record Buffer : Type 0 where
  pub len : ℕ
  pub capacity : ℕ

-- Growth, for an allocator that grants or refuses a layout, and a move from a layout to another
module _ (allocate : Layout → Bool) (resize : Layout → Layout → Bool) (element : Element) where
  -- `LayoutExt::try_allocate`
  abbrev pub try_allocate : Layout → Bool
  try_allocate target = if target.size == 0 then true else allocate target

  abbrev pub granted : Buffer → Layout → Bool
  granted self target =
      let source = layout_at element 0 self.capacity element.align in
      if source.size == 0 then try_allocate target else resize source target

  abbrev pub wanted : (geometric : Bool) → Buffer → (needed : ℕ) → ℕ
  unfolding reserve
  wanted geometric self needed = if geometric then reserve element self.capacity needed else needed

  -- `Layout::try_grow`
  unfoldable pub try_grow :
      (geometric : Bool) → Buffer → (extra : ℕ) → Result Error (Unit {0}) × Buffer
  try_grow geometric self extra =
      elim (checked_add mod64 self.len extra) as (λ x. Result Error (Unit {0}) × Buffer) [
        | none ↦ (err overflow, self)
        | some needed ↦ elim (leb needed self.capacity) as (λ x. Result Error (Unit {0}) × Buffer) [
          | true ↦ (ok tt, self)
          | false ↦
              elim (array_layout element (wanted geometric self needed))
                as (λ x. Result Error (Unit {0}) × Buffer) [
                  | err e ↦ (err overflow, self)
                  | ok target ↦
                      if granted self target
                      then (ok tt, record self { capacity = wanted geometric self needed })
                      else (err exhausted, self)
                ]
        ]
      ]
