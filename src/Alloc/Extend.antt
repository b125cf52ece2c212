-- ===== src/Alloc/Extend.antt =====
-- One more plane behind a layout: the admission with saturated sizes against the exact ones.
use native.Mathlib.Nat.{mod-eq_of_lt}
use o.Prelude.{
  sym, mod64, wrapping_add, wrapping_mul, ℕ, ◌+◌, ◌-◌, ◌*◌, ◌^◌, ◌<◌, ◌≤◌, ◌≡◌, refl, ap, ◌∙◌, ok,
  err, ltb, leb, if◌then◌else◌, arith, Bool-cases, inl, inr, two_pow-pos,
}
use o.Alloc.{
  Element, Layout, Bounds, overflowed, extend, fits, new_bounds, try_extend, fits_after,
  extend_unchecked, round_up, larger, isize_max,
}
use o.Alloc.Size.{IsAlign, Reads, align-bound, round_up-Reads, sum-Reads}

pub align-positive : (align : ℕ) → IsAlign align → (0 < align) × (align ≤ 2 ^ 62)
align-positive align (k, l, e) = (rw e (two_pow-pos k), rw e (align-bound k l))

pub larger-IsAlign : (a b : ℕ) → IsAlign a → IsAlign b → IsAlign (larger a b)
larger-IsAlign a b v w = elim (Bool-cases (ltb b a)) [ inl e ↦ rw e v | inr e ↦ rw e w ]

-- The size behind one more plane.
abbrev pub after_plane : Element → (size len : ℕ) → ℕ
after_plane element size len = round_up size element.align + element.size * len

pub extend-Reads :
    (element : Element) (self : Bounds) (size len : ℕ)
    → IsAlign element.align
    → Reads self.size size
    → Reads (extend element self len).offset (round_up size element.align)
      × Reads (extend element self len).size (after_plane element size len)
unfolding extend
extend-Reads element self size len a v =
    let up = round_up-Reads self.size size element.align a v in
    (up, sum-Reads _ (round_up size element.align) element.size len up)

-- A limit that no saturated size is below.
abbrev pub limit : ℕ → ℕ
limit align = isize_max - (align - 1)

pub word_within :
    (word size bound : ℕ) → Reads word size → bound ≤ isize_max → leb word bound ≡ leb size bound
word_within word size bound v l = ground (arith, l, v.exact, v.above)

pub same-Reads : (size : ℕ) → size ≤ isize_max → Reads size size
same-Reads size l = record { exact = λ m. refl; above = λ m. m; bounded = omega (arith, l) }

-- Sums of words that fit do not wrap.
pub plane_word :
    (offset each len : ℕ)
    → offset + each * len ≤ isize_max
    → wrapping_add mod64 offset (wrapping_mul mod64 each len) ≡ offset + each * len
plane_word offset each len l =
    let product : wrapping_mul mod64 each len ≡ each * len = mod-eq_of_lt (omega (arith, l)) in
    ap (λ y. wrapping_add mod64 offset y) product ∙ mod-eq_of_lt (omega (arith, l))

-- For an element whose alignment is a power of two up to 2 ^ 62, behind a layout of at most
-- `isize::MAX` bytes, a checked extension is the unchecked one, with its sums of words, exactly where
-- the exact size leaves room for the alignment, and is an overflow elsewhere; and `fits_after` tells
-- which.
pub try_extend-extend_unchecked :
    (element : Element) (prior : Layout) (len : ℕ)
    → IsAlign element.align
    → prior.size ≤ isize_max
    → let room =
        leb
          (round_up prior.size element.align + element.size * len)
          (isize_max - (larger prior.align element.align - 1)) in
      (try_extend element prior len
        ≡ (if room then ok (extend_unchecked element prior len) else err overflowed))
      × (fits_after element prior len ≡ room)
unfolding try_extend fits_after extend extend_unchecked
try_extend-extend_unchecked element prior len a l =
    let (up, sum) =
      extend-Reads element (new_bounds prior) prior.size len a (same-Reads prior.size l) in
    let align = larger prior.align element.align in
    let start = round_up prior.size element.align in
    let size = after_plane element prior.size len in
    let bounds = extend element (new_bounds prior) len in
    let admits : fits bounds ≡ leb size (limit align) =
      word_within bounds.size size (limit align) sum (omega arith) in
    (
      elim (Bool-cases (leb size (limit align))) [
        | inl e ↦
            let inside : size ≤ isize_max = ground (arith, e) in
            let whole : bounds.size
                ≡ wrapping_add mod64 start (wrapping_mul mod64 element.size len) =
              sum.exact inside ∙ sym (plane_word start element.size len inside) in
            let offset : bounds.offset ≡ start = up.exact (omega (arith, inside)) in
            rw (try_extend, admits, e)
              (ap (λ s. ok (record { size = s; align = align }, bounds.offset)) whole
                ∙ ap
                    (λ o. ok (
                      record {
                        size = wrapping_add mod64 start (wrapping_mul mod64 element.size len);
                        align = align;
                      },
                      o,
                    ))
                    offset)
        | inr e ↦ rw (try_extend, admits, e) refl
      ],
      admits,
    )
