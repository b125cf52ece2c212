-- ===== src/Alloc/Greatest.antt =====
-- `Rows::EXTRA_MAX`: the greatest length of planes that fit together.
use Prim.Native.Nat.{bit_and}
use native.Mathlib.Nat.{mul-le-mul_left, div-le_self}
use native.Mathlib.Omega.{pow_step}
use o.Prelude.{
  ℕ, zero, suc, ◌+◌, ◌-◌, ◌/◌, ◌^◌, ◌<◌, ◌≤◌, ◌≡◌, sym, ap, ◌∙◌, Bool, true, false, ltb, leb, ◌==◌,
  arith, Bool-cases, inl, inr, mod64,
}
use o.Alloc.{Element, Shape, fits, isize_max, larger, shape_bounds, rows_max, search, extra_max}
use o.Alloc.Size.{IsAlign, round_up_mono, round_word}
use o.Alloc.Extend.{align-positive, after_plane, larger-IsAlign}
use o.Alloc.Planes.{
  IsShape, round_up_zero, root_end, tail_end, extra_end, last_end, fits_exactly, shape_bounds-fits,
}

after_plane_mono :
    (element : Element) (a b m n : ℕ)
    → IsAlign element.align
    → a ≤ b
    → m ≤ n
    → after_plane element a m ≤ after_plane element b n
after_plane_mono element a b m n v l h =
    let up = round_up_mono a b element.align (align-positive element.align v).0 l in
    let more = mul-le-mul_left element.size h in omega (arith, up, more)

-- What a search comes to between bounds of which the lower passes and nothing above the higher does,
-- for a test that what is below a number that passes does, too.
module _ (test : ℕ → Bool) (down : (m n : ℕ) → m ≤ n → test n ≡ true → test m ≡ true)
    (max : ℕ) where
  between_bounds :
      (low high : ℕ)
      → high ≤ low
      → test low ≡ true
      → ((n : ℕ) → high < n → n ≤ max → test n ≡ false)
      → (n : ℕ) → n ≤ max
      → test n ≡ leb n low
  between_bounds low high l e f n m = elim (Bool-cases (leb n low)) [
    | inl b ↦ down n low (ground (arith, b)) e ∙ sym b
    | inr b ↦ f n (ground (arith, b, l)) m ∙ sym b
  ]

  search-greatest :
      (fuel low high : ℕ)
      → high - low < 2 ^ fuel
      → test low ≡ true
      → ((n : ℕ) → high < n → n ≤ max → test n ≡ false)
      → (n : ℕ) → n ≤ max
      → test n ≡ leb n (search test fuel low high)
  unfolding search
  search-greatest zero low high d e f n m = between_bounds low high (omega (arith, d)) e f n m
  search-greatest (suc fuel) low high d e f n m = elim (Bool-cases (ltb low high)) [
    | inr b ↦ rw (search, b) (between_bounds low high (ground (arith, b)) e f n m)
    | inl b ↦
        let count = low + (high - low + 1) / 2 in
        let more : low < high = ground (arith, b) in
        let twice = pow_step 2 fuel in
        elim (Bool-cases (test count)) [
          | inl t ↦
              rw (search, b, t)
                (search-greatest fuel count high (omega (arith, d, twice, more)) t f n m)
          | inr t ↦
              rw (search, b, t)
                (search-greatest fuel low (count - 1) (omega (arith, d, twice, more)) e
                  (λ k p q. elim (Bool-cases (test k)) [
                    | inr x ↦ x
                    | inl x ↦ absurd (ground (arith, t, down count k (omega (arith, p, more)) x))
                  ])
                  n m)
        ]
  ]

module _ (self : Shape) (v : IsShape self) where
  last_end_mono : (m n : ℕ) → m ≤ n → last_end self m m ≤ last_end self n n
  last_end_mono m n l =
      after_plane_mono self.last (extra_end self m m) (extra_end self n n) m n v.last
        (after_plane_mono self.extra (tail_end self m m) (tail_end self n n) m n v.extra
          (after_plane_mono self.tail (root_end self m) (root_end self n) m n v.tail
            (mul-le-mul_left self.root.size l) l)
          l)
        l

  -- Planes shorter than some that fit do, too.
  fits_below :
      (m n : ℕ) → m ≤ n → fits (shape_bounds self n n) ≡ true → fits (shape_bounds self m m) ≡ true
  fits_below m n l e =
      let more = last_end_mono m n l in
      let exact : fits_exactly self n n ≡ true = sym (shape_bounds-fits self n n v) ∙ e in
      shape_bounds-fits self m m v ∙ ground (arith, more, exact)

  empty_plane :
      (element : Element) (size : ℕ)
      → IsAlign element.align
      → size ≡ 0
      → after_plane element size 0 ≡ 0
  empty_plane element size w e =
      let none_up = round_up_zero element.align (align-positive element.align w).0 in
      ap (λ s. after_plane element s 0) e ∙ omega (arith, none_up)

  fits_none : fits (shape_bounds self 0 0) ≡ true
  fits_none =
      let nothing : last_end self 0 0 ≡ 0 = empty_plane self.last (extra_end self 0 0) v.last (
        empty_plane self.extra (tail_end self 0 0) v.extra
          (empty_plane self.tail (root_end self 0) v.tail (omega arith))) in
      shape_bounds-fits self 0 0 v ∙ ground (arith, nothing)

  rows_max-bound : rows_max self < mod64
  rows_max-bound =
      let (k, l, e) = larger-IsAlign self.root.align self.tail.align v.root v.tail in
      let whole =
        round_word isize_max (larger self.root.align self.tail.align) (k, l, e) (omega arith) in
      let size = self.root.size + self.tail.size in
      let small =
        div-le_self (bit_and isize_max (mod64 - larger self.root.align self.tail.align)) size in
      elim (Bool-cases (size == 0)) [
        | inl b ↦ rw b (omega arith)
        | inr b ↦ rw b (omega (arith, small, whole))
      ]

  -- For a shape whose alignments are powers of two up to 2 ^ 62, the search of `EXTRA_MAX` ends
  -- within 64 rounds, and of the row counts up to `MAX` exactly those up to `EXTRA_MAX` fit in one
  -- allocation.
  pub extra_max-fits :
      (n : ℕ) → n ≤ rows_max self → fits (shape_bounds self n n) ≡ leb n (extra_max self)
  unfolding extra_max
  extra_max-fits n l =
      search-greatest (λ count. fits (shape_bounds self count count)) fits_below (rows_max self) 64
        0 (rows_max self) (omega (arith, rows_max-bound)) fits_none
        (λ k p q. absurd (omega (arith, p, q))) n l
