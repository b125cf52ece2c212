-- ===== src/Alloc/Grow.antt =====
-- `Layout::try_grow`: every outcome of a growth.
use o.Prelude.{
  ℕ, ◌+◌, ◌-◌, ◌*◌, ◌<◌, ◌≤◌, ◌≡◌, Bool, true, false, Result, ok, err, ltb, leb, arith, Bool-cases,
  inl, inr, mod64,
}
use o.Alloc.{
  Element, Layout, Error, exhausted, overflow, Buffer, isize_max, saturating_mul, reserve, granted,
  wanted, try_grow,
}

module _ (allocate : Layout → Bool) (resize : Layout → Layout → Bool) (element : Element)
    (geometric : Bool) (self : Buffer) (extra : ℕ) where
  -- The layout of an array of as many elements.
  abbrev pub target : ℕ → Layout
  target capacity = record { size = element.size * capacity; align = element.align }

  abbrev pub sought : ℕ
  sought = wanted allocate resize element geometric self (self.len + extra)

  -- What a growth comes to: room for `extra` more, or an error that leaves the buffer as it was.
  pub data Outcome : Result Error (Unit {0}) × Buffer → Type 0 where
    roomy : self.len + extra < mod64 → self.len + extra ≤ self.capacity → Outcome (ok tt, self)
    too_many : mod64 ≤ self.len + extra → Outcome (err overflow, self)
    too_large :
        self.capacity < self.len + extra
        → isize_max - (element.align - 1) < element.size * sought
        → Outcome (err overflow, self)
    refused :
        self.capacity < self.len + extra
        → granted allocate resize element self (target sought) ≡ false
        → Outcome (err exhausted, self)
    grown :
        (capacity : ℕ)
        → self.capacity < self.len + extra
        → self.len + extra ≤ capacity
        → (geometric ≡ true → saturating_mul self.capacity 2 ≤ capacity)
        → (geometric ≡ false → capacity ≡ self.len + extra)
        → element.size * capacity ≤ isize_max - (element.align - 1)
        → granted allocate resize element self (target capacity) ≡ true
        → Outcome (ok tt, record self { capacity = capacity })

  sought-bound : self.capacity < self.len + extra → self.len + extra ≤ sought
  unfolding reserve
  sought-bound l = ground (arith, l)

  sought-doubles :
      self.capacity < self.len + extra → geometric ≡ true → saturating_mul self.capacity 2 ≤ sought
  unfolding reserve
  sought-doubles l e = ground (arith, l, e)

  sought-plain : geometric ≡ false → sought ≡ self.len + extra
  unfolding reserve
  sought-plain e = ground (arith, e)

  -- A growth by `extra`, with any allocator, either finds or makes room for as many more elements,
  -- by a layout that is representable and at least doubles where it is geometric, or keeps the
  -- buffer as it was: it overflows where the length or the layout does, and is exhausted where the
  -- allocator refuses that layout.
  pub try_grow-Outcome : Outcome (try_grow allocate resize element geometric self extra)
  unfolding try_grow
  try_grow-Outcome = elim (Bool-cases (ltb (self.len + extra) mod64)) [
    | inr b ↦ rw (try_grow, b) (too_many (ground (arith, b)))
    | inl b ↦ elim (Bool-cases (leb (self.len + extra) self.capacity)) [
      | inl c ↦ rw (try_grow, b, c) (roomy (ground (arith, b)) (ground (arith, c)))
      | inr c ↦
          let more : self.capacity < self.len + extra = ground (arith, c) in
          elim (Bool-cases (leb (element.size * sought) (isize_max - (element.align - 1)))) [
            | inr d ↦ rw (try_grow, b, c, d) (too_large more (ground (arith, d)))
            | inl d ↦ elim (Bool-cases (granted allocate resize element self (target sought))) [
              | inr g ↦ rw (try_grow, b, c, d, g) (refused more g)
              | inl g ↦
                  rw (try_grow, b, c, d, g)
                    (grown sought more (sought-bound more) (sought-doubles more) sought-plain
                      (ground (arith, d)) g)
            ]
          ]
    ]
  ]
