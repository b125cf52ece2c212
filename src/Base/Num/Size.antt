-- ===== src/Base/Num/Size.antt =====
-- src/base/num/bounded/mod.rs, `Usize` and `NonZeroUsize`: bounded counts.
use o.Prelude.{
  ℕ, ◌+◌, ◌-◌, Option, none, some, Result, ok, err, ltb, leb, ◌&&◌, if◌then◌else◌, as_u32, nonzero,
}
use o.Base.Num.U32.{U32}

pub record Usize (max : ℕ) : Type 0 where
  pub value : ℕ

pub record NonZeroUsize (min max : ℕ) : Type 0 where
  pub count : ℕ

-- `Error`: the exact addition that exceeded its range.
pub record Error : Type 0 where
  pub value : ℕ
  pub incoming : ℕ
  pub maximum : ℕ

module _ (min max : ℕ) where
  unfoldable pub new : ℕ → Option (NonZeroUsize min max)
  new value = elim (nonzero value) [
    | some count ↦ if leb min count && leb count max then some (record { count = count }) else none
    | none ↦ none
  ]

  abbrev pub into_count : NonZeroUsize min max → Usize max
  into_count self = record { value = self.count }

  unfoldable pub prior : NonZeroUsize min max → Usize max
  prior self = record { value = self.count - 1 }

module _ (max : ℕ) where
  unfoldable pub after : NonZeroUsize 1 max → Usize max → Option (NonZeroUsize 1 max)
  after self value =
      if ltb value.value self.count then some (record { count = 1 + value.value }) else none

  -- `Usize::nonzero`
  abbrev pub classify : Usize max → Option (NonZeroUsize 1 max)
  classify self = elim (nonzero self.value) [
    | some count ↦ some (record { count = count })
    | none ↦ none
  ]

  unfoldable pub try_add : Usize max → ℕ → Result Error (Usize max)
  try_add self incoming =
      if ltb (max - self.value) incoming
      then err (record { value = self.value; incoming = 1 + (incoming - 1); maximum = max })
      else ok (record { value = self.value + incoming })

  -- `Usize::into_u32::<END>`, under its const assertion
  abbrev pub narrow : (end : ℕ) → Usize max → U32 0 end
  narrow end self = record { value = as_u32 self.value }
