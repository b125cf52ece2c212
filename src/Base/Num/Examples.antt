-- ===== src/Base/Num/Examples.antt =====
-- Instances for the bounded numbers of src/base/num.
use o.Prelude.{none, refl, ℕ, ◌≡◌}
use o.Base.Num.{Generation, initial_epoch, next_generation}
use o.Base.Num.U64.{U64}
use o.Base.Num.U32.{U32, NonZeroU32, Overflow}
use o.Base.Num.Size
use o.Base.Num.Size.{Usize, NonZeroUsize}

abbrev within : U32 2 9
within = record { value = 7 }

abbrev low : U32 2 9
low = record { value = 3 }

abbrev offset : U32 0 9
offset = record { value = 4 }

abbrev place : NonZeroU32 2 9
place = record { position = 5 }

abbrev count : Usize 9
count = record { value = 6 }

abbrev excess : Overflow 9
excess = record { excess = 3 }

abbrev sum : Usize 9
sum = record { value = 9 }

abbrev refused : Size.Error
refused = record { value = 6; incoming = 4; maximum = 9 }

-- The first epoch is one, and the last generation has no successor.
ends : (initial_epoch.value ≡ 1) × (next_generation 7 (record { value = 7 }) ≡ none)
unfolding initial_epoch next_generation
ends = (refl, refl)

abbrev generation : ℕ → Generation 9
generation value = record { value = value }

abbrev word : ℕ → U64 0 20
word value = record { value = value }
