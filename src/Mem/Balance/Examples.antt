-- ===== src/Mem/Balance/Examples.antt =====
-- Two axes of fair credit of 32 bits: the first is within its reserve, the second is above it.
use o.Prelude.{ℕ, zero, suc, ◌+◌, ◌-◌, ◌≡◌, ◌↔◌, List, [], ◌∷◌, ok, err, refl, arith, mod32}
use o.Mem.Balance.{
  Balance, acquire_axis, try_acquire, release_raw, acquire_raw, demand, exhausted, overflow,
}
use o.Mem.Balance.Axes.{IsFair, AllLe}
use o.Mem.Balance.Totals.{at, total_at}
use o.Mem.Balance.Grants.{try_charge, drop_charge, Steps, charge, split, release, here, after}
use o.Mem.Balance.Backed.{grants_conserve}
use o.Mem.Balance.Laws.{
  IsFairBalance, IsWithin, try_acquire_total, release_raw-IsFair, reserve_guaranteed,
}

abbrev limits : List ℕ
limits = 10 ∷ 10 ∷ []

abbrev others : List ℕ
others = 7 ∷ 2 ∷ []

abbrev reserves : List ℕ
reserves = 5 ∷ 3 ∷ []

abbrev balance : Balance
balance = record { held = 2 ∷ 6 ∷ []; shared = 3 ∷ 5 ∷ [] }

balance-IsFair : IsFairBalance mod32 limits others reserves balance
balance-IsFair =
    IsFair.cons (record { conserved = refl; fits_word = omega arith })
      (IsFair.cons (record { conserved = refl; fits_word = omega arith }) IsFair.nil)

refusals :
    (try_acquire mod32 balance reserves (7 ∷ 0 ∷ []) ≡ err (exhausted 0 4 3))
    × (try_acquire mod32 balance reserves (0 ∷ 4294967290 ∷ []) ≡ err (overflow 1 6 4294967290))
unfolding try_acquire acquire_axis
refusals = (refl, refl)

abbrev acquired : Balance
acquired = record { held = 6 ∷ 8 ∷ []; shared = 2 ∷ 3 ∷ [] }

try_acquire_total_example : (try_acquire mod32 balance reserves (4 ∷ 2 ∷ []) ≡ ok acquired) ↔ (
    AllLe (demand balance reserves (4 ∷ 2 ∷ [])) balance.shared
    × (acquired ≡ acquire_raw mod32 balance reserves (4 ∷ 2 ∷ []))
    × IsFairBalance mod32 limits others reserves acquired
    × (release_raw mod32 acquired reserves (4 ∷ 2 ∷ []) ≡ balance))
try_acquire_total_example =
    try_acquire_total mod32 limits others reserves (4 ∷ 2 ∷ []) balance balance-IsFair refl acquired

release_raw-IsFair_example :
    IsFairBalance mod32 limits others reserves (release_raw mod32 balance reserves (1 ∷ 4 ∷ []))
release_raw-IsFair_example =
    release_raw-IsFair mod32 limits others reserves (1 ∷ 4 ∷ []) balance balance-IsFair refl
      (omega arith)

reserve_guaranteed_example :
    (c : Balance) × (try_acquire mod32 (record { held = 2 ∷ []; shared = 0 ∷ [] }) (5 ∷ []) (3 ∷ [])
      ≡ ok c)
    × (c.shared ≡ 0 ∷ [])
reserve_guaranteed_example =
    reserve_guaranteed mod32 (10 ∷ []) (10 ∷ []) (5 ∷ []) (3 ∷ [])
      (record { held = 2 ∷ []; shared = 0 ∷ [] })
      (IsFair.cons (record { conserved = refl; fits_word = omega arith }) IsFair.nil)
      (IsWithin.cons (omega arith) IsWithin.nil)

-- A lane that holds nothing, charged, whose grant is split and of which one part is returned.
abbrev idle_lane : Balance
idle_lane = record { held = 0 ∷ 0 ∷ []; shared = 3 ∷ 8 ∷ [] }

idle_lane-IsFair : IsFairBalance mod32 limits others reserves idle_lane
idle_lane-IsFair =
    IsFair.cons (record { conserved = refl; fits_word = omega arith })
      (IsFair.cons (record { conserved = refl; fits_word = omega arith }) IsFair.nil)

idle_lane-held : (k : ℕ) → at idle_lane.held k ≡ 0
idle_lane-held zero = refl
idle_lane-held (suc zero) = refl
idle_lane-held (suc (suc k)) = refl

abbrev whole : List ℕ
whole = 6 ∷ 4 ∷ []

abbrev charged_lane : Balance
charged_lane = (try_charge mod32 idle_lane reserves whole).1

whole_charged : (try_charge mod32 idle_lane reserves whole).0 ≡ ok tt
unfolding try_charge try_acquire acquire_axis
whole_charged = refl

abbrev first_part : List ℕ
first_part = 5 ∷ 1 ∷ []

abbrev second_part : List ℕ
second_part = 1 ∷ 3 ∷ []

parts_sum : (k : ℕ) → at first_part k + at second_part k ≡ at whole k
parts_sum zero = refl
parts_sum (suc zero) = refl
parts_sum (suc (suc k)) = refl

returned :
    Steps mod32 2 reserves idle_lane []
      (drop_charge mod32 charged_lane reserves first_part)
      (second_part ∷ [])
returned =
    after
      (after (after here (charge whole [] refl whole_charged))
        (split whole first_part second_part [] refl refl parts_sum))
      (release first_part (second_part ∷ []))

grants_conserve_example :
    (at (drop_charge mod32 charged_lane reserves first_part).held 0 ≡ total_at (second_part ∷ []) 0)
    × (at (drop_charge mod32 charged_lane reserves first_part).shared 0
          + (total_at (second_part ∷ []) 0 - at reserves 0)
          + at others 0
        ≡ at limits 0)
grants_conserve_example =
    grants_conserve mod32 limits others reserves idle_lane
      (drop_charge mod32 charged_lane reserves first_part) (second_part ∷ []) idle_lane-IsFair
      idle_lane-held returned 0
