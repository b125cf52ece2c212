-- ===== src/Map/Examples.antt =====
-- Runs and instances for the hash directory.
use o.Prelude.{false, ℕ, zero, suc, ◌+◌, ◌≡◌, ◌↔◌, refl, ok, ◌==◌, if◌then◌else◌, arith}
use o.Map.{Table, new_plan, empty_control, scan}
use o.Map.Edit.{remove}
use o.Map.Closing.{IsDirectory, home}
use o.Map.Backshift.{IsProbed}
use o.Map.Lookup.{Outcome, scan-Outcome}
use o.Map.Plans.{IsPlan, new_plan-ok_iff}
use o.Map.Removal.{IsRemoved, remove-keeps}

new_plan-ok_iff_example :
    (new_plan 2 ≡ ok (record { capacity = record { count = 2 } }))
    ↔ IsPlan 2 (record { capacity = record { count = 2 } })
new_plan-ok_iff_example = new_plan-ok_iff 2 (record { capacity = record { count = 2 } })

-- Entries of the hashes 2, 2 and 3 in the buckets 2, 3 and 0 of four.
abbrev wrapped : Table ℕ
wrapped = record {
  controls = λ i. if i == 1 then empty_control else 0;
  hashes = λ i. if i == 0 then 3 else 2;
  payloads = λ i. i + 40;
  buckets = 4;
}

wrapped-IsProbed : IsProbed 4 wrapped.controls (home wrapped)
wrapped-IsProbed zero j l m o p q = ground arith
wrapped-IsProbed (suc zero) j l m o p q = o refl
wrapped-IsProbed (suc (suc zero)) j l m o p q = ground arith
wrapped-IsProbed (suc (suc (suc zero))) j l m o p q = ground arith
wrapped-IsProbed (suc (suc (suc (suc i)))) j l m o p q = omega arith

wrapped-IsDirectory : IsDirectory wrapped
wrapped-IsDirectory = record {
  extent = record { digits = 2; small = omega arith; is_power = refl };
  words = λ i l o. ground arith;
  tags = λ i l o. ground arith;
  probed = wrapped-IsProbed;
}

remove-keeps_example : IsRemoved wrapped 2 (remove wrapped 2)
remove-keeps_example =
    remove-keeps wrapped 2 1 wrapped-IsDirectory (omega arith) (omega arith) refl (ground arith)

scan-Outcome_example :
    Outcome {E = ℕ} wrapped 3 (λ b. b == 0) (scan false wrapped 3 (λ b. ok (b == 0)))
scan-Outcome_example =
    scan-Outcome wrapped wrapped-IsDirectory ℕ 3 (λ b. b == 0) 1 (omega arith) refl false
