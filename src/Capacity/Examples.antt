-- ===== src/Capacity/Examples.antt =====
-- Instances for counts.
use o.Prelude.{ℕ}
use o.Capacity.{Count, Limit, Error}

abbrev count : ℕ → Count
count n = record { count = n }

abbrev error : ℕ → Error
error n = record { requested = n }

abbrev limit : ℕ → Limit 16
limit n = record { limit = n }
