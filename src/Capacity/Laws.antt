-- ===== src/Capacity/Laws.antt =====
-- Which counts are admitted.
use o.Prelude.{ℕ, ◌+◌, ◌≤◌, ◌<◌, ◌≡◌, ◌≢◌, ◌↔◌, some, ok, err, arith, mod32}
use o.Capacity.{
  Count, Limit, Error, try_index, try_from, try_nonzero, nonzero_count, new_limit, limit_max,
  u32_max,
}

-- `try_index` admits exactly the counts that fit 32 bits and whose last index, if there is one, is at
-- most the maximum, keeps them, and in every other case returns the caller's error.
pub try_index_total :
    (count maximum : ℕ) (e : Error) (c : Count)
    → ((try_index count maximum e ≡ ok c)
        ↔ ((c.count ≡ count) × (count ≤ u32_max) × (count ≤ maximum + 1)))
      × ((try_index count maximum e ≡ err e) ↔ (¬ ((count ≤ u32_max) × (count ≤ maximum + 1))))
unfolding try_index
try_index_total count maximum e c = (ground arith, ground arith)

-- On a count that is not zero, `try_from` and `try_nonzero` admit alike: one yields a count exactly
-- when the other yields its number, which `nonzero` gives back, and their errors are the same.
pub try_from-try_nonzero :
    (count : ℕ) (c : Count) (e : Error)
    → count ≢ 0
    → ((try_from count ≡ ok c)
        ↔ ((try_nonzero count ≡ ok c.count) × (nonzero_count c ≡ some count)))
      × ((try_from count ≡ err e) ↔ (try_nonzero count ≡ err e))
unfolding try_from try_nonzero nonzero_count
try_from-try_nonzero count c e h = (ground arith, ground arith)

-- `Limit::new` accepts exactly the values from one to the maximum that fit 32 bits, and keeps them:
-- neither its cast nor its saturating addition changes one.
pub new_limit-some_iff :
    (max value : ℕ) (l : Limit max)
    → (new_limit max value ≡ some l)
      ↔ ((l.limit ≡ value) × (1 ≤ value) × (value ≤ max) × (value < mod32))
unfolding new_limit limit_max
new_limit-some_iff max value l = ground arith
