-- ===== src/Mem/Count/Laws.antt =====
-- The count is the number of live edges, through every lifecycle that the safety contracts allow.
use native.Mathlib.Nat.{mod-eq_of_lt}
use o.Prelude.{zero, suc, ℕ, ◌+◌, ◌-◌, ◌<◌, ◌≡◌, ◌↔◌, true, ok, err, arith, ◌%◌, wrapping_sub}
use o.Mem.Count.{
  Count, exhausted, last, empty, is_empty, is_unique, activate, start_pair, retire, try_retain,
  release,
}

-- A domain: its count, and the number of owner edges that its users hold.
pub record Domain : Type 0 where
  pub count : Count
  pub edges : ℕ

-- Each operation under its safety contract, on the domain that it takes and leaves.
pub data Step (m : ℕ) (d d' : Domain) : Type 0 where
  activated : d.edges ≡ 0 → d' ≡ record { count = activate d.count; edges = 1 } → Step m d d'
  paired : d.edges ≡ 0 → d' ≡ record { count = start_pair d.count; edges = 2 } → Step m d d'
  retired : d.edges ≡ 1 → d' ≡ record { count = retire d.count; edges = 0 } → Step m d d'
  retained :
      0 < d.edges
      → (try_retain m d.count).1 ≡ ok tt
      → d' ≡ record { count = (try_retain m d.count).0; edges = d.edges + 1 }
      → Step m d d'
  refused :
      0 < d.edges
      → (try_retain m d.count).1 ≡ err exhausted
      → d' ≡ record { count = (try_retain m d.count).0; edges = d.edges }
      → Step m d d'
  released :
      0 < d.edges → d' ≡ record { count = (release m d.count).0; edges = d.edges - 1 } → Step m d d'

pub data Reach (m : ℕ) (d : Domain) : Domain → Type 0 where
  here : Reach m d d
  next : {e f : Domain} → Reach m d e → Step m e f → Reach m d f

abbrev IsExact : ℕ → Domain → Type 0
IsExact m d = (d.count ≡ d.edges) × (d.edges < m)

-- The predecessor of a live count does not wrap.
wrapping_pred : (m c : ℕ) → 0 < c → c < m → wrapping_sub m c 1 ≡ c - 1
wrapping_pred m c h k =
    let shift : c + m - 1 ≡ (c - 1) + m = omega arith in
    let wrap : ((c - 1) + m) % m ≡ c - 1 = grind arith in rw shift wrap

Step-IsExact : {m : ℕ} {d d' : Domain} → 2 < m → Step m d d' → IsExact m d → IsExact m d'
unfolding activate start_pair retire try_retain release
Step-IsExact h (activated e w) v = ground arith
Step-IsExact h (paired e w) v = ground arith
Step-IsExact h (retired e w) v = ground arith
Step-IsExact h (retained l e w) v = ground arith
Step-IsExact h (refused l e w) v = ground arith
Step-IsExact {m} {d} h (released l w) v = ground (arith, wrapping_pred m d.count)

Reach-IsExact : {m : ℕ} {d d' : Domain} → 2 < m → Reach m d d' → IsExact m d → IsExact m d'
Reach-IsExact h here v = v
Reach-IsExact h (next r s) v = Step-IsExact h s (Reach-IsExact h r v)

-- No predecessor but that of one is zero.
wrapping_pred-zero : (m c : ℕ) → 2 < m → c < m → (wrapping_sub m c 1 ≡ 0) ↔ (c ≡ 1)
wrapping_pred-zero m zero h k =
    let wrap : (0 + m - 1) % m ≡ 0 + m - 1 = mod-eq_of_lt {n = 0 + m - 1} {m = m} (omega arith) in
    omega (arith, wrap)
wrapping_pred-zero m (suc c) h k = omega (arith, wrapping_pred m (suc c) (omega arith) k)

-- From an empty domain of words with modulus `m`, after any sequence of operations that keeps their
-- contracts, the count is the number of live edges: the domain reads as empty exactly when there is
-- none and as unique exactly when there is one, a release answers `last` exactly for
-- the only edge, and an owner is refused exactly when the count is the largest word, which leaves it
-- as it was.
pub count_is_edges :
    (m : ℕ) (d : Domain)
    → 2 < m
    → Reach m (record { count = empty; edges = 0 }) d
    → (d.count ≡ d.edges)
      × ((is_empty d.count ≡ true) ↔ (d.edges ≡ 0))
      × ((is_unique d.count ≡ true) ↔ (d.edges ≡ 1))
      × (((release m d.count).1 ≡ last) ↔ (d.edges ≡ 1))
      × ((try_retain m d.count ≡ (d.count, err exhausted)) ↔ (d.edges + 1 ≡ m))
unfolding empty is_empty is_unique try_retain release
count_is_edges m d h r =
    let v = Reach-IsExact h r (omega arith) in
    (
      v.0,
      ground arith,
      ground arith,
      ground (arith, wrapping_pred-zero m d.count h (omega (arith, v))),
      ground arith,
    )
