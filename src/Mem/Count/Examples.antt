-- ===== src/Mem/Count/Examples.antt =====
-- A lifecycle of a reference count of 32 bits.
use o.Prelude.{ℕ, ◌+◌, ◌≡◌, ◌↔◌, true, err, refl, arith, mod32}
use o.Mem.Count.{exhausted, last, empty, is_empty, is_unique, activate, try_retain, release}
use o.Mem.Count.Laws.{Domain, Step, Reach, count_is_edges}

abbrev domain : ℕ → Domain
domain n = record { count = n; edges = n }

-- Activate, retain twice, and release once.
lifecycle : Reach mod32 (record { count = empty; edges = 0 }) (domain 2)
unfolding empty activate try_retain release
lifecycle =
    let a : Step mod32 (domain 0) (domain 1) = Step.activated refl refl in
    let b : Step mod32 (domain 1) (domain 2) = Step.retained (omega arith) refl refl in
    let c : Step mod32 (domain 2) (domain 3) = Step.retained (omega arith) refl refl in
    let d : Step mod32 (domain 3) (domain 2) = Step.released (omega arith) refl in
    Reach.next (Reach.next (Reach.next (Reach.next Reach.here a) b) c) d

count_is_edges_example :
    ((domain 2).count ≡ (domain 2).edges)
    × ((is_empty 2 ≡ true) ↔ ((domain 2).edges ≡ 0))
    × ((is_unique 2 ≡ true) ↔ ((domain 2).edges ≡ 1))
    × (((release mod32 2).1 ≡ last) ↔ ((domain 2).edges ≡ 1))
    × ((try_retain mod32 2 ≡ (2, err exhausted)) ↔ (2 + 1 ≡ mod32))
count_is_edges_example = count_is_edges mod32 (domain 2) (omega arith) lifecycle
