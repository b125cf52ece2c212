-- ===== src/Lanes/Fresh.antt =====
-- `Lanes::try_new`: empty lanes, and a free list of every resident.
use o.Prelude.{ℕ, zero, suc, ◌+◌, ◌<◌, ◌≡◌, refl, if◌then◌else◌, ltb, List, [], ◌∷◌, arith, inl}
use o.Links.{Hooks, end, seeded, new_chain}
use o.Links.Free.{IsFree, Lacks}
use o.Lanes.{new_lanes}
use o.Lanes.Front.{not_both}
use o.Lanes.Ready.{inside, Schedule, IsReady}

-- The numbers from the first, as many as the second says.
abbrev pub ascending : (start len : ℕ) → List ℕ
ascending start zero = []
ascending start (suc n) = start ∷ ascending (start + 1) n

abbrev pub nothing_queued : Schedule
nothing_queued = record {
  order = record { len = λ c. 0; item = λ c k. 0 };
  count = 0;
  ring = λ k. 0;
  standing = λ j. inside;
}

ascending-Lacks : (start len i : ℕ) → i < start → Lacks (ascending start len) i
ascending-Lacks start zero i l = tt
ascending-Lacks start (suc n) i l =
    (λ e. ground (arith, l, e), ascending-Lacks (start + 1) n i (omega (arith, l)))

seeded_hooks : ℕ → Hooks
seeded_hooks capacity i = record {
  previous = i;
  next = if ltb (i + 1) capacity then i + 1 else end;
}

ascending-IsFree :
    (capacity start len free : ℕ)
    → start + len ≡ capacity
    → free ≡ (if ltb start capacity then start else end)
    → IsFree capacity free (seeded_hooks capacity) (ascending start len)
unfolding seeded_hooks
ascending-IsFree capacity start zero free e f = ground (arith, e, f)
ascending-IsFree capacity start (suc n) free e f = (
  ground (arith, e, f),
  omega (arith, e),
  refl,
  ascending-Lacks (start + 1) n start (omega arith),
  ascending-IsFree capacity (start + 1) n _ (omega (arith, e)) refl,
)

pub new_lanes-IsReady :
    (capacity : ℕ) → IsReady capacity (new_lanes capacity) nothing_queued (ascending 0 capacity)
unfolding new_lanes new_chain seeded seeded_hooks
new_lanes-IsReady capacity = record {
  linked = record {
    apart = λ c d k j p q e. absurd (omega (arith, p));
    proper = λ c k p. absurd (omega (arith, p));
    head = λ c. refl;
    tail = λ c. refl;
    previous = λ c k p. absurd (omega (arith, p));
    next = λ c k p. absurd (omega (arith, p));
    count = λ c. inl refl;
  };
  round = record {
    apart = λ k j p q e. absurd (omega (arith, p));
    proper = λ k p. absurd (omega (arith, p));
    head = refl;
    previous = λ k p. absurd (omega (arith, p));
    next = λ k p. absurd (omega (arith, p));
  };
  active = λ k p. absurd (omega (arith, p));
  turn = λ c p. absurd (omega (arith, p));
  free = ascending-IsFree capacity 0 capacity _ (omega arith) (ground arith);
  apart = λ c k p. absurd (omega (arith, p));
  out = λ j h e. absurd (not_both e);
}
