-- ===== src/Ring/Session.antt =====
-- Whole sessions with a ring, against a bounded list.
use o.Prelude.{
  ℕ, zero, suc, ◌<◌, ◌≡◌, refl, ap, ◌∙◌, Bool, true, false, Option, none, some, ok, err, arith,
  List, [], ◌∷◌, ◌++◌, length, get_elem?, replicate, mod32, ltb, if◌then◌else◌, length-set,
  length-replicate, get_elem?-none, Bool-cases, ◌==◌, inl, inr,
}
use mathlib.Core.Path.{ap₂}
use o.Ring.{
  Fifo, capacity, read, release, push, push_back, push_front, pop_front, get, clear, new, Op,
  put_back, put_front, take_front, look, reset, Reply, put, seen, done, call, run,
}
use o.Ring.Refine.{Holds, push_back-Holds, push_front-Holds, pop_front-Holds}

module _ {T : Type 0} (cap : ℕ) where
  -- The promise: a list of at most `cap` values, taken at the front.
  pub spec : List T → Op T → List T × Reply T
  spec q (put_back x) = if ltb (length q) cap then (q ++ x ∷ [], put (ok tt)) else (q, put (err x))
  spec q (put_front x) = if ltb (length q) cap then (x ∷ q, put (ok tt)) else (q, put (err x))
  spec [] take_front = ([], seen none)
  spec (x ∷ q) take_front = (q, seen (some x))
  spec q (look i) = (q, seen (get_elem? q i))
  spec q reset = ([], done)

  pub spec_run : List T → List (Op T) → List (Reply T)
  unfolding spec
  spec_run q [] = []
  spec_run q (op ∷ ops) = (spec q op).1 ∷ spec_run (spec q op).0 ops

module _ {T : Type 0} where
  replicate-slots : (n i : ℕ) → read (get_elem? (replicate {A = Option T} n none) i) ≡ none
  replicate-slots zero i = refl
  replicate-slots (suc n) zero = refl
  replicate-slots (suc n) (suc i) = replicate-slots n i

  new-Holds : (cap : ℕ) → cap < mod32 → Holds (new {T = T} cap) []
  unfolding new
  new-Holds cap h =
      let size = length-replicate {A = Option T} cap none in
      record {
        word = omega (arith, size);
        head_in = omega arith;
        size = refl;
        fits = omega arith;
        slots = λ i k. absurd (omega arith);
      }

  get-Holds : (self : Fifo T) (q : List T) (i : ℕ) → Holds self q → get self i ≡ get_elem? q i
  unfolding get
  get-Holds self q i h = ground (arith, h.size, h.slots i, get_elem?-none q i)

  capacity-push :
      (front : Bool) (self : Fifo T) (x : T) → capacity (push front self x) ≡ capacity self
  unfolding push
  capacity-push front self x = length-set self.entries _ (some x)

  capacity-call : (self : Fifo T) (op : Op T) → capacity (call self op).0 ≡ capacity self
  unfolding call push_back push_front pop_front clear
  capacity-call self (put_back x) = ground (arith, capacity-push false self x)
  capacity-call self (put_front x) = ground (arith, capacity-push true self x)
  capacity-call self take_front =
      ground (arith, length-set self.entries (release self.state (capacity self)).1 none)
  capacity-call self (look i) = refl
  capacity-call self reset = ground (arith, length-replicate {A = Option T} (capacity self) none)

  clear-Holds : (self : Fifo T) (q : List T) → Holds self q → Holds (clear self) []
  unfolding clear
  clear-Holds self q h = elim (Bool-cases (self.state.len == 0)) [
    | inl e ↦ rw e (record {
      word = h.word;
      head_in = h.head_in;
      size = ground arith;
      fits = omega arith;
      slots = λ i k. absurd (omega arith);
    })
    | inr e ↦ rw e (record {
      word = omega (arith, h.word, length-replicate {A = Option T} (capacity self) none);
      head_in = omega arith;
      size = refl;
      fits = omega arith;
      slots = λ i k. absurd (omega arith);
    })
  ]

  -- One call of a ring that holds a list answers as the list does, and leaves the ring holding what
  -- the list becomes.
  call_refines :
      (self : Fifo T) (q : List T) (op : Op T)
      → Holds self q
      → ((call self op).1 ≡ (spec (capacity self) q op).1)
        × Holds (call self op).0 (spec (capacity self) q op).0
  unfolding call spec push_back push_front pop_front
  call_refines self q (put_back x) h = elim (Bool-cases (ltb (length q) (capacity self))) [
    | inl e ↦
        let open_slot : (self.state.len == capacity self) ≡ false = ground (arith, h.size) in
        rw (e, open_slot) (refl, push_back-Holds self q x h (ground arith))
    | inr e ↦
        let no_slot : (self.state.len == capacity self) ≡ true = ground (arith, h.size, h.fits) in
        rw (e, no_slot) (refl, h)
  ]
  call_refines self q (put_front x) h = elim (Bool-cases (ltb (length q) (capacity self))) [
    | inl e ↦
        let open_slot : (self.state.len == capacity self) ≡ false = ground (arith, h.size) in
        rw (e, open_slot) (refl, push_front-Holds self q x h (ground arith))
    | inr e ↦
        let no_slot : (self.state.len == capacity self) ≡ true = ground (arith, h.size, h.fits) in
        rw (e, no_slot) (refl, h)
  ]
  call_refines self [] take_front h =
      let idle : (self.state.len == 0) ≡ true = ground (arith, h.size) in rw idle (refl, h)
  call_refines self (x ∷ q) take_front h =
      let after = pop_front-Holds self q x h in (ap seen after.1, after.0)
  call_refines self q (look i) h = (ap seen (get-Holds self q i h), h)
  call_refines self q reset h = (refl, clear-Holds self q h)

  session_refines :
      (self : Fifo T) (q : List T) (ops : List (Op T))
      → Holds self q
      → run self ops ≡ spec_run (capacity self) q ops
  unfolding run spec_run
  session_refines self q [] h = refl
  session_refines self q (op ∷ ops) h =
      let step = call_refines self q op h in
      let rest = session_refines (call self op).0 (spec (capacity self) q op).0 ops step.1 in
      ap₂ ◌∷◌ step.0
        (rest ∙ ap (λ c. spec_run c (spec (capacity self) q op).0 ops) (capacity-call self op))

  -- No session tells a new ring from a list of at most as many values: for a capacity that fits 32
  -- bits, every sequence of pushes at either end, pops, looks at any offset and clears gets the
  -- answers of the list, full and empty included, however the ring has wrapped.
  pub run-new :
      (cap : ℕ) (ops : List (Op T)) → cap < mod32 → run (new cap) ops ≡ spec_run cap [] ops
  unfolding new
  run-new cap ops h =
      session_refines (new cap) [] ops (new-Holds cap h)
      ∙ ap (λ c. spec_run c [] ops) (length-replicate {A = Option T} cap none)
