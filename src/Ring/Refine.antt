-- ===== src/Ring/Refine.antt =====
-- A ring is a bounded double-ended queue of values.
use o.Prelude.{
  ℕ, zero, suc, ◌+◌, ◌-◌, ◌≤◌, ◌<◌, ◌≡◌, true, false, none, some, arith, List, [], ◌∷◌, ◌++◌,
  length, get_elem?, mod32, length-set, length-append, get_elem?-set_self, get_elem?-set_ne,
  get_elem?-append, get_elem?-append_end, ◌==◌,
}
use o.Ring.{State, Fifo, capacity, position, claim, release, push, pop_front}
use o.Ring.Position.{IsState, position-lt, position_injective, claim_back, claim_front, release_lem}

-- A position depends on the head alone.
position-head : (s t : State) (c i : ℕ) → s.head ≡ t.head → position s c i ≡ position t c i
unfolding position
position-head s t c i e = ground arith

module _ {T : Type 0} where
  -- The ring holds the values of `q` in order: as many, and the one at each offset is initialised in
  -- the slot of that offset. A ring of no slot holds none.
  pub record Holds (self : Fifo T) (q : List T) : Type 0 where
    pub word : capacity self < mod32
    pub head_in : self.state.head ≤ capacity self - 1
    pub size : self.state.len ≡ length q
    pub fits : length q ≤ capacity self
    pub slots :
        (i : ℕ)
        → i < length q
        → get_elem? self.entries (position self.state (capacity self) i) ≡ some (get_elem? q i)

  Holds-IsState :
      (self : Fifo T) (q : List T)
      → Holds self q
      → 0 < capacity self
      → IsState (capacity self) self.state
  Holds-IsState self q h p = record {
    word = h.word;
    head_in = omega (arith, h.head_in);
    len_in = omega (arith, h.size, h.fits);
  }

  pub push_back-Holds :
      (self : Fifo T) (q : List T) (x : T)
      → Holds self q
      → length q < capacity self
      → Holds (push false self x) (q ++ x ∷ [])
  unfolding push
  push_back-Holds self q x h room =
      let cap = capacity self in
      let s = self.state in
      let v = Holds-IsState self q h (omega arith) in
      let c = claim_back v (omega (arith, h.size)) in
      let size = length-set self.entries ((claim false s cap).1) (some x) in
      let longer = length-append q (x ∷ []) in
      let at = λ (i : ℕ). position-head (claim false s cap).0 s cap i c.3 in
      record {
        word = omega (arith, size, h.word);
        head_in = omega (arith, size, c.3, h.head_in);
        size = omega (arith, c.2, h.size, longer);
        fits = omega (arith, size, longer);
        slots = λ i k. ground (
          arith,
          size,
          longer,
          c,
          at i,
          h.slots i,
          position_injective v (length q) i,
          position-lt v (length q),
          get_elem?-set_self self.entries (position s cap (length q)) (some x),
          get_elem?-set_ne self.entries (position s cap (length q)) (position s cap i) (some x),
          get_elem?-append q (x ∷ []) i,
          get_elem?-append_end q x [],
        );
      }

  pub push_front-Holds :
      (self : Fifo T) (q : List T) (x : T)
      → Holds self q
      → length q < capacity self
      → Holds (push true self x) (x ∷ q)
  unfolding push
  push_front-Holds self q x h room =
      let cap = capacity self in
      let s = self.state in
      let v = Holds-IsState self q h (omega arith) in
      let c = claim_front v (omega (arith, h.size)) in
      let s' = (claim true s cap).0 in
      let size = length-set self.entries ((claim true s cap).1) (some x) in
      record {
        word = omega (arith, size, h.word);
        head_in = omega (arith, size, c.0);
        size = omega (arith, c.2, h.size);
        fits = omega (arith, size);
        slots = elim [
          | zero ↦ λ k. ground (
            arith,
            size,
            c,
            position-lt c.0 0,
            get_elem?-set_self self.entries (position s' cap 0) (some x),
          )
          | suc i ↦ λ k. ground (
            arith,
            size,
            c,
            c.3 i,
            h.slots i,
            position_injective c.0 0 (i + 1),
            get_elem?-set_ne self.entries (position s' cap 0) (position s' cap (i + 1)) (some x),
          )
        ];
      }

  pub pop_front-Holds :
      (self : Fifo T) (q : List T) (x : T)
      → Holds self (x ∷ q)
      → Holds (pop_front self).0 q × ((pop_front self).1 ≡ some x)
  unfolding pop_front
  pop_front-Holds self q x h =
      let cap = capacity self in
      let s = self.state in
      let v = Holds-IsState self (x ∷ q) h (omega (arith, h.fits)) in
      let c = release_lem v (omega (arith, h.size)) in
      let s' = (release s cap).0 in
      let index = (release s cap).1 in
      let size = length-set self.entries index none in
      let busy : (s.len == 0) ≡ false = ground (arith, h.size) in
      rw busy (
        record {
          word = omega (arith, size, h.word);
          head_in = omega (arith, size, c.0);
          size = omega (arith, c.2, h.size);
          fits = omega (arith, size, h.fits);
          slots = λ i k. ground (
            arith,
            size,
            c,
            c.3 i,
            h.size,
            h.fits,
            h.slots (i + 1),
            position_injective v 0 (i + 1),
            get_elem?-set_ne self.entries index (position s cap (i + 1)) none,
          );
        },
        ground (arith, c, h.slots 0),
      )
