-- ===== src/Map/Flat/Session.antt =====
-- Whole sessions with a flat table, against a map of bounded size.
use o.Prelude.{
  List, [], ◌∷◌, ℕ, ◌+◌, ◌-◌, ◌<◌, ◌≡◌, ◌≢◌, ◌↔◌, inl, inr, refl, sym, ap, ◌∙◌, Bool, true, false,
  Option, none, some, Bool-cases, ok, err, leb, if◌then◌else◌, arith, mod64, mod32, wrapping_sub,
}
use o.Map.{Plan, Fields, from_fields, State, empty_control, new_plan, plan_buckets}
use o.Map.Circle.{IsExtent}
use o.Map.Closing.{IsDirectory}
use o.Map.Counting.{count-vacant}
use o.Map.Edit.{remove}
use o.Map.Plans.{IsPlan, new_plan-ok_iff}
use o.Map.Removal.{IsRemoved, remove-keeps}
use o.Map.Flat.{
  Flat, full_insert, occupied_insert, probe, find, get, entry, fill, try_new, try_insert, take,
  remove_entry, clear_table, Op, look, put, pull, reset, measure, Reply, seen, stored, done, sized,
  call, run,
}
use o.Map.Flat.Holds.{Holds, Looked, at, gone, void, probe-Looked}
use o.Map.Flat.Keys.{enter, erase}
use o.Map.Flat.Edits.{fill-Holds, clear-Holds, taken-Holds, empty-Holds}

from_fields-IsDirectory {ℓ} :
    {P : Type ℓ} (fields : Fields P) (buckets : ℕ)
    → IsExtent buckets
    → IsDirectory (from_fields fields buckets)
from_fields-IsDirectory fields buckets e = record {
  extent = e;
  words = λ i n p. absurd (ground (arith, n, p));
  tags = λ i n p. absurd (ground (arith, n, p));
  probed = λ i j n l p. absurd (ground (arith, n, p));
}

-- The promise: a map with at most `cap` keys.
pub record Promise (V K : Type 0) : Type 0 where
  pub values : K → Option V
  pub size : ℕ

module _ {V K : Type 0} (key : V → K) (eq : K → K → Bool) (cap : ℕ) where
  pub spec : Promise V K → Op V K → Promise V K × Reply V
  spec m (look k) = (m, seen (m.values k))
  spec m (put v) = elim (m.values (key v)) as (λ x. Promise V K × Reply V) [
    | some w ↦ (m, stored (err (occupied_insert v)))
    | none ↦
        if leb cap m.size
        then (m, stored (err (full_insert v)))
        else (record { values = enter eq m.values (key v) v; size = m.size + 1 }, stored (ok tt))
  ]
  spec m (pull k) = elim (m.values k) as (λ x. Promise V K × Reply V) [
    | none ↦ (m, seen none)
    | some v ↦ (record { values = erase eq m.values k; size = m.size - 1 }, seen (some v))
  ]
  spec m reset = (record { values = λ k. none; size = 0 }, done)
  spec m measure = (m, sized m.size)

  pub spec_run : Promise V K → List (Op V K) → List (Reply V)
  unfolding spec
  spec_run m [] = []
  spec_run m (op ∷ ops) = (spec m op).1 ∷ spec_run (spec m op).0 ops

module _ {V K : Type 0} (key : V → K) (hash : K → ℕ) (word : (k : K) → hash k < mod64)
    (eq : K → K → Bool) (eq_iff : (a b : K) → (eq a b ≡ true) ↔ (a ≡ b)) where
  -- A call returns the promised reply, and leaves a table that holds what the promise becomes.
  record Answers (cap : ℕ) (m : Promise V K × Reply V) (result : Option (Flat V × Reply V))
      : Type 0 where
    table : Flat V
    returns : result ≡ some (table, m.1)
    holds : Holds key hash table m.0.values m.0.size
    same : table.capacity ≡ cap

  module _ (self : Flat V) (m : Promise V K) (h : Holds key hash self m.values m.size) where
    look-Answers :
        (k : K)
        → Answers self.capacity
            (spec key eq self.capacity m (look k))
            (call key hash eq self (look k))
    unfolding spec call get find
    look-Answers k =
        go (probe self (hash k) (λ v. eq (key v) k)) refl (probe-Looked key hash eq eq_iff k h)
      where
        go :
            (s : Option State)
            → probe self (hash k) (λ v. eq (key v) k) ≡ s
            → Looked key hash self m.values k s
            → Answers self.capacity
                (spec key eq self.capacity m (look k))
                (call key hash eq self (look k))
        go _ e (at b l o p) = record {
          table = self;
          returns =
              rw (call, get, find, e)
                (ap (λ x. some (self, seen x)) (sym (sym (ap m.values p) ∙ h.entered b l o)));
          holds = h;
          same = refl;
        }
        go _ e (gone b l o c n) = record {
          table = self;
          returns = rw (call, get, find, e, n) refl;
          holds = h;
          same = refl;
        }
        go _ e (void z n) = record {
          table = self;
          returns = rw (call, get, find, e, n) refl;
          holds = h;
          same = refl;
        }

    put-Answers :
        (v : V)
        → Answers self.capacity
            (spec key eq self.capacity m (put v))
            (call key hash eq self (put v))
    unfolding spec call try_insert entry
    put-Answers v =
        go (probe self (hash (key v)) (λ w. eq (key w) (key v))) refl
          (probe-Looked key hash eq eq_iff (key v) h)
      where
        full_at :
            (leb self.capacity m.size ≡ true)
            → m.values (key v) ≡ none
            → (call key hash eq self (put v) ≡ some (self, stored (err (full_insert v))))
            → Answers self.capacity
                (spec key eq self.capacity m (put v))
                (call key hash eq self (put v))
        full_at b n e = record {
          table = self;
          returns = rw (spec, n, b) e;
          holds = rw (spec, n, b) h;
          same = refl;
        }

        go :
            (s : Option State)
            → probe self (hash (key v)) (λ w. eq (key w) (key v)) ≡ s
            → Looked key hash self m.values (key v) s
            → Answers self.capacity
                (spec key eq self.capacity m (put v))
                (call key hash eq self (put v))
        go _ e (at b l o p) =
            let f : m.values (key v) ≡ some (self.table.payloads b) =
              sym (ap m.values p) ∙ h.entered b l o in
            record {
              table = self;
              returns = rw (spec, call, try_insert, entry, e, f) refl;
              holds = rw (spec, f) h;
              same = refl;
            }
        go _ e (gone b l o c n) = elim (Bool-cases (leb self.capacity m.size)) [
          | inl t ↦
              let t' : leb self.capacity self.len ≡ true = rw h.len t in
              full_at t n (rw (call, try_insert, entry, e, t') refl)
          | inr t ↦
              let t' : leb self.capacity self.len ≡ false = rw h.len t in
              record {
                table = fill self b (hash (key v)) v;
                returns = rw (spec, n, t) (rw (call, try_insert, entry, e, t') refl);
                holds =
                    rw (spec, n, t)
                      (fill-Holds key hash word eq eq_iff self m.values m.size h b v
                        (ground (arith, t)) n l o c);
                same = refl;
              }
        ]
        go _ e (void z n) =
            let t : leb self.capacity m.size ≡ true = elim h.shape [
              | inl (x, y) ↦ ground (arith, y)
              | inr (x, y) ↦ absurd (omega (arith, y, z))
            ] in
            full_at t n (rw (call, try_insert, entry, e) refl)

    removal :
        (b : ℕ)
        → b < self.table.buckets
        → self.table.controls b ≢ empty_control
        → IsRemoved self.table b (remove self.table b)
    removal b l o = elim h.shape [
      | inl (x, y) ↦ absurd (omega (arith, x, l))
      | inr (d, n) ↦
          let (spare, p, q) =
            count-vacant self.table.buckets self.table.controls
              (omega (arith, n, h.counted, h.fits)) in
          remove-keeps self.table b spare d l p q o
    ]

    pull-Answers :
        (k : K)
        → Answers self.capacity
            (spec key eq self.capacity m (pull k))
            (call key hash eq self (pull k))
    unfolding spec call remove_entry find take
    pull-Answers k =
        go (probe self (hash k) (λ v. eq (key v) k)) refl (probe-Looked key hash eq eq_iff k h)
      where
        missed :
            (m.values k ≡ none)
            → (call key hash eq self (pull k) ≡ some (self, seen none))
            → Answers self.capacity
                (spec key eq self.capacity m (pull k))
                (call key hash eq self (pull k))
        missed n e = record {
          table = self;
          returns = rw (spec, n) e;
          holds = rw (spec, n) h;
          same = refl;
        }

        go :
            (s : Option State)
            → probe self (hash k) (λ v. eq (key v) k) ≡ s
            → Looked key hash self m.values k s
            → Answers self.capacity
                (spec key eq self.capacity m (pull k))
                (call key hash eq self (pull k))
        go _ e (at b l o p) =
            let f : m.values k ≡ some (self.table.payloads b) =
              sym (ap m.values p) ∙ h.entered b l o in
            let r = removal b l o in
            let held = taken-Holds key hash word eq eq_iff self m.values m.size h b l o r in
            let less : wrapping_sub mod32 self.len 1 ≡ m.size - 1 =
              omega (arith, h.len, h.word, h.fits, r.counted, h.counted) in
            record {
              table = record self { table = r.table; len = m.size - 1 };
              returns = rw (spec, f) (rw (call, remove_entry, find, e, take, r.returns, less) refl);
              holds = rw (spec, f, ← p) held;
              same = refl;
            }
        go _ e (gone b l o c n) = missed n (rw (call, remove_entry, find, e) refl)
        go _ e (void z n) = missed n (rw (call, remove_entry, find, e) refl)

    cleared_capacity : (clear_table self).capacity ≡ self.capacity
    unfolding clear_table
    cleared_capacity = ground arith

    call-Answers :
        (op : Op V K)
        → Answers self.capacity (spec key eq self.capacity m op) (call key hash eq self op)
    unfolding spec call
    call-Answers (look k) = look-Answers k
    call-Answers (put v) = put-Answers v
    call-Answers (pull k) = pull-Answers k
    call-Answers reset = record {
      table = clear_table self;
      returns = refl;
      holds = clear-Holds key hash word eq eq_iff self m.values m.size h;
      same = cleared_capacity;
    }
    call-Answers measure = record { table = self; returns = rw h.len refl; holds = h; same = refl }

  session_refines :
      (cap : ℕ) (self : Flat V) (m : Promise V K) (ops : List (Op V K))
      → Holds key hash self m.values m.size
      → self.capacity ≡ cap
      → run key hash eq self ops ≡ some (spec_run key eq cap m ops)
  unfolding run spec_run
  session_refines cap self m [] h c = refl
  session_refines cap self m (op ∷ ops) h c =
      let a : Answers cap (spec key eq cap m op) (call key hash eq self op) =
        rw (← c) (call-Answers self m h op) in
      let rest = session_refines cap a.table (spec key eq cap m op).0 ops a.holds a.same in
      rw (run, a.returns, rest) refl

  try_new-Holds :
      {E : Type 0} (plan : Plan) (capacity : ℕ) (fields : Fields V) (self : Flat V)
      → IsPlan capacity plan
      → try_new {E = E} plan (ok fields) ≡ ok self
      → Holds key hash self (λ k. none) 0 × (self.capacity ≡ capacity)
  unfolding try_new
  try_new-Holds {E} plan capacity fields self p e =
      let start : Flat V = record {
        table = from_fields fields (plan_buckets plan);
        len = 0;
        capacity = plan.capacity.count;
      } in
      let same : self ≡ start = cc in
      let none_held =
        empty-Holds key hash start (omega (arith, p.kept, p.small)) refl
          (elim p.shape [
            | inl (a, b) ↦ inl (a, p.kept ∙ b)
            | inr (a, b, c) ↦
                inr (
                  from_fields-IsDirectory fields (plan_buckets plan) a,
                  omega (arith, b, c, p.kept),
                )
          ])
          (λ i l. ground (arith, l)) in
      (rw same none_held, ap (λ (f : Flat V). f.capacity) same ∙ p.kept)

  -- No session tells a new flat table from a map of at most as many keys: for keys with a decided
  -- equality and hashes of 64 bits that may collide, on a table of any capacity that is planned, over
  -- whatever the allocated planes hold, every sequence of lookups, insertions, removals, clears and
  -- looks at the length ends, and gets the answers of the map, a full table and a present key included.
  pub run-try_new :
      {E : Type 0} (capacity : ℕ) (plan : Plan) (fields : Fields V) (self : Flat V)
      (ops : List (Op V K))
      → new_plan capacity ≡ ok plan
      → try_new {E = E} plan (ok fields) ≡ ok self
      → run key hash eq self ops
        ≡ some (spec_run key eq capacity (record { values = λ k. none; size = 0 }) ops)
  run-try_new capacity plan fields self ops e f =
      let (h, c) =
        try_new-Holds plan capacity fields self ((new_plan-ok_iff capacity plan).0 e) f in
      session_refines capacity self _ ops h c
