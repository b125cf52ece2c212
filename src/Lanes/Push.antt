-- ===== src/Lanes/Push.antt =====
-- A resident that joins the back of a lane.
use mathlib.Core.Path.{subst}
use o.Prelude.{
  sym, some, ℕ, ◌+◌, ◌<◌, ◌≡◌, ◌≢◌, refl, ◌∙◌, true, false, ◌==◌, if◌then◌else◌, List, [], ◌∷◌,
  arith, mod32, Bool-cases, inl, inr, Option, Result, ok, err,
}
use o.Links.{Hook, update, Hooks, end, is_empty, acquire_raw}
use o.Links.Order.{Order, IsLinked, Absent, pushed}
use o.Links.Moves.{link_back-IsLinked}
use o.Links.Chains.{room}
use o.Links.Circle.{IsCycle, ending, cycle_push-IsCycle}
use o.Links.Free.{IsFree, Lacks, Acquired, exhausted, popped, acquire_raw-Acquired}
use o.Lanes.{Lanes, join_push, try_push}
use o.Lanes.Frame.{agree-IsFree, agree-IsLinked, link_back_frame}
use o.Lanes.Ready.{inside, standing_hook, Schedule, IsReady, world, free-Absent, empty-len}

-- The schedule with a resident behind a lane: a lane that was empty gets the last turn.
abbrev pub queued : Schedule → ℕ → ℕ → Schedule
queued s c i = record {
  order = pushed s.order c i;
  count = if s.order.len c == 0 then s.count + 1 else s.count;
  ring = if s.order.len c == 0 then ending s.count c s.ring else s.ring;
  standing = update s.standing i inside;
}

pushed-Lacks :
    (o : Order) (xs : List ℕ) (c i : ℕ)
    → ((d k : ℕ) → k < o.len d → Lacks xs (o.item d k))
    → Lacks xs i
    → (d k : ℕ) → k < (pushed o c i).len d
    → Lacks xs ((pushed o c i).item d k)
pushed-Lacks o xs c i a b d k l = elim (Bool-cases (c == d)) [
  | inr e ↦ rw e (a d k (ground (arith, e, l)))
  | inl e ↦ elim (Bool-cases (k == o.len c)) [
    | inl f ↦ rw (e, f) b
    | inr f ↦ rw (e, f) (a c k (ground (arith, e, f, l)))
  ]
]

module _ {bound : ℕ} {self : Lanes} {s : Schedule} {xs : List ℕ} (v : IsReady bound self s xs)
    (c i : ℕ) (a : Absent s.order i) (f : Lacks xs i) (l : i < end) (m : c < end) where
  join_push-IsLinked : IsLinked (world (join_push self c i)) (pushed s.order c i)
  unfolding join_push
  join_push-IsLinked =
      link_back-IsLinked (world self) s.order c i v.linked a l
        (room (world self) s.order c i v.linked a l)

  free_after : IsFree bound (join_push self c i).free (join_push self c i).entries xs
  unfolding join_push
  free_after =
      agree-IsFree bound self.free self.entries _ xs
        (λ j p.
          link_back_frame (world self) s.order v.linked c j (free-Absent s.order xs v.apart j p) i
            (λ e. p (subst (Lacks xs) e f)))
        v.free

  vacant_turn : (s.order.len c == 0) ≡ true → (k : ℕ) → k < s.count → s.ring k ≡ c → ⊥
  vacant_turn e k p q =
      let held : 0 < s.order.len c = subst (λ d. 0 < s.order.len d) q (v.active k p) in
      ground (arith, e, held)

  new_turn :
      (s.order.len c == 0) ≡ true
      → (d : ℕ) → 0 < (pushed s.order c i).len d
      → (k : ℕ) × (k < s.count + 1) × (ending s.count c s.ring k ≡ d)
  new_turn e d p = elim (Bool-cases (c == d)) [
    | inl x ↦ (s.count, omega arith, ground (arith, x))
    | inr x ↦
        let (k, q, r) = v.turn d (ground (arith, x, p)) in
        (k, omega (arith, q), ground (arith, q, r))
  ]

  old_turn :
      (s.order.len c == 0) ≡ false
      → (d : ℕ) → 0 < (pushed s.order c i).len d
      → (k : ℕ) × (k < s.count) × (s.ring k ≡ d)
  old_turn e d p = v.turn d (ground (arith, e, p))

  round_after :
      IsCycle
        (join_push self c i).round
        (join_push self c i).lanes
        (queued s c i).count
        (queued s c i).ring
  unfolding join_push
  round_after = elim (Bool-cases (s.order.len c == 0)) [
    | inl e ↦
        let idle : is_empty (self.chains c) ≡ true = empty-len self s.order c v.linked ∙ e in
        rw (join_push, idle, e) (cycle_push-IsCycle v.round c m (λ k p q. vacant_turn e k p q))
    | inr e ↦
        let idle : is_empty (self.chains c) ≡ false = empty-len self s.order c v.linked ∙ e in
        rw (join_push, idle, e) v.round
  ]

  held_out :
      (j : ℕ) (h : Hook)
      → standing_hook ((queued s c i).standing j) j ≡ some h
      → Absent (pushed s.order c i) j × Lacks xs j × ((join_push self c i).entries j ≡ h)
  unfolding join_push
  held_out j h e = elim (Bool-cases (i == j)) [
    | inl x ↦ absurd (ground (arith, x, e))
    | inr x ↦
        let same : standing_hook (s.standing j) j ≡ some h = ground (arith, x, e) in
        let (b, g, w) = v.out j h same in
        let d : i ≢ j = ground (arith, x) in
        (
          λ a k n. ground (arith, n, d, b a k),
          g,
          link_back_frame (world self) s.order v.linked c j b i d ∙ w,
        )
  ]

  pub join_push-IsReady : IsReady bound (join_push self c i) (queued s c i) xs
  join_push-IsReady = record {
    linked = join_push-IsLinked;
    round = round_after;
    active = λ k p. ground (arith, p, v.active k);
    turn = elim (Bool-cases (s.order.len c == 0)) [
      | inl e ↦ rw e (new_turn e)
      | inr e ↦ rw e (old_turn e)
    ];
    free = free_after;
    apart = pushed-Lacks s.order xs c i v.apart f;
    out = held_out;
  }

-- What `try_push` comes to, on the free stack.
pub data Pushed (bound : ℕ) (self : Lanes) (s : Schedule) (c : ℕ)
    : List ℕ → Result (Unit {0}) ℕ × Lanes → Type 0 where
  refused : Pushed bound self s c [] (err tt, self)
  accepted :
      (x : ℕ) (xs : List ℕ) (after : Lanes)
      → IsReady bound after (queued s c x) xs
      → Pushed bound self s c (x ∷ xs) (ok x, after)

pub try_push-Pushed :
    (bound : ℕ) (self : Lanes) (s : Schedule) (xs : List ℕ) (c : ℕ)
    → bound < mod32
    → c < end
    → IsReady bound self s xs
    → Pushed bound self s c xs (try_push self c)
unfolding try_push
try_push-Pushed bound self s xs c b m v =
    go (acquire_raw self.free self.entries) v refl
      (acquire_raw-Acquired bound self.free self.entries xs b v.free)
  where
    go :
        {ys : List ℕ} (r : Option ℕ × (ℕ × Hooks))
        → IsReady bound self s ys
        → acquire_raw self.free self.entries ≡ r
        → Acquired bound self.entries ys r
        → Pushed bound self s c ys (try_push self c)
    go _ u e (exhausted free f) = rw (try_push, e) refused
    go _ u e (popped x ys free rest w vacant frame) =
        let (_, l, _, d, _) = u.free in
        let away : (c k : ℕ) → k < s.order.len c → s.order.item c k ≢ x =
          λ c k p q. (subst (Lacks (x ∷ ys)) q (u.apart c k p)).0 refl in
        let held : IsReady bound (record self { entries = rest; free = free }) s ys = record {
          linked =
              agree-IsLinked (world self) s.order rest u.linked
                (λ c k p. frame (s.order.item c k) (away c k p));
          round = u.round;
          active = u.active;
          turn = u.turn;
          free = w;
          apart = λ c k p. (u.apart c k p).1;
          out = λ j h p. let (g, k, q) = u.out j h p in (g, k.1, frame j (λ z. k.0 (sym z)) ∙ q);
        } in
        rw (try_push, e)
          (accepted x ys _ (join_push-IsReady held c x away d (omega (arith, l, b)) m))
