-- ===== src/Heap/Climb.antt =====
-- The heap order around a hole, and `up` with the loop of `apply` that follows it.
use Prim.Native.Nat.{Ordering}
use o.Prelude.{
  ℕ, zero, suc, ◌≤◌, ◌<◌, ◌≡◌, ◌≢◌, ◌⊎◌, inl, inr, refl, ◌∙◌, Bool, true, false, arith, ◌==◌,
  Bool-cases,
}
use o.Heap.{Store, Hole, is_lt, shift}
use o.Heap.Path.{parent, up_end, raise}
use o.Heap.Gap.{IsLinked, rank, view, shift-IsLinked, shift-view}

-- The rank of the entry at a position.
abbrev pub weight : Bool → Store → ℕ → ℕ
weight tie s p = rank tie (s.entries p)

-- Every edge that does not touch the hole is in order, and so are those across it.
pub record IsGap (w : ℕ → ℕ) (len pos : ℕ) : Type 0 where
  pub edges : (c : ℕ) → 0 < c → c < len → c ≢ pos → parent c ≢ pos → w (parent c) ≤ w c
  pub bridged : (c : ℕ) → 0 < c → c < len → parent c ≡ pos → 0 < pos → w (parent pos) ≤ w c

abbrev pub IsAboveChildren : (ℕ → ℕ) → (len pos x : ℕ) → Type 0
IsAboveChildren w len pos x = (c : ℕ) → 0 < c → c < len → parent c ≡ pos → x ≤ w c

-- A hole in which the value can be placed with the heap order whole.
pub record IsSettled (tie : Bool) (h : Hole) : Type 0 where
  pub linked : IsLinked h
  pub gap : IsGap (weight tie h.owner) h.owner.len h.position
  pub below : 0 < h.position → weight tie h.owner (parent h.position) ≤ rank tie h.value
  pub above : IsAboveChildren (weight tie h.owner) h.owner.len h.position (rank tie h.value)

-- What moving entries through the hole leaves alone.
pub record IsKept (h h' : Hole) : Type 0 where
  pub value : h'.value ≡ h.value
  pub len : h'.owner.len ≡ h.owner.len
  pub capacity : h'.owner.capacity ≡ h.owner.capacity
  pub own : h'.owner.positions h.value.identity.index ≡ h.owner.positions h.value.identity.index
  pub outside : (p : ℕ) → h.owner.len ≤ p → h'.owner.entries p ≡ h.owner.entries p
  pub views : (k : ℕ) → k ≢ h.value.identity.index → view h'.owner k ≡ view h.owner k

pub IsKept-refl : (h : Hole) → IsKept h h
IsKept-refl h = record {
  value = refl;
  len = refl;
  capacity = refl;
  own = refl;
  outside = λ p l. refl;
  views = λ k n. refl;
}

pub IsKept-shift :
    (h h' : Hole) (source : ℕ)
    → IsLinked h
    → source < h.owner.len
    → source ≢ h.position
    → IsKept (shift h source) h'
    → IsKept h h'
unfolding shift
IsKept-shift h h' source v a b t = record {
  value = t.value;
  len = t.len;
  capacity = t.capacity;
  own = t.own ∙ ground (arith, v.forth source);
  outside = λ p l. t.outside p l ∙ ground (arith, v.inside);
  views = λ k n. t.views k n ∙ shift-view h source k v a b n;
}

-- The decision of `up`: the positions from a start to the end, each below a larger entry.
pub data UpPath (less : ℕ → Bool) (end : ℕ) : ℕ → Type 0 where
  stop : {pos : ℕ} → pos ≡ end → (pos ≡ 0) ⊎ (less (parent pos) ≡ false) → UpPath less end pos
  step :
      {pos : ℕ}
      → pos ≢ 0
      → less (parent pos) ≡ true
      → UpPath less end (parent pos)
      → UpPath less end pos

pub UpPath-le : {less : ℕ → Bool} {end pos : ℕ} → UpPath less end pos → end ≤ pos
UpPath-le (stop e s) = omega arith
UpPath-le (step n l p) = omega (arith, UpPath-le p)

-- The fuel of `up` suffices.
pub up_end-UpPath :
    (k : ℕ) (compare : ℕ → Ordering) (pos : ℕ)
    → pos < k
    → UpPath (λ p. is_lt (compare p)) (up_end k compare pos) pos
unfolding up_end
up_end-UpPath zero compare pos h = absurd (omega arith)
up_end-UpPath (suc k) compare pos h = elim (Bool-cases (pos == 0)) [
  | inl e ↦ rw e (stop refl (inl (ground arith)))
  | inr e ↦ elim (Bool-cases (is_lt (compare (parent pos)))) [
    | inl l ↦
        rw (e, l) (step (ground arith) l (up_end-UpPath k compare (parent pos) (ground arith)))
    | inr g ↦ rw (e, g) (stop refl (inr g))
  ]
]

-- The test of a path agrees with the entries before a position.
abbrev pub AgreesBefore : Bool → Hole → (ℕ → Bool) → ℕ → Type 0
AgreesBefore tie h less pos =
    (p : ℕ)
    → p < pos
    → (less p ≡ true → rank tie h.value < weight tie h.owner p)
      × (less p ≡ false → weight tie h.owner p ≤ rank tie h.value)

shift-IsGap_up :
    (tie : Bool) (h : Hole)
    → h.position ≢ 0
    → rank tie h.value < weight tie h.owner (parent h.position)
    → h.position < h.owner.len
    → IsGap (weight tie h.owner) h.owner.len h.position
    → IsGap (weight tie (shift h (parent h.position)).owner) h.owner.len (parent h.position)
      × IsAboveChildren
          (weight tie (shift h (parent h.position)).owner)
          h.owner.len
          (parent h.position)
          (rank tie h.value)
unfolding shift
shift-IsGap_up tie h n l i g =
    let s = parent h.position in
    (
      record {
        edges = λ c p q r t. ground (arith, g.edges c p q, g.bridged c p q);
        bridged = λ c p q r t. ground (arith, g.edges c p q, g.edges s, g.bridged c p q);
      },
      λ c p q r. ground (arith, g.edges c p q),
    )

-- Raising the hole along the path of `up` ends where the value fits.
pub raise-IsSettled :
    {tie : Bool} {less : ℕ → Bool} {end pos : ℕ}
    → UpPath less end pos
    → (k : ℕ) (h : Hole) → pos < k
    → h.position ≡ pos
    → IsLinked h
    → IsGap (weight tie h.owner) h.owner.len h.position
    → IsAboveChildren (weight tie h.owner) h.owner.len h.position (rank tie h.value)
    → AgreesBefore tie h less pos
    → IsKept h (raise k end h) × IsSettled tie (raise k end h) × ((raise k end h).position ≡ end)
unfolding raise shift
raise-IsSettled p zero h f e v g a b = absurd (omega arith)
raise-IsSettled {tie} {less} {end} (stop {pos = pos} q s) (suc k) h f e v g a b =
    let here : (h.position == end) ≡ true = ground arith in
    rw here (
      IsKept-refl h,
      record { linked = v; gap = g; below = λ l. ground (arith, b (parent pos), s); above = a },
      ground arith,
    )
raise-IsSettled {tie} {less} {end} (step {pos = pos} n l p) (suc k) h f e v g a b =
    let there : (h.position == end) ≡ false = ground (arith, UpPath-le p) in
    let s = parent h.position in
    let same : s ≡ parent pos = rw e in
    let lighter : rank tie h.value < weight tie h.owner s = ground (arith, b (parent pos)) in
    let next = shift-IsGap_up tie h (omega arith) lighter v.inside g in
    let inside : s < h.owner.len = omega (arith, v.inside) in
    let apart : s ≢ h.position = omega arith in
    let ih =
      raise-IsSettled {tie = tie} {less = less} {end = end} {pos = parent pos} p k (shift h s)
        (omega arith) same (shift-IsLinked h s v inside apart) next.0 next.1
        (λ q m. ground (arith, b q)) in
    rw there (IsKept-shift h (raise k end (shift h s)) s v inside apart ih.0, ih.1, ih.2)
