-- ===== src/Map/Flat/Edits.antt =====
-- Insertion at the vacant bucket of a probe, removal, and clearing of a flat table.
use Prim.Native.Nat.{bit_and}
use o.Prelude.{
  ℕ, ◌+◌, ◌-◌, ◌<◌, ◌≤◌, ◌≡◌, ◌≢◌, ◌⊎◌, ◌↔◌, inl, inr, refl, sym, ap, ◌∙◌, Bool, true, false,
  Option, none, some, ℕ_discrete, Bool-cases, ◌==◌, arith, mod64,
}
use o.Map.{Table, empty_control, plan_max, start, tag}
use o.Map.Edit.{insert, clear, remove}
use o.Map.Circle.{steps, mask-extent}
use o.Map.Closing.{IsDirectory, home}
use o.Map.Counting.{occupied_count, count-fill, count-zero, count-leave}
use o.Map.Removal.{IsRemoved, removed-Was, removed-keeps}
use o.Map.Flat.{Flat, fill, clear_table}
use o.Map.Flat.Holds.{Holds}
use o.Map.Flat.Keys.{enter, erase, enter_new, enter_old, enter_cases, erase_old, erase-some}

tag_occupied : (hash : ℕ) → hash < mod64 → tag hash ≢ empty_control
tag_occupied hash l = omega arith

module _ {ℓ} {P : Type ℓ} (self : Table P) (b hash : ℕ) (payload : P) where
  insert-IsDirectory :
      IsDirectory self
      → hash < mod64
      → b < self.buckets
      → self.controls b ≡ empty_control
      → ((j : ℕ)
          → j < self.buckets
          → steps self.buckets (start self hash) j < steps self.buckets (start self hash) b
          → self.controls j ≢ empty_control)
      → IsDirectory (insert self b hash payload)
  unfolding insert start
  insert-IsDirectory d l m o c = record {
    extent = d.extent;
    words = λ i n p. ground (arith, d.words i);
    tags = λ i n p. ground (arith, d.tags i);
    probed = λ i j n p q r. elim (Bool-cases (b == j)) [
      | inl e ↦ ground (arith, e, tag_occupied hash l)
      | inr e ↦ elim (Bool-cases (b == i)) [
        | inl f ↦
            let near : steps self.buckets (bit_and hash (self.buckets - 1)) j
                < steps self.buckets (bit_and hash (self.buckets - 1)) b =
              ground (arith, e, f, r) in
            ground (arith, e, c j p (rw (mask-extent d.extent) near))
        | inr f ↦
            let near : steps self.buckets (home self i) j < steps self.buckets (home self i) i =
              ground (arith, e, f, r) in
            ground (arith, e, f, d.probed i j n p (ground (arith, f, q)) near)
      ]
    ];
  }

count_none :
    (n : ℕ) (control : ℕ → ℕ) (i : ℕ)
    → i < n
    → occupied_count n control ≡ 0
    → control i ≡ empty_control
count_none n control i l e = elim (ℕ_discrete (control i) empty_control) [
  | yes p ↦ p
  | no p ↦ absurd (omega (arith, e, count-leave n control i l p))
]

clear-IsDirectory {ℓ} : {P : Type ℓ} (self : Table P) → IsDirectory self → IsDirectory (clear self)
clear-IsDirectory self d = record {
  extent = d.extent;
  words = λ i n p. absurd (ground (arith, n, p));
  tags = λ i n p. absurd (ground (arith, n, p));
  probed = λ i j n l p. absurd (ground (arith, n, p));
}

module _ {ℓ κ} {V : Type ℓ} {K : Type κ} (key : V → K) (hash : K → ℕ) where
  -- A table without occupied buckets holds nothing.
  pub empty-Holds :
      (self : Flat V)
      → self.capacity ≤ plan_max
      → self.len ≡ 0
      → ((self.table.buckets ≡ 0) × (self.capacity ≡ 0))
        ⊎ (IsDirectory self.table × (self.capacity < self.table.buckets))
      → ((i : ℕ) → i < self.table.buckets → self.table.controls i ≡ empty_control)
      → Holds key hash self (λ k. none) 0
  empty-Holds self w e s v = record {
    word = w;
    len = e;
    fits = omega arith;
    counted = count-zero self.table.buckets self.table.controls v;
    shape = s;
    placed = λ i n p. absurd (p (v i n));
    unique = λ i j n l p q r. absurd (p (v i n));
    entered = λ i n p. absurd (p (v i n));
    present = λ k w p. absurd (cc);
  }

module _ {ℓ κ} {V : Type ℓ} {K : Type κ} (key : V → K) (hash : K → ℕ)
    (word : (k : K) → hash k < mod64) (eq : K → K → Bool)
    (eq_iff : (a b : K) → (eq a b ≡ true) ↔ (a ≡ b)) (self : Flat V) (m : K → Option V) (size : ℕ)
    (h : Holds key hash self m size) where
  pub fill-Holds :
      (b : ℕ) (v : V)
      → size < self.capacity
      → m (key v) ≡ none
      → b < self.table.buckets
      → self.table.controls b ≡ empty_control
      → ((j : ℕ)
          → j < self.table.buckets
          → steps self.table.buckets (start self.table (hash (key v))) j
            < steps self.table.buckets (start self.table (hash (key v))) b
          → self.table.controls j ≢ empty_control)
      → Holds key hash (fill self b (hash (key v)) v) (enter eq m (key v) v) (size + 1)
  unfolding insert
  fill-Holds b v room new l o c =
      let alone : (i : ℕ)
          → i < self.table.buckets
          → self.table.controls i ≢ empty_control
          → (key v ≡ key (self.table.payloads i) → ⊥) =
        λ i n p e.
          let f : none ≡ some (self.table.payloads i) = sym new ∙ ap m e ∙ h.entered i n p in cc in
      record {
        word = h.word;
        len = ground (arith, h.len, h.word, h.fits);
        fits = omega arith;
        counted =
            count-fill self.table.buckets self.table.controls b (tag (hash (key v))) l o
              (tag_occupied _ (word (key v)))
            ∙ omega (arith, h.counted);
        shape = elim h.shape [
          | inl (e, f) ↦ absurd (omega (arith, l, e))
          | inr (d, f) ↦
              inr (insert-IsDirectory self.table b (hash (key v)) v d (word (key v)) l o c, f)
        ];
        placed = λ i n p. elim (Bool-cases (b == i)) [
          | inl e ↦ rw e refl
          | inr e ↦ rw e (h.placed i n (ground (arith, e, p)))
        ];
        unique = λ i j n p q r t. elim (Bool-cases (b == i)) [
          | inl e ↦ elim (Bool-cases (b == j)) [
            | inl f ↦ ground (arith, e, f)
            | inr f ↦ absurd (alone j p (ground (arith, f, r)) (sym (rw e refl) ∙ t ∙ rw f refl))
          ]
          | inr e ↦ elim (Bool-cases (b == j)) [
            | inl f ↦
                absurd (alone i n (ground (arith, e, q)) (sym (rw f refl) ∙ sym t ∙ rw e refl))
            | inr f ↦
                h.unique i j n p (ground (arith, e, q)) (ground (arith, f, r))
                  (sym (rw e refl) ∙ t ∙ rw f refl)
          ]
        ];
        entered = λ i n p. elim (Bool-cases (b == i)) [
          | inl e ↦ rw e (enter_new eq eq_iff m (key v) (key v) v refl)
          | inr e ↦
              let q : self.table.controls i ≢ empty_control = ground (arith, e, p) in
              rw e (
                enter_old eq eq_iff m (key v) (key (self.table.payloads i)) v (alone i n q)
                ∙ h.entered i n q)
        ];
        present = λ k w e. elim (enter_cases eq eq_iff m (key v) k v w e) [
          | inl (p, q) ↦ (
            b,
            l,
            ground (arith, tag_occupied _ (word (key v))),
            ground (arith, q),
            sym (ap key q) ∙ p,
          )
          | inr (p, q) ↦
              let (i, n, r, s, t) = h.present k w q in
              let apart : b ≢ i = λ x. r (ap self.table.controls (sym x) ∙ o) in
              let off : (b == i) ≡ false = ground (arith, apart) in
              (i, n, ground (arith, r, apart), rw off s, t)
        ];
      }

  pub clear-Holds : Holds key hash (clear_table self) (λ k. none) 0
  unfolding clear_table
  clear-Holds = elim (Bool-cases (self.len == 0)) [
    | inl e ↦ rw e (
        empty-Holds key hash self h.word (ground (arith, e)) h.shape (λ i n.
          count_none self.table.buckets self.table.controls i n
            (ground (arith, e, h.len, h.counted))))
    | inr e ↦ rw e (
        empty-Holds key hash (record self { table = clear self.table; len = 0 }) h.word refl
          (elim h.shape [ inl x ↦ inl x | inr (d, l) ↦ inr (clear-IsDirectory self.table d, l) ])
          (λ i n. ground (arith, n)))
  ]

  module _ (b : ℕ) (l : b < self.table.buckets) (o : self.table.controls b ≢ empty_control) where
    pub taken-Holds :
        (r : IsRemoved self.table b (remove self.table b))
        → Holds key hash
            (record self { table = r.table; len = size - 1 })
            (erase eq m (key (self.table.payloads b)))
            (size - 1)
    taken-Holds r = record {
      word = h.word;
      len = refl;
      fits = omega (arith, h.fits);
      counted = omega (arith, r.counted, h.counted);
      shape = elim h.shape [
        | inl (e, f) ↦ absurd (omega (arith, l, e))
        | inr (d, f) ↦ inr (r.directory, omega (arith, f, r.same.buckets))
      ];
      placed = λ i n p.
          let w = removed-Was r i n p in
          w.hash ∙ h.placed w.place w.inside w.held ∙ ap (λ v. hash (key v)) (sym w.payload);
      unique = λ i j n p q t e.
          let w = removed-Was r i n q in
          let x = removed-Was r j p t in
          let same =
            h.unique w.place x.place w.inside x.inside w.held x.held
              (ap key (sym w.payload) ∙ e ∙ ap key x.payload) in
          sym w.moved ∙ ap r.same.to same ∙ x.moved;
      entered = λ i n p.
          let w = removed-Was r i n p in
          let apart = λ (e : key (self.table.payloads b) ≡ key (self.table.payloads w.place)).
            w.other (h.unique b w.place l w.inside o w.held e) in
          rw w.payload (
            erase_old eq eq_iff m (key (self.table.payloads b)) (key (self.table.payloads w.place))
              apart
            ∙ h.entered w.place w.inside w.held);
      present = λ k w e.
          let (d, f) = erase-some eq eq_iff m (key (self.table.payloads b)) k w e in
          let (j, n, q, s, t) = h.present k w f in
          let (i, p, u, v) =
            removed-keeps r j n q
              (λ x. d (ap (λ y. key (self.table.payloads y)) x ∙ ap key s ∙ t)) in
          (i, p, u, v ∙ s, t);
    }
