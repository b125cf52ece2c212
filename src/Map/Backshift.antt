-- ===== src/Map/Backshift.antt =====
-- The loop of `raw::close`, on what it knows of controls and homes.
use o.Prelude.{
  ℕ, ◌+◌, ◌<◌, ◌≤◌, ◌≡◌, ◌≢◌, inl, inr, sym, ap, ◌∙◌, true, false, ◌==◌, if◌then◌else◌, arith,
  Bool-cases,
}
use o.Map.{empty_control}
use o.Map.Circle.{after, steps, steps_one, steps_same}

-- Every bucket from an occupied bucket's home to it is occupied.
abbrev pub IsProbed : (n : ℕ) (control home : ℕ → ℕ) → Type 0
IsProbed n control home =
    (i j : ℕ)
    → i < n
    → j < n
    → control i ≢ empty_control
    → steps n (home i) j < steps n (home i) i
    → control j ≢ empty_control

-- The loop with a hole, the bucket to look at next, and a vacant bucket that ends it.
pub record IsClosing (n : ℕ) (control home : ℕ → ℕ) (hole next spare : ℕ) : Type 0 where
  pub homes : (i : ℕ) → home i < n
  pub hole_in : hole < n
  pub next_in : next < n
  pub spare_in : spare < n
  pub hole_vacant : control hole ≡ empty_control
  pub spare_vacant : control spare ≡ empty_control
  pub spare_off : spare ≢ hole
  pub next_off : next ≢ hole
  pub through :
      (i j : ℕ)
      → i < n
      → j < n
      → control i ≢ empty_control
      → steps n (home i) j < steps n (home i) i
      → j ≢ hole
      → control j ≢ empty_control
  pub behind :
      (i : ℕ)
      → i < n
      → control i ≢ empty_control
      → steps n hole i < steps n hole next
      → steps n (home i) i ≤ steps n (home i) hole
  pub before : steps n hole next ≤ steps n hole spare

steps_split :
    (n a b c : ℕ)
    → a < n
    → b < n
    → c < n
    → steps n a b ≤ steps n a c
    → steps n a c ≡ steps n a b + steps n b c
steps_split n a b c l m o p = ground (arith, p)

steps_join :
    (n a b c d : ℕ)
    → a < n
    → b < n
    → c < n
    → d < n
    → steps n a b ≤ steps n a d
    → steps n b c ≤ steps n b d
    → steps n a c ≡ steps n a b + steps n b c
steps_join n a b c d l m o p q r = ground (arith, q, r)

pub steps_zero : (n a b : ℕ) → a < n → b < n → steps n a b ≡ 0 → a ≡ b
steps_zero n a b l m p = ground (arith, p)

steps-after :
    (n a b c : ℕ)
    → a < n
    → b < n
    → c < n
    → a ≢ b
    → b ≢ c
    → steps n a b ≤ steps n a c
    → (steps n a (after n b) ≡ steps n a b + 1)
      × (after n b ≢ a)
      × (after n b < n)
      × (steps n a (after n b) ≤ steps n a c)
steps-after n a b c l m o p q r = ground (arith, r)

module _ {n : ℕ} {control home : ℕ → ℕ} {hole next spare : ℕ}
    (v : IsClosing n control home hole next spare) where
  -- At a vacant bucket the loop is done.
  pub closed : control next ≡ empty_control → IsProbed n control home
  closed e i j l m o p q = elim (Bool-cases (j == hole)) [
    | inr b ↦ v.through i j l m o p (ground (arith, b)) q
    | inl b ↦
        let far : steps n hole next ≤ steps n hole i = ground (arith, v.behind i, p, b) in
        let apart : steps n hole next ≢ steps n hole i =
          λ w. o (ap control (sym (steps_same n hole next i v.hole_in v.next_in l w)) ∙ e) in
        let over : steps n (home i) hole ≤ steps n (home i) i = ground (arith, p, b) in
        let whole = steps_split n (home i) hole i (v.homes i) v.hole_in l over in
        let part = steps_join n (home i) hole next i (v.homes i) v.hole_in v.next_in l over far in
        v.through i next l v.next_in o (omega (arith, far, apart, whole, part)) v.next_off e
  ]

  -- A bucket whose path does not lead over the hole stays.
  pub stay :
      control next ≢ empty_control
      → steps n (home next) next ≤ steps n (home next) hole
      → IsClosing n control home hole (after n next) spare
  stay o p =
      let off : next ≢ spare = λ w. o (ap control w ∙ v.spare_vacant) in
      let more =
        steps-after n hole next spare v.hole_in v.next_in v.spare_in (λ w. v.next_off (sym w)) off
          v.before in
      record {
        homes = v.homes;
        hole_in = v.hole_in;
        next_in = more.2;
        spare_in = v.spare_in;
        hole_vacant = v.hole_vacant;
        spare_vacant = v.spare_vacant;
        spare_off = v.spare_off;
        next_off = more.1;
        through = v.through;
        behind = λ i l q r. elim (Bool-cases (i == next)) [
          | inl b ↦ ground (arith, b, p)
          | inr b ↦
              let apart : steps n hole i ≢ steps n hole next =
                λ w. ground (arith, b, steps_same n hole i next v.hole_in l v.next_in w) in
              v.behind i l q (omega (arith, r, more.0, apart))
        ];
        before = more.3;
      }

  moved_short :
      (x i j : ℕ) {h : ℕ}
      → i == x ≡ true
      → h ≡ (if x == i then home next else home i)
      → steps n h j < steps n h i
      → steps n (home next) j < steps n (home next) x
  moved_short x i j a e r = ground (arith, a, e, r)

  other_short :
      (x i j : ℕ) {h : ℕ}
      → i == x ≡ false
      → h ≡ (if x == i then home next else home i)
      → steps n h j < steps n h i
      → steps n (home i) j < steps n (home i) i
  other_short x i j a e r = ground (arith, a, e, r)

  -- A bucket whose path leads over the hole fills it, and leaves a hole itself.
  pub move :
      (control' home' : ℕ → ℕ)
      → ((i : ℕ) → home' i ≡ (if hole == i then home next else home i))
      → ((i : ℕ)
          → control' i
            ≡ (if next == i then empty_control else if hole == i then control next else control i))
      → control next ≢ empty_control
      → steps n (home next) hole < steps n (home next) next
      → IsClosing n control' home' next (after n next) spare
  move control' home' h c o p =
      let off : next ≢ spare = λ w. o (ap control w ∙ v.spare_vacant) in
      let more =
        steps-after n hole next spare v.hole_in v.next_in v.spare_in (λ w. v.next_off (sym w)) off
          v.before in
      record {
        homes = λ i. ground (arith, h i, v.homes i, v.homes next);
        hole_in = v.next_in;
        next_in = more.2;
        spare_in = v.spare_in;
        hole_vacant = ground (arith, c next);
        spare_vacant = ground (arith, c spare, v.spare_vacant, v.spare_off);
        spare_off = λ w. off (sym w);
        next_off = (steps_one n next hole v.next_in v.hole_in v.next_off).1;
        through = λ i j l m q r w. elim (Bool-cases (j == hole)) [
          | inl b ↦ λ z. o (ground (arith, b, z, c j, v.next_off, w))
          | inr b ↦ elim (Bool-cases (i == hole)) [
            | inl a ↦
                let short : steps n (home next) j < steps n (home next) hole =
                  moved_short hole i j a (h i) r in
                λ z.
                  v.through next j v.next_in m o (omega (arith, short, p))
                    (λ y. ground (arith, b, y)) (ground (arith, b, z, c j, w))
            | inr a ↦ λ z.
                v.through i j l m (λ y. q (ground (arith, c i, y, a)))
                  (other_short hole i j a (h i) r) (λ y. ground (arith, b, y))
                  (ground (arith, b, z, c j, w))
          ]
        ];
        behind = λ i l q r.
            let same : next ≡ i =
              steps_zero n next i v.next_in l
                (omega (arith, r, (steps_one n next hole v.next_in v.hole_in v.next_off).0)) in
            absurd (q (ground (arith, c i, same)));
        before =
            let one = steps_one n next spare v.next_in v.spare_in off in
            omega (arith, one.0, one.2);
      }
