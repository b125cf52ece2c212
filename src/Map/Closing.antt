-- ===== src/Map/Closing.antt =====
-- `raw::close` ends at a vacant bucket, restores probing, and keeps every other entry.
use Prim.Native.Nat.{bit_and}
use o.Prelude.{
  ℕ, zero, suc, ◌-◌, ◌<◌, ◌≤◌, ◌≡◌, ◌≢◌, refl, sym, ap, ◌∙◌, Bool, true, false, Option, some, ltb,
  ◌==◌, if◌then◌else◌, arith, lt→ltb, ℕ_discrete, dec_lt, mod64, wrapping_sub,
}
use o.Map.{Table, empty_control, tag}
use o.Map.Edit.{close_from, shift}
use o.Map.Circle.{IsExtent, after, steps, steps_less, after_mask, steps_mask, start-home}
use o.Map.Counting.{occupied_count, count-move}
use o.Map.Backshift.{IsProbed, IsClosing, closed, stay, move}

abbrev pub home {ℓ} : {P : Type ℓ} → Table P → ℕ → ℕ
home self i = bit_and (self.hashes i) (self.buckets - 1)

-- A directory with buckets, in which probing finds every entry.
pub record IsDirectory {ℓ} {P : Type ℓ} (self : Table P) : Type 0 where
  pub extent : IsExtent self.buckets
  pub words : (i : ℕ) → i < self.buckets → self.controls i ≢ empty_control → self.hashes i < mod64
  pub tags :
      (i : ℕ)
      → i < self.buckets
      → self.controls i ≢ empty_control
      → self.controls i ≡ tag (self.hashes i)
  pub probed : IsProbed self.buckets self.controls (home self)

-- The entries of one directory are those of another, in other buckets perhaps.
pub record IsSame {ℓ} {P : Type ℓ} (self other : Table P) : Type ℓ where
  pub to : ℕ → ℕ
  pub from : ℕ → ℕ
  pub buckets : other.buckets ≡ self.buckets
  pub forth :
      (i : ℕ)
      → i < self.buckets
      → self.controls i ≢ empty_control
      → (to i < self.buckets)
        × (other.controls (to i) ≢ empty_control)
        × (other.hashes (to i) ≡ self.hashes i)
        × (other.payloads (to i) ≡ self.payloads i)
        × (from (to i) ≡ i)
  pub back :
      (i : ℕ)
      → i < self.buckets
      → other.controls i ≢ empty_control
      → (from i < self.buckets) × (self.controls (from i) ≢ empty_control) × (to (from i) ≡ i)

IsSame-refl {ℓ} : {P : Type ℓ} (self : Table P) → IsSame self self
IsSame-refl self = record {
  to = λ i. i;
  from = λ i. i;
  buckets = refl;
  forth = λ i l o. (l, o, refl, refl, refl);
  back = λ i l o. (l, o, refl);
}

IsSame-trans {ℓ} : {P : Type ℓ} {a b c : Table P} → IsSame a b → IsSame b c → IsSame a c
IsSame-trans {a} p q = record {
  to = λ i. q.to (p.to i);
  from = λ i. p.from (q.from i);
  buckets = q.buckets ∙ p.buckets;
  forth = λ i l o.
      let (l', o', h, v, r) = p.forth i l o in
      let (l'', o'', h', v', r') = q.forth (p.to i) (omega (arith, l', p.buckets)) o' in
      (omega (arith, l'', p.buckets), o'', h' ∙ h, v' ∙ v, ap p.from r' ∙ r);
  back = λ i l o.
      let (l', o', r) = q.back i (omega (arith, l, p.buckets)) o in
      let (l'', o'', r') = p.back (q.from i) (omega (arith, l', p.buckets)) o' in
      (l'', o'', ap q.to r' ∙ r);
}

at_if {ℓ} :
    {A : Type ℓ} (b : Bool) (f : ℕ → A) (x y : ℕ)
    → (if b then f x else f y) ≡ f (if b then x else y)
at_if true f x y = refl
at_if false f x y = refl

shift-IsSame {ℓ} :
    {P : Type ℓ} (self : Table P) (hole next hash : ℕ)
    → hole < self.buckets
    → next < self.buckets
    → hole ≢ next
    → self.controls hole ≡ empty_control
    → self.hashes next ≡ hash
    → IsSame self (shift self hole next hash)
unfolding shift
shift-IsSame self hole next hash l m d e h = record {
  to = λ i. if next == i then hole else i;
  from = λ i. if hole == i then next else i;
  buckets = refl;
  forth = λ i n o. (
    ground (arith, l, n),
    ground (arith, d, e, n, o),
    ground (arith, d, e, h, n, o),
    at_if (hole == (if next == i then hole else i)) self.payloads next _
        ∙ ap self.payloads (ground (arith, d, e, h, n, o)),
    ground (arith, d, e, h, n, o),
  );
  back = λ i n o. ground (arith, d, e, h, n, o, l, m);
}

module _ {ℓ} {P : Type ℓ} (self : Table P) (fuel hole next : ℕ) where
  close_done : self.controls next ≡ empty_control → close_from self (suc fuel) hole next ≡ some self
  unfolding close_from
  close_done e =
      let a : self.controls next == empty_control ≡ true = ground (arith, e) in
      rw (close_from, a) refl

  module _ (e : IsExtent self.buckets) (l : hole < self.buckets) (m : next < self.buckets)
      (o : self.controls next ≢ empty_control) where
    looked : self.controls next == empty_control ≡ false
    looked = ground (arith, o)

    compared :
        ltb
          (bit_and (wrapping_sub mod64 hole (home self next)) (self.buckets - 1))
          (bit_and (wrapping_sub mod64 next (home self next)) (self.buckets - 1))
        ≡ ltb (steps self.buckets (home self next) hole) (steps self.buckets (home self next) next)
    compared =
        let h = start-home e (self.hashes next) in
        rw (steps_mask e (home self next) hole h l, steps_mask e (home self next) next h m) refl

    close_stay :
        steps self.buckets (home self next) next ≤ steps self.buckets (home self next) hole
        → close_from self (suc fuel) hole next ≡ close_from self fuel hole (after self.buckets next)
    unfolding close_from
    close_stay p =
        let q : ltb (steps self.buckets (home self next) hole)
              (steps self.buckets (home self next) next)
            ≡ false =
          ground (arith, p) in
        let b = compared ∙ q in rw (close_from, looked, b, after_mask e next m) refl

    close_move :
        steps self.buckets (home self next) hole < steps self.buckets (home self next) next
        → close_from self (suc fuel) hole next
          ≡ close_from (shift self hole next (self.hashes next)) fuel next (after self.buckets next)
    unfolding close_from
    close_move p =
        let b = compared ∙ lt→ltb _ _ p in rw (close_from, looked, b, after_mask e next m) refl

-- What an occupied bucket's planes hold fits it.
pub record IsTagged {ℓ} {P : Type ℓ} (self : Table P) : Type 0 where
  pub words : (i : ℕ) → i < self.buckets → self.controls i ≢ empty_control → self.hashes i < mod64
  pub tags :
      (i : ℕ)
      → i < self.buckets
      → self.controls i ≢ empty_control
      → self.controls i ≡ tag (self.hashes i)

shift-IsTagged {ℓ} :
    {P : Type ℓ} (self : Table P) (hole next : ℕ)
    → next < self.buckets
    → self.controls next ≢ empty_control
    → IsTagged self
    → IsTagged (shift self hole next (self.hashes next))
unfolding shift
shift-IsTagged self hole next l o v = record {
  words = λ i m q. ground (arith, l, o, v.words i, v.words next, m, q);
  tags = λ i m q. ground (arith, l, o, v.tags i, v.tags next, m, q);
}

module _ {ℓ} {P : Type ℓ} (self : Table P) (hole next : ℕ) where
  shift-IsExtent :
      IsExtent self.buckets → IsExtent (shift self hole next (self.hashes next)).buckets
  unfolding shift
  shift-IsExtent e = e

  shift_short :
      (fuel spare : ℕ)
      → steps self.buckets (after self.buckets next) spare < fuel
      → let m = (shift self hole next (self.hashes next)).buckets in
        steps m (after self.buckets next) spare < fuel
  unfolding shift
  shift_short fuel spare l = l

  shift_counted :
      (c : ℕ)
      → c
        ≡ occupied_count
            (shift self hole next (self.hashes next)).buckets
            (shift self hole next (self.hashes next)).controls
      → hole < self.buckets
      → next < self.buckets
      → hole ≢ next
      → self.controls hole ≡ empty_control
      → self.controls next ≢ empty_control
      → c ≡ occupied_count self.buckets self.controls
  unfolding shift
  shift_counted c e l m d h o = e ∙ count-move self.buckets self.controls hole next l m d h o

  shift-IsClosing :
      {spare : ℕ}
      → IsClosing self.buckets self.controls (home self) hole next spare
      → self.controls next ≢ empty_control
      → steps self.buckets (home self next) hole < steps self.buckets (home self next) next
      → let t = shift self hole next (self.hashes next) in
        IsClosing t.buckets t.controls (home t) next (after self.buckets next) spare
  unfolding shift
  shift-IsClosing v o p =
      move v _ _
        (λ i. sym (
          at_if (hole == i) (λ h. bit_and h (self.buckets - 1)) (self.hashes next) (self.hashes i)))
        (λ i. refl) o p

-- What a loop of `close` comes to.
pub record IsClosed {ℓ} {P : Type ℓ} (self : Table P) (result : Option (Table P)) : Type ℓ where
  pub table : Table P
  pub returns : result ≡ some table
  pub tagged : IsTagged table
  pub same : IsSame self table
  pub probed : IsProbed table.buckets table.controls (home table)
  pub counted :
      occupied_count self.buckets table.controls ≡ occupied_count self.buckets self.controls

pub close_from-IsClosed {ℓ} :
    {P : Type ℓ} (self : Table P) (fuel hole next spare : ℕ)
    → IsExtent self.buckets
    → IsTagged self
    → IsClosing self.buckets self.controls (home self) hole next spare
    → steps self.buckets next spare < fuel
    → IsClosed self (close_from self fuel hole next)
unfolding shift
close_from-IsClosed self zero hole next spare e t v l = absurd (omega (arith, l))
close_from-IsClosed self (suc fuel) hole next spare e t v l =
    elim (ℕ_discrete (self.controls next) empty_control) [
      | yes o ↦ record {
        table = self;
        returns = close_done self fuel hole next o;
        tagged = t;
        same = IsSame-refl self;
        probed = closed v o;
        counted = refl;
      }
      | no o ↦
          let n = self.buckets in
          let less =
            steps_less n next spare v.next_in v.spare_in
              (λ w. o (ap self.controls w ∙ v.spare_vacant)) in
          let short : steps n (after n next) spare < fuel = omega (arith, l, less) in
          elim (dec_lt (steps n (home self next) hole) (steps n (home self next) next)) [
            | no p ↦
                let ih =
                  close_from-IsClosed self fuel hole (after n next) spare e t
                    (stay v o (omega (arith, p))) short in
                record {
                  table = ih.table;
                  returns =
                      close_stay self fuel hole next e v.hole_in v.next_in o (omega (arith, p))
                      ∙ ih.returns;
                  tagged = ih.tagged;
                  same = ih.same;
                  probed = ih.probed;
                  counted = ih.counted;
                }
            | yes p ↦
                let ih =
                  close_from-IsClosed (shift self hole next (self.hashes next)) fuel next
                    (after n next) spare (shift-IsExtent self hole next e)
                    (shift-IsTagged self hole next v.next_in o t)
                    (shift-IsClosing self hole next v o p)
                    (shift_short self hole next fuel spare short) in
                record {
                  table = ih.table;
                  returns = close_move self fuel hole next e v.hole_in v.next_in o p ∙ ih.returns;
                  tagged = ih.tagged;
                  same =
                      IsSame-trans
                        (shift-IsSame self hole next (self.hashes next) v.hole_in v.next_in
                          (λ w. v.next_off (sym w)) v.hole_vacant refl)
                        ih.same;
                  probed = ih.probed;
                  counted =
                      shift_counted self hole next _ ih.counted (v.hole_in) v.next_in
                        (λ w. v.next_off (sym w)) v.hole_vacant o;
                }
          ]
    ]
