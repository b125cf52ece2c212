-- ===== src/Map/Removal.antt =====
-- `Hole::remove` and `Hole::retire`.
use o.Prelude.{ℕ, ◌+◌, ◌<◌, ◌≡◌, ◌≢◌, refl, sym, ap, ◌∙◌, Option, some, arith}
use o.Links.{update}
use o.Map.{Table, empty_control}
use o.Map.Counting.{occupied_count, count-leave}
use o.Map.Edit.{close, remove}
use o.Map.Circle.{after, steps, steps_one, steps_lt, after_mask, start-home}
use o.Map.Backshift.{IsClosing, steps_zero}
use o.Map.Closing.{IsDirectory, IsSame, IsClosed, IsTagged, home, close_from-IsClosed}

abbrev pub vacated {ℓ} : {P : Type ℓ} → Table P → ℕ → Table P
vacated self bucket = record self { controls = update self.controls bucket empty_control }

module _ {ℓ} {P : Type ℓ} (self : Table P) (bucket spare : ℕ) (d : IsDirectory self)
    (l : bucket < self.buckets) (m : spare < self.buckets) (o : self.controls spare ≡ empty_control)
    (p : self.controls bucket ≢ empty_control) where
  vacated-IsTagged : IsTagged (vacated self bucket)
  vacated-IsTagged = record {
    words = λ i n q. ground (arith, d.words i, n, q);
    tags = λ i n q. ground (arith, d.tags i, n, q);
  }

  vacated-IsClosing :
      IsClosing self.buckets
        (vacated self bucket).controls
        (home self)
        bucket
        (after self.buckets bucket)
        spare
  vacated-IsClosing =
      let apart : bucket ≢ spare = λ w. p (ap self.controls w ∙ o) in
      let one = steps_one self.buckets bucket spare l m apart in
      record {
        homes = λ i. start-home d.extent (self.hashes i);
        hole_in = l;
        next_in = ground (arith, l);
        spare_in = m;
        hole_vacant = ground arith;
        spare_vacant = ground (arith, o);
        spare_off = λ w. apart (sym w);
        next_off = one.1;
        through = λ i j n q r s t.
            λ w. d.probed i j n q (λ u. r (ground (arith, u))) s (ground (arith, t, w));
        behind = λ i n q r.
            absurd
              (q (ground (arith, steps_zero self.buckets bucket i l n (omega (arith, r, one.0)))));
        before = omega (arith, one.0, one.2);
      }

  close-IsClosed : IsClosed (vacated self bucket) (close self bucket)
  unfolding close
  close-IsClosed =
      let next = after self.buckets bucket in
      let start_less : steps self.buckets next spare < self.buckets =
        steps_lt self.buckets next spare (ground (arith, l)) m in
      let done =
        close_from-IsClosed (vacated self bucket) self.buckets bucket next spare d.extent
          vacated-IsTagged vacated-IsClosing start_less in
      rw (close, after_mask d.extent bucket l) done

-- What a removal comes to: the payload, and a directory with the other entries.
pub record IsRemoved {ℓ} {P : Type ℓ} (self : Table P) (bucket : ℕ) (result : Option (Table P × P))
    : Type ℓ where
  pub table : Table P
  pub returns : result ≡ some (table, self.payloads bucket)
  pub directory : IsDirectory table
  pub same : IsSame (vacated self bucket) table
  pub counted :
      occupied_count table.buckets table.controls + 1 ≡ occupied_count self.buckets self.controls

-- In a directory with a vacant bucket, the removal of an occupied bucket ends, and yields the payload
-- that was in it; what it leaves is a directory in which probing finds every entry, with exactly the
-- other entries: a bijection of the remaining occupied buckets that keeps hashes and payloads, and one
-- occupied bucket less.
pub remove-keeps {ℓ} :
    {P : Type ℓ} (self : Table P) (bucket spare : ℕ)
    → IsDirectory self
    → bucket < self.buckets
    → spare < self.buckets
    → self.controls spare ≡ empty_control
    → self.controls bucket ≢ empty_control
    → IsRemoved self bucket (remove self bucket)
unfolding remove
remove-keeps self bucket spare d l m o p =
    let c = close-IsClosed self bucket spare d l m o p in
    record {
      table = c.table;
      returns = rw (remove, c.returns) refl;
      directory = record {
        extent = rw (c.same.buckets) d.extent;
        words = c.tagged.words;
        tags = c.tagged.tags;
        probed = c.probed;
      };
      same = c.same;
      counted =
          rw (c.same.buckets) omega
            (arith, c.counted, count-leave self.buckets self.controls bucket l p);
    }

-- Where an entry of the rest was.
pub record Was {ℓ} {P : Type ℓ} (self table : Table P) (bucket : ℕ) (to : ℕ → ℕ) (i : ℕ)
    : Type ℓ where
  pub place : ℕ
  pub inside : place < self.buckets
  pub held : self.controls place ≢ empty_control
  pub other : bucket ≢ place
  pub moved : to place ≡ i
  pub hash : table.hashes i ≡ self.hashes place
  pub payload : table.payloads i ≡ self.payloads place

module _ {ℓ} {P : Type ℓ} {self : Table P} {bucket : ℕ} {result : Option (Table P × P)}
    (r : IsRemoved self bucket result) where
  pub removed-Was :
      (i : ℕ)
      → i < r.table.buckets
      → r.table.controls i ≢ empty_control
      → Was self r.table bucket r.same.to i
  removed-Was i l o =
      let (m, p, e) = r.same.back i (omega (arith, l, r.same.buckets)) o in
      let apart : bucket ≢ r.same.from i = λ u. p (ground (arith, u)) in
      let (n, q, s, t, u) = r.same.forth (r.same.from i) m p in
      record {
        place = r.same.from i;
        inside = m;
        held = λ v. p (ground (arith, v));
        other = apart;
        moved = e;
        hash = ap r.table.hashes (sym e) ∙ s;
        payload = ap r.table.payloads (sym e) ∙ t;
      }

  pub removed-keeps :
      (j : ℕ)
      → j < self.buckets
      → self.controls j ≢ empty_control
      → bucket ≢ j
      → (i : ℕ) × (i < r.table.buckets)
        × (r.table.controls i ≢ empty_control)
        × (r.table.payloads i ≡ self.payloads j)
  removed-keeps j l o d =
      let (n, q, s, t, u) = r.same.forth j l (λ p. o (ground (arith, p, d))) in
      (r.same.to j, omega (arith, n, r.same.buckets), q, t)
