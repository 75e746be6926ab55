-- ===== src/Write/Save/Fresh.antt =====
-- The records of one save behind the records of the earlier ones.
use bxdb.Base.{ℕ, ◌^◌, ◌≤◌, ◌<◌, ◌≡◌, ◌≢◌, refl, ap, ◌∙◌, arith, Option, none, some}
use bxdb.Base.{List, [], ◌∷◌, ◌++◌, All, false, ◌==◌, lt→ltb, le→not-ltb}
use bxdb.Base.{==_iff, le→leb}
use bxdb.Chunk.Key.{encode_key, encode_key_fields, pa_of, snapshot_of}
use bxdb.Chunk.Record.{ChunkRecord}
use bxdb.Log.Newest.{
  newest, later, candidate, newest-append, newest-Holds, newest-none, later-none, Holds,
}
use bxdb.Log.Sort.{All-mono}
use bxdb.Index.Sorted.{find_key}
use bxdb.Index.Find.{find_key-append_none}
use bxdb.Write.Pass.Readers.{NotIn, IsDistinct}

-- The records belong to the addresses one by one.
abbrev pub Pairs : (ℕ → ChunkRecord → Type 0) → List ℕ → List ChunkRecord → Type 0
Pairs R [] [] = Unit {0}
Pairs R (pa ∷ pas) (r ∷ rs) = R pa r × Pairs R pas rs
Pairs R _ _ = ⊥

pub All-Pairs :
    (R : ℕ → ChunkRecord → Type 0) (P : ChunkRecord → Type 0) (pas : List ℕ) (rs : List ChunkRecord)
    → ((pa : ℕ) (r : ChunkRecord) → R pa r → P r)
    → Pairs R pas rs
    → All P rs
All-Pairs R P [] [] f h = tt
All-Pairs R P [] (r ∷ rs) f h = absurd h
All-Pairs R P (pa ∷ pas) [] f h = absurd h
All-Pairs R P (pa ∷ pas) (r ∷ rs) f (h, hs) = (f pa r h, All-Pairs R P pas rs f hs)

later_above :
    (o : Option ChunkRecord) (r : ChunkRecord)
    → Holds (λ x. snapshot_of x.key < snapshot_of r.key) o
    → later o (some r) ≡ some r
unfolding later
later_above none r h = refl
later_above (some x) r h = rw (lt→ltb (snapshot_of x.key) (snapshot_of r.key) h)

later_below :
    (r : ChunkRecord) (o : Option ChunkRecord)
    → Holds (λ x. snapshot_of x.key ≤ snapshot_of r.key) o
    → later (some r) o ≡ some r
unfolding later
later_below r none h = refl
later_below r (some x) h = rw (le→not-ltb (snapshot_of r.key) (snapshot_of x.key) h)

Holds-mono :
    (P Q : ChunkRecord → Type 0) (o : Option ChunkRecord)
    → ((r : ChunkRecord) → P r → Q r)
    → Holds P o
    → Holds Q o
Holds-mono P Q none f h = tt
Holds-mono P Q (some r) f h = f r h

module _ (s : ℕ) (s_fits : s < 2 ^ 19) (R : ℕ → ChunkRecord → Type 0)
    (keys : (pa : ℕ) (r : ChunkRecord) → R pa r → r.key ≡ encode_key pa s) where
  -- The record of an address among the new ones.
  pub record IsFresh (new : List ChunkRecord) (pa : ℕ) : Type 0 where
    pub rec : ChunkRecord
    pub related : R pa rec
    pub newest_is : newest pa s new ≡ some rec
    pub found : find_key rec.key new ≡ some rec

  pub fresh_snapshot : (pa : ℕ) (r : ChunkRecord) → R pa r → snapshot_of r.key ≡ s
  fresh_snapshot pa r h = ap snapshot_of (keys pa r h) ∙ omega (arith, (encode_key_fields pa s).2)

  fresh_pa : (pa : ℕ) (r : ChunkRecord) → pa < 2 ^ 45 → R pa r → pa_of r.key ≡ pa
  fresh_pa pa r fits h = ap pa_of (keys pa r h) ∙ omega (arith, (encode_key_fields pa s).1)

  head-IsFresh :
      (pa : ℕ) (r : ChunkRecord) (rs : List ChunkRecord)
      → pa < 2 ^ 45
      → R pa r
      → All (λ x. Unit {0}) rs
      → IsFresh (r ∷ rs) pa
  unfolding newest find_key
  head-IsFresh pa r rs fits h trivial =
      let is_pa = fresh_pa pa r fits h in
      let is_s = fresh_snapshot pa r h in
      record {
        rec = r;
        related = h;
        newest_is = rw ((==_iff (pa_of r.key) pa).1 is_pa) (
            rw (le→leb (snapshot_of r.key) s (omega (arith, is_s))) (
              later_below r (newest pa s rs) (
                Holds-mono _ _ (newest pa s rs) (λ x b. omega (arith, is_s, b.1.1))
                  (newest-Holds (λ x. Unit {0}) pa s rs trivial))));
        found = rw ((==_iff r.key r.key).1 refl);
      }

  tail-IsFresh :
      (pa q : ℕ) (r : ChunkRecord) (rs : List ChunkRecord)
      → q < 2 ^ 45
      → pa < 2 ^ 45
      → q ≢ pa
      → R pa r
      → IsFresh rs q
      → IsFresh (r ∷ rs) q
  unfolding newest find_key later
  tail-IsFresh pa q r rs q_fits fits ne h f =
      let is_pa = fresh_pa pa r fits h in
      let is_q = fresh_pa q f.rec q_fits f.related in
      let other : (pa_of r.key == q) ≡ false = ground arith in
      let other_key : (r.key == f.rec.key) ≡ false =
        ground (arith, ap pa_of {x = r.key} {y = f.rec.key}) in
      record {
        rec = f.rec;
        related = f.related;
        newest_is = rw other f.newest_is;
        found = rw other_key f.found;
      }

  units : (rs : List ChunkRecord) → All (λ x. Unit {0}) rs
  units [] = tt
  units (r ∷ rs) = (tt, units rs)

  tails-IsFresh :
      (pa : ℕ) (r : ChunkRecord) (rs : List ChunkRecord) (pas : List ℕ)
      → pa < 2 ^ 45
      → R pa r
      → All (λ q. q < 2 ^ 45) pas
      → NotIn pa pas
      → All (IsFresh rs) pas
      → All (IsFresh (r ∷ rs)) pas
  tails-IsFresh pa r rs [] fits h q_fits fresh hs = tt
  tails-IsFresh pa r rs (q ∷ pas) fits h (q_fits, qs_fit) (ne, nes) (f, fs) =
      (tail-IsFresh pa q r rs q_fits fits ne h f, tails-IsFresh pa r rs pas fits h qs_fit nes fs)

  -- Each of distinct addresses has its record among the new ones: the floor query at their
  -- snapshot finds it, and so does the lookup of its key.
  pub Pairs-IsFresh :
      (pas : List ℕ) (rs : List ChunkRecord)
      → IsDistinct pas
      → All (λ q. q < 2 ^ 45) pas
      → Pairs R pas rs
      → All (IsFresh rs) pas
  Pairs-IsFresh [] rs distinct fits h = tt
  Pairs-IsFresh (pa ∷ pas) [] distinct fits h = absurd h
  Pairs-IsFresh (pa ∷ pas) (r ∷ rs) (fresh, distinct) (pa_fits, fits) (h, hs) = (
    head-IsFresh pa r rs pa_fits h (units rs),
    tails-IsFresh pa r rs pas pa_fits h fits fresh (Pairs-IsFresh pas rs distinct fits hs),
  )

  -- Behind records of earlier snapshots they are still what is found.
  pub newest-fresh :
      (old new : List ChunkRecord) (pa : ℕ)
      → All (λ x. snapshot_of x.key < s) old
      → (f : IsFresh new pa) → newest pa s (old ++ new) ≡ some f.rec
  newest-fresh old new pa earlier f =
      newest-append pa s old new
      ∙ ap (later (newest pa s old)) f.newest_is
      ∙ later_above (newest pa s old) f.rec (
          Holds-mono _ _ (newest pa s old)
            (λ x h. omega (arith, h.0, fresh_snapshot pa f.rec f.related))
            (newest-Holds (λ x. snapshot_of x.key < s) pa s old earlier))

  pub find_key-fresh :
      (old new : List ChunkRecord) (pa : ℕ)
      → All (λ x. snapshot_of x.key < s) old
      → (f : IsFresh new pa) → find_key f.rec.key (old ++ new) ≡ some f.rec
  find_key-fresh old new pa earlier f =
      find_key-append_none f.rec.key old new (
        All-mono (λ x. snapshot_of x.key < s) (λ x. x.key ≢ f.rec.key)
          (λ x h e. omega (arith, h, ap snapshot_of e, fresh_snapshot pa f.rec f.related)) old
          earlier)
      ∙ f.found

  -- A query at an earlier snapshot does not see the new records.
  pub newest-earlier :
      (old new : List ChunkRecord) (pas : List ℕ) (pa s' : ℕ)
      → Pairs R pas new
      → s' < s
      → newest pa s' (old ++ new) ≡ newest pa s' old
  newest-earlier old new pas pa s' h lt =
      newest-append pa s' old new
      ∙ ap (later (newest pa s' old)) (
          newest-none pa s' new (
            All-Pairs R (λ r. candidate pa s' r ≡ false) pas new
              (λ q r k. later_candidate r (fresh_snapshot q r k)) h))
      ∙ later-none (newest pa s' old)
    where
      later_candidate : (r : ChunkRecord) → snapshot_of r.key ≡ s → candidate pa s' r ≡ false
      later_candidate r e = ground arith

  -- Nor does a query of an address that was not saved.
  pub newest-untouched :
      (old new : List ChunkRecord) (pas : List ℕ) (pa s' : ℕ)
      → All (λ q. q < 2 ^ 45) pas
      → Pairs R pas new
      → NotIn pa pas
      → newest pa s' (old ++ new) ≡ newest pa s' old
  newest-untouched old new pas pa s' fits h absent =
      newest-append pa s' old new
      ∙ ap (later (newest pa s' old)) (newest-none pa s' new (others pas new fits h absent))
      ∙ later-none (newest pa s' old)
    where
      others :
          (pas : List ℕ) (new : List ChunkRecord)
          → All (λ q. q < 2 ^ 45) pas
          → Pairs R pas new
          → NotIn pa pas
          → All (λ r. candidate pa s' r ≡ false) new
      others [] [] fits h absent = tt
      others [] (r ∷ rs) fits h absent = absurd h
      others (q ∷ pas) [] fits h absent = absurd h
      others (q ∷ pas) (r ∷ rs) (q_fits, fits) (h, hs) (ne, absent) =
          let is_q = fresh_pa q r q_fits h in (ground arith, others pas rs fits hs absent)
