-- ===== src/Cache/Survival.antt =====
-- The replacement does not throw out what was just put.
use bxdb.Base.{ℕ, ◌≡◌, ◌≢◌, sym, ap, ◌∙◌, some, List, Option-cases, inl, inr}
use bxdb.Cache.Defs.{SharedCache, SetMetadata, find_way, oldest, target_way, set_at, put, empty_key}
use bxdb.Cache.Ways.{find_way-injective}
use bxdb.Cache.Coherence.{IsCache, cached}
use bxdb.Cache.Puts.{put-IsCache, put-same, put-way, put-keeps}
use mathlib.Core.Path.{subst}

-- The way that a set takes for a key is not that of another one, unless that is the oldest.
target_way_apart :
    (s : SetMetadata) (key q w : ℕ)
    → q ≢ key
    → q ≢ empty_key
    → find_way s.page_ids q ≡ some w
    → oldest s.timestamps ≢ w
    → target_way s key ≢ w
unfolding target_way
target_way_apart s key q w ne real at young = elim (Option-cases (find_way s.page_ids key)) [
  | inr (u, found) ↦
      rw found (λ e. ne (find_way-injective s.page_ids q key w at (found ∙ ap some e)))
  | inl new ↦ rw new (elim (Option-cases (find_way s.page_ids empty_key)) [
    | inr (u, found) ↦
        rw found (λ e. real (find_way-injective s.page_ids q empty_key w at (found ∙ ap some e)))
    | inl full_set ↦ rw full_set young
  ])
]

-- A page that was put outlives the next put of any other key: it is still a hit.
pub put-put :
    (c : SharedCache) (key q : ℕ) (page other : List ℕ)
    → IsCache c
    → key ≢ empty_key
    → q ≢ empty_key
    → q ≢ key
    → cached (put (put c key page) q other) key ≡ some page
put-put c key q page other valid real real_q ne =
    let c₁ = put c key page in
    let valid₁ = put-IsCache c key page valid real in
    let (at, young) = put-way c key page valid real in
    put-keeps c₁ q other valid₁ real_q key (target_way (set_at c key) key) (λ e. ne (sym e)) real at
      (λ same.
        target_way_apart (set_at c₁ q) q key (target_way (set_at c key) key) (λ e. ne (sym e)) real
          (ap (λ l. find_way (c₁.sets l.0 l.1).page_ids key) same ∙ at)
          (subst (λ l. oldest (c₁.sets l.0 l.1).timestamps ≢ target_way (set_at c key) key)
            (sym same) young))
    ∙ put-same c key page valid real
