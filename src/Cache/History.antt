-- ===== src/Cache/History.antt =====
-- Runs of the cache: processes call `get` and `put` in any order, each call under the lock of its
-- metadata page, so that a run is a sequence of calls.
use bxdb.Base.{
  ℕ, zero, suc, ◌≤◌, ◌≡◌, ◌≢◌, refl, sym, ◌∙◌, ap, Option, none, some, List, inl, inr, replicate,
  arith, All,
}
use bxdb.Base.{◌==◌, ==_iff, if◌then◌else◌, Bool-cases, false}
use bxdb.Cache.Defs.{SharedCache, get, put, empty_key, find_way}
use bxdb.Cache.Identity.{init_cache}
use bxdb.Cache.Hits.{cached-put, put-keeps_IsCache}
use bxdb.Cache.Ways.{Once}
use bxdb.Cache.Coherence.{IsCache, cached, get-cached, get-keeps}

-- The page that was last put under each key.
abbrev pub History : Type 0
History = ℕ → Option (List ℕ)

abbrev pub note : History → ℕ → List ℕ → History
note h key page q = if q == key then some page else h q

pub data Reach (pages : ℕ → List ℕ) : SharedCache → History → Type 0 where
  start : Reach pages (init_cache pages) (λ q. none)
  did_get :
      {c : SharedCache} {h : History} → Reach pages c h → (key : ℕ) → Reach pages (get c key).1 h
  did_put :
      {c : SharedCache} {h : History}
      → Reach pages c h
      → (key : ℕ) (page : List ℕ) → Reach pages (put c key page) (note h key page)

pub record IsFaithful (c : SharedCache) (h : History) : Type 0 where
  pub sets_valid : IsCache c
  pub hits : (q : ℕ) (page : List ℕ) → (get c q).0 ≡ some page → h q ≡ some page

replicate-Once : (n q : ℕ) → q ≢ empty_key → Once q (replicate n empty_key)
replicate-Once zero q h = tt
replicate-Once (suc n) q h = (λ e. absurd (h (sym e)), replicate-Once n q h)

no_way : (n q : ℕ) → q ≢ empty_key → find_way (replicate n empty_key) q ≡ none
unfolding find_way
no_way zero q h = refl
no_way (suc n) q h = elim (Bool-cases (empty_key == q)) [
  | inl e ↦ absurd (h (sym ((==_iff empty_key q).0 e)))
  | inr e ↦ rw (e, no_way n q h)
]

cached-init_cache : (pages : ℕ → List ℕ) (q : ℕ) → cached (init_cache pages) q ≡ none
unfolding cached
cached-init_cache pages q = elim (Bool-cases (q == empty_key)) [
  | inl e ↦ rw e
  | inr e ↦ rw (e, no_way 16 q (λ same. ground arith))
]

zeros-fit : (n : ℕ) → All (λ t. t ≤ 255) (replicate n 0)
zeros-fit zero = tt
zeros-fit (suc n) = (omega arith, zeros-fit n)

pub init_cache-IsFaithful : (pages : ℕ → List ℕ) → IsFaithful (init_cache pages) (λ q. none)
init_cache-IsFaithful pages = record {
  sets_valid = λ m i. record {
    ids_length = refl;
    timestamps_length = refl;
    timestamps_fit = zeros-fit 16;
    once = λ q h. replicate-Once 16 q h;
  };
  hits = λ q page h. cc (cached-init_cache pages q, get-cached (init_cache pages) q);
}

get-IsFaithful :
    (c : SharedCache) (h : History) (key : ℕ) → IsFaithful c h → IsFaithful (get c key).1 h
get-IsFaithful c h key f = record {
  sets_valid = (get-keeps c key key f.sets_valid).0;
  hits = λ q page e. f.hits q page (
      get-cached c q
      ∙ sym (get-keeps c key q f.sets_valid).1
      ∙ sym (get-cached (get c key).1 q)
      ∙ e);
}

put-IsFaithful :
    (c : SharedCache) (h : History) (key : ℕ) (page : List ℕ)
    → IsFaithful c h
    → IsFaithful (put c key page) (note h key page)
put-IsFaithful c h key page f = record {
  sets_valid = put-keeps_IsCache c key page f.sets_valid;
  hits = λ q p at.
      elim (cached-put c key q page p f.sets_valid (sym (get-cached (put c key page) q) ∙ at)) [
        | inl (here, same) ↦ rw ((==_iff q key).1 here) (ap some (sym same))
        | inr (there, before) ↦ rw (note_other q there) (f.hits q p (get-cached c q ∙ before))
      ];
}
  where
    note_other : (q : ℕ) → q ≢ key → (q == key) ≡ false
    note_other q ne = ground arith

-- In every run of `get` and `put` from an empty cache, whatever the slots' pages are at the start,
-- the sets stay in order, and the page that a next `get` answers with is the one last put under
-- its key.
pub Reach-IsFaithful :
    (pages : ℕ → List ℕ) (c : SharedCache) (h : History) → Reach pages c h → IsFaithful c h
Reach-IsFaithful pages _ _ start = init_cache-IsFaithful pages
Reach-IsFaithful pages _ _ (did_get {c = c} {h = h} r key) =
    get-IsFaithful c h key (Reach-IsFaithful pages c h r)
Reach-IsFaithful pages _ _ (did_put {c = c} {h = h} r key page) =
    put-IsFaithful c h key page (Reach-IsFaithful pages c h r)
