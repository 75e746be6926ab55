-- ===== src/Cache/Identity/Opens.antt =====
-- Which paths open a cache file after it was created for one of them.
use bxdb.Base.{
  ℕ, zero, suc, ◌<◌, ◌≤◌, ◌≡◌, ◌≢◌, refl, sym, ap, ap₂, ◌∙◌, some, List, [], ◌∷◌, length, All,
  arith,
}
use bxdb.Base.{true, false, Bool-cases, ltb, ◌==◌, ◌&&◌, replicate}
use bxdb.Base.{ok, err, guard, ◌>>◌, cache_identity}
use bxdb.Base.{==_iff, ==-refl, eq_cases, inl, inr, ◌⊎◌, length-replicate}
use bxdb.Format.{bytes_eq}
use mathlib.Core.Path.{subst}
use bxdb.Cache.Defs.{SharedCache}
use bxdb.Cache.Identity.{
  CacheFile, cache_magic, path_max, total_bytes, create, open_cache, copy_path, identity_path,
  verify_identity, init_cache,
}

bytes_eq_refl : (bs : List ℕ) → bytes_eq bs bs ≡ true
bytes_eq_refl [] = refl
bytes_eq_refl (b ∷ bs) = rw (==-refl b, bytes_eq_refl bs)

pub bytes_eq→eq : (as' bs : List ℕ) → bytes_eq as' bs ≡ true → as' ≡ bs
bytes_eq→eq [] [] h = refl
bytes_eq→eq [] (b ∷ bs) h = cc
bytes_eq→eq (a ∷ as') [] h = cc
bytes_eq→eq (a ∷ as') (b ∷ bs) h = elim (eq_cases a b) [
  | inl e ↦
      let rest : bytes_eq as' bs ≡ true =
        subst (λ t. (t && bytes_eq as' bs) ≡ true) ((==_iff a b).1 e) h in
      ap₂ (λ x xs. x ∷ xs) e (bytes_eq→eq as' bs rest)
  | inr ne ↦ ground arith
]

bytes_neq : (as' bs : List ℕ) → bs ≢ as' → bytes_eq as' bs ≡ false
bytes_neq as' bs ne = elim (Bool-cases (bytes_eq as' bs)) [
  | inl e ↦ absurd (ne (sym (bytes_eq→eq as' bs e)))
  | inr e ↦ e
]

pub length-identity_path : (room : ℕ) (bytes : List ℕ) → length (identity_path room bytes) ≤ room
unfolding identity_path
length-identity_path zero bytes = omega arith
length-identity_path (suc room) [] = omega arith
length-identity_path (suc room) (b ∷ bytes) = elim (Bool-cases (b == 0)) [
  | inl e ↦ rw e (omega arith)
  | inr e ↦ rw e (omega (arith, length-identity_path room bytes))
]

-- A path without zeros that there is room for is read back.
identity_path-copy_path :
    (room : ℕ) (path old : List ℕ)
    → length path ≤ room
    → length old ≡ room
    → All (λ b. b ≢ 0) path
    → identity_path room (copy_path room path old) ≡ path
unfolding identity_path copy_path
identity_path-copy_path zero [] old h e nz = refl
identity_path-copy_path zero (a ∷ path) old h e nz = absurd (omega arith)
identity_path-copy_path (suc room) path [] h e nz = absurd (omega arith)
identity_path-copy_path (suc room) [] (b ∷ old) h e nz = refl
identity_path-copy_path (suc room) (a ∷ path) (b ∷ old) h e (real, nz) =
    let nonzero : (a == 0) ≡ false = ground arith in
    rw (nonzero, identity_path-copy_path room path old (omega arith) (omega arith) nz)

-- What a `create` leaves: the file as it was, with the identity, or a new cache.
record IsCreated (file : CacheFile) (identity : List ℕ) (made : CacheFile) : Type 0 where
  pub created : create (ok tt) file identity ≡ ok made
  pub sized : total_bytes ≤ made.size
  pub named : made.magic ≡ cache_magic
  pub state :
      (made ≡ file) × (identity_path path_max made.path ≡ identity)
      ⊎ (made.cache ≡ init_cache file.cache.pages)
        × (made.path ≡ copy_path path_max identity (replicate 952 0))

abbrev fresh : CacheFile → ℕ → List ℕ → CacheFile
fresh file size identity = record {
  size = size;
  magic = cache_magic;
  path = copy_path path_max identity (replicate 952 0);
  cache = init_cache file.cache.pages;
}

create-IsCreated :
    (file : CacheFile) (identity : List ℕ) → (made : CacheFile) × IsCreated file identity made
unfolding create verify_identity
create-IsCreated file identity = elim (Bool-cases (ltb file.size total_bytes)) [
  | inl e ↦ (
    fresh file total_bytes identity,
    record { created = rw e refl; sized = omega arith; named = refl; state = inr (refl, refl) },
  )
  | inr e ↦ elim (Bool-cases (file.magic == cache_magic)) [
    | inr m ↦ (
      fresh file file.size identity,
      record {
        created = rw (e, m) refl;
        sized = ground arith;
        named = refl;
        state = inr (refl, refl);
      },
    )
    | inl m ↦ elim (Bool-cases (bytes_eq (identity_path path_max file.path) identity)) [
      | inr p ↦ (
        fresh file file.size identity,
        record {
          created = rw (e, m, p) refl;
          sized = ground arith;
          named = refl;
          state = inr (refl, refl);
        },
      )
      | inl p ↦ (
        file,
        record {
          created = rw (e, m, p) refl;
          sized = ground arith;
          named = (==_iff file.magic cache_magic).0 m;
          state = inl (refl, bytes_eq→eq (identity_path path_max file.path) identity p);
        },
      )
    ]
  ]
]

path-IsCreated :
    (file : CacheFile) (identity : List ℕ) (made : CacheFile)
    → IsCreated file identity made
    → length identity ≤ path_max
    → All (λ b. b ≢ 0) identity
    → identity_path path_max made.path ≡ identity
path-IsCreated file identity made h fits real = elim h.state [
  | inl (same, p) ↦ p
  | inr (c, p) ↦
      ap (identity_path path_max) p
      ∙ identity_path-copy_path path_max identity (replicate 952 0) fits
          (length-replicate {A = ℕ} 952 0) real
]

open_cache_sized :
    (file : CacheFile) (expected : List ℕ)
    → total_bytes ≤ file.size
    → file.magic ≡ cache_magic
    → open_cache (some file) expected ≡ (
        guard (bytes_eq (identity_path path_max file.path) expected) cache_identity
        >> ok file.cache)
unfolding open_cache verify_identity
open_cache_sized file expected sized named =
    let big : ltb file.size total_bytes ≡ false = ground arith in
    let magic : (file.magic == cache_magic) ≡ true = (==_iff file.magic cache_magic).1 named in
    rw (big, magic) refl

-- After a `create` for a path of at most 952 bytes, none of them zero, the cache opens with the
-- path, and it is the old cache of the file or an empty one; with any other path it is refused.
pub open_cache-create :
    (file : CacheFile) (identity : List ℕ)
    → length identity ≤ path_max
    → All (λ b. b ≢ 0) identity
    → (made : CacheFile) × (create (ok tt) file identity ≡ ok made)
      × (open_cache (some made) identity ≡ ok made.cache)
      × ((made.cache ≡ file.cache) ⊎ (made.cache ≡ init_cache file.cache.pages))
      × ((other : List ℕ) → other ≢ identity → open_cache (some made) other ≡ err cache_identity)
open_cache-create file identity fits real =
    let (made, h) = create-IsCreated file identity in
    let stored : identity_path path_max made.path ≡ identity =
      path-IsCreated file identity made h fits real in
    (
      made,
      h.created,
      open_cache_sized made identity h.sized h.named
          ∙ ap (λ p. guard (bytes_eq p identity) cache_identity >> ok made.cache) stored
          ∙ ap (λ t. guard t cache_identity >> ok made.cache) (bytes_eq_refl identity),
      elim h.state [ inl (same, p) ↦ inl (ap (λ f. f.cache) same) | inr (c, p) ↦ inr c ],
      λ other ne.
          open_cache_sized made other h.sized h.named
          ∙ ap (λ p. guard (bytes_eq p other) cache_identity >> ok made.cache) stored
          ∙ ap (λ t. guard t cache_identity >> ok made.cache) (bytes_neq identity other ne),
    )

open_cache-refused :
    (file : CacheFile) (identity : List ℕ)
    → path_max < length identity
    → (cache : SharedCache) → open_cache (some file) identity ≢ ok cache
unfolding open_cache verify_identity
open_cache-refused file identity long cache = elim (Bool-cases (ltb file.size total_bytes)) [
  | inl e ↦ rw e (λ h. cc)
  | inr e ↦ elim (Bool-cases (file.magic == cache_magic)) [
    | inr m ↦ rw (e, m) (λ h. cc)
    | inl m ↦ elim (Bool-cases (bytes_eq (identity_path path_max file.path) identity)) [
      | inr p ↦ rw (e, m, p) (λ h. cc)
      | inl p ↦
          let same = bytes_eq→eq (identity_path path_max file.path) identity p in
          absurd (omega (arith, long, ap length same, length-identity_path path_max file.path))
    ]
  ]
]

-- A path of more than 952 bytes never opens a cache, whatever the file holds, although a `create`
-- for it returns.
pub open_cache_long :
    (file : CacheFile) (identity : List ℕ)
    → path_max < length identity
    → ((made : CacheFile) × (create (ok tt) file identity ≡ ok made))
      × ((cache : SharedCache) → open_cache (some file) identity ≢ ok cache)
open_cache_long file identity long =
    let (made, h) = create-IsCreated file identity in
    ((made, h.created), open_cache-refused file identity long)
