-- ===== src/Cache/Identity.antt =====
-- The creation of a cache file, and the identity by which a reader knows that it is the cache of
-- its database.
pub mod Opens
use bxdb.Base.{
  ℕ, zero, suc, ◌+◌, ◌*◌, ◌<◌, ◌≤◌, ◌≡◌, ◌≢◌, refl, sym, ap, ap₂, ◌∙◌, Option, none, some, List, [],
  ◌∷◌, length, All, arith,
}
use bxdb.Base.{Bool, true, false, Bool-cases, ltb, ◌==◌, ◌&&◌, ◌||◌, not, if◌then◌else◌, replicate}
use bxdb.Base.{
  Result, ok, err, panic, guard, ◌>>=◌, ◌>>◌, cache_missing, cache_not_initialised, cache_bad_magic,
  cache_identity,
}
use bxdb.Base.{==_iff, ==-refl, eq_cases, inl, inr, ◌⊎◌, length-replicate}
use bxdb.Format.{bytes_eq}
use mathlib.Core.Path.{subst}
use bxdb.Cache.Defs.{SharedCache, SetMetadata, metadata_pages, total_slots, empty_key}

abbrev pub cache_magic : ℕ
cache_magic = 0x4d48_535f_5844_4242

abbrev pub path_max : ℕ
path_max = 952

abbrev pub total_bytes : ℕ
total_bytes = metadata_pages * 4096 + total_slots * 4096

-- A cache file: its length, the word and the 952 bytes of the identity region, and the rest.
pub record CacheFile : Type 0 where
  pub size : ℕ
  pub magic : ℕ
  pub path : List ℕ
  pub cache : SharedCache

-- Copies as much of the path as there is room for, and a zero behind it if there is room for that.
unfoldable pub copy_path : ℕ → List ℕ → List ℕ → List ℕ
copy_path zero path old = old
copy_path (suc room) path [] = []
copy_path (suc room) [] (b ∷ old) = 0 ∷ old
copy_path (suc room) (a ∷ path) (b ∷ old) = a ∷ copy_path room path old

-- The bytes up to a zero, at most as many as there is room for.
unfoldable pub identity_path : ℕ → List ℕ → List ℕ
identity_path zero bytes = []
identity_path (suc room) [] = []
identity_path (suc room) (b ∷ bytes) = if b == 0 then [] else b ∷ identity_path room bytes

abbrev pub write_identity : CacheFile → List ℕ → CacheFile
write_identity file identity = record file {
  magic = cache_magic;
  path = copy_path path_max identity file.path;
}

unfoldable pub verify_identity : CacheFile → List ℕ → Result (Unit {0})
verify_identity file expected = do
  guard (file.magic == cache_magic) cache_bad_magic
  guard (bytes_eq (identity_path path_max file.path) expected) cache_identity

-- `init_metadata`: every way is empty; the pages of the slots are what the file has.
abbrev pub init_cache : (ℕ → List ℕ) → SharedCache
init_cache pages = record {
  sets = λ m i. record { page_ids = replicate 16 empty_key; timestamps = replicate 16 0 };
  pages = pages;
}

-- `mutexes` is the outcome of the calls of pthread.
abbrev pub init_metadata : Result (Unit {0}) → CacheFile → List ℕ → Result CacheFile
init_metadata mutexes file identity = do
  mutexes
  ok (
      write_identity
        (record file { magic = 0; path = replicate 952 0; cache = init_cache file.cache.pages })
        identity)

abbrev pub is_err {ℓ} : {A : Type ℓ} → Result A → Bool
is_err panic = false
is_err (err e) = true
is_err (ok a) = false

unfoldable pub create : Result (Unit {0}) → CacheFile → List ℕ → Result CacheFile
create mutexes file identity =
    let needs_init = ltb file.size total_bytes in
    let sized = record file { size = (if needs_init then total_bytes else file.size) } in
    if needs_init || is_err (verify_identity sized identity)
    then init_metadata mutexes sized identity
    else ok sized

unfoldable pub open_cache : Option CacheFile → List ℕ → Result SharedCache
open_cache none identity = err cache_missing
open_cache (some file) identity = do
  guard (not (ltb file.size total_bytes)) cache_not_initialised
  verify_identity file identity
  ok file.cache
