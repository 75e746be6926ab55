-- ===== src/Write/Shadow.antt =====
-- `Shadow`: the last full page of each address, in 2048 shards.
use bxdb.Base.{
  ℕ, ◌-◌, ◌*◌, ◌%◌, ◌^◌, ◌≡◌, ◌≢◌, ◌<◌, ◌≤◌, refl, arith, Option, none, some, List, Bool, true,
}
use bxdb.Base.{◌⊎◌, inl, inr, Bool-cases, ==_iff, ◌∙◌, ◌&&◌, bit_and, ltb, ◌==◌, if◌then◌else◌}

-- The key of the base record, and its page.
abbrev pub ShadowEntry : Type 0
ShadowEntry = ℕ × List ℕ

-- Each shard is a map from addresses.
pub record Shadow : Type 0 where
  pub shards : ℕ → ℕ → Option ShadowEntry

abbrev pub shadow_shards : ℕ
shadow_shards = 2048

abbrev pub fib_mul : ℕ
fib_mul = 0x9e37_79b9_7f4a_7c15

unfoldable pub new_shadow : Shadow
new_shadow = record { shards = λ shard pa. none }

-- `pa.wrapping_mul(FIB_MUL) & SHADOW_SHARDS_MASK`
unfoldable pub shard : ℕ → ℕ
shard pa = bit_and (pa * fib_mul % 2 ^ 64) (shadow_shards - 1)

unfoldable pub get : Shadow → ℕ → Option ShadowEntry
get shadow pa = shadow.shards (shard pa) pa

abbrev pub install : Option ShadowEntry → ℕ → Bool
install none key = true
install (some (k, page)) key = ltb k key

-- `w.insert(pa, (key, page))` in the shard of `pa`
abbrev insert_at : Shadow → ℕ → ShadowEntry → Shadow
insert_at shadow pa entry = record {
  shards = λ j q. if j == shard pa && q == pa then some entry else shadow.shards j q;
}

unfoldable pub insert_if_newer : Shadow → ℕ → ℕ → List ℕ → Shadow
insert_if_newer shadow pa key page =
    if install (get shadow pa) key then insert_at shadow pa (key, page) else shadow

installed :
    (shadow : Shadow) (pa key q : ℕ) (page : List ℕ)
    → get (insert_if_newer shadow pa key page) q
      ≡ (if q == pa && install (get shadow pa) key then some (key, page) else get shadow q)
unfolding get insert_if_newer
installed shadow pa key q page = ground arith

-- What a page under `key` leaves of an entry: a lower key gives way, any other stays.
abbrev pub IsUpdated : ℕ → List ℕ → Option ShadowEntry → Option ShadowEntry → Type 0
IsUpdated key page none after = after ≡ some (key, page)
IsUpdated key page (some (old, old_page)) after =
    (old < key) × (after ≡ some (key, page)) ⊎ (key ≤ old) × (after ≡ some (old, old_page))

update-IsUpdated :
    (entry : Option ShadowEntry) (key : ℕ) (page : List ℕ)
    → IsUpdated key page entry (if install entry key then some (key, page) else entry)
update-IsUpdated none key page = refl
update-IsUpdated (some (old, old_page)) key page = elim (Bool-cases (ltb old key)) [
  | inl e ↦ inl (ground arith, rw e)
  | inr e ↦ inr (ground arith, rw e)
]

-- What is looked up behind an insertion: at any other address what was there, and at the address
-- itself the new page where there was none, the new page where the old key is lower than the new
-- one, and the old entry where the old key is the new one or greater.
pub get-insert_if_newer :
    (shadow : Shadow) (pa key q : ℕ) (page : List ℕ)
    → (q ≢ pa) × (get (insert_if_newer shadow pa key page) q ≡ get shadow q)
      ⊎ (q ≡ pa) × IsUpdated key page (get shadow pa) (get (insert_if_newer shadow pa key page) q)
get-insert_if_newer shadow pa key q page = elim (Bool-cases (q == pa)) [
  | inl e ↦ inr ((==_iff q pa).0 e, rw (at e) (update-IsUpdated (get shadow pa) key page))
  | inr e ↦ inl ((λ same. ground arith), installed shadow pa key q page ∙ rw e)
]
  where
    at :
        (q == pa) ≡ true
        → get (insert_if_newer shadow pa key page) q
          ≡ (if install (get shadow pa) key then some (key, page) else get shadow pa)
    at e = installed shadow pa key q page ∙ rw e (rw ((==_iff q pa).0 e))

pub get-new_shadow : (pa : ℕ) → get new_shadow pa ≡ none
unfolding get new_shadow
get-new_shadow pa = refl

-- An insertion leaves an entry as it was, or puts the new page under the address.
pub get-insert_cases :
    (shadow : Shadow) (pa key q : ℕ) (page : List ℕ)
    → (get (insert_if_newer shadow pa key page) q ≡ get shadow q)
      ⊎ (get (insert_if_newer shadow pa key page) q ≡ some (key, page)) × (q ≡ pa)
get-insert_cases shadow pa key q page = elim (Bool-cases (q == pa && install (get shadow pa) key)) [
  | inl e ↦ inr (installed shadow pa key q page ∙ rw e, (==_iff q pa).0 (ground arith))
  | inr e ↦ inl (installed shadow pa key q page ∙ rw e)
]
