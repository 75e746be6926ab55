-- ===== src/Cache/Puts.antt =====
-- What can be read from the cache after a `put`.
use bxdb.Base.{ℕ, ◌<◌, ◌≡◌, ◌≢◌, refl, sym, ap, ◌∙◌, arith, Option, none, some, List, ◌⊎◌, inl, inr}
use bxdb.Base.{Bool-cases, Option-cases, eq_cases, ◌==◌, ==_iff, ==-refl, set}
use bxdb.Cache.Defs.{
  SharedCache, SetMetadata, locate, find_way, update_lru, oldest, target_way, with_set, set_at,
  slot_at, store_page, put, empty_key,
}
use bxdb.Cache.Ways.{
  find_way-lt, set-found, find_way-set_new, find_way-set_other, find_way-set_keep, Once,
  Once-set_other, Once-set_new, length-set,
}
use bxdb.Cache.Slots.{slot_of-injective}
use bxdb.Cache.Lru.{oldest-lt, oldest-update_lru}
use mathlib.Core.Path.{subst}
use bxdb.Cache.Coherence.{
  IsValidSet, IsCache, page_of, cached, with_set_self, set_cases, with_set-IsCache,
  update_lru-IsValidSet,
}

target_way_cases :
    (s : SetMetadata) (key : ℕ)
    → (find_way s.page_ids key ≡ some (target_way s key)) ⊎ (find_way s.page_ids key ≡ none)
unfolding target_way
target_way_cases s key = elim (Option-cases (find_way s.page_ids key)) [
  | inl none_way ↦ inr none_way
  | inr (w, found) ↦ inl (found ∙ rw found)
]

pub target_way-lt : (s : SetMetadata) (key : ℕ) → IsValidSet s → target_way s key < 16
unfolding target_way
target_way-lt s key h = elim (Option-cases (find_way s.page_ids key)) [
  | inr (w, found) ↦ rw found (omega (arith, find_way-lt s.page_ids key w found, h.ids_length))
  | inl none_way ↦ rw none_way (elim (Option-cases (find_way s.page_ids empty_key)) [
    | inr (w, found) ↦
        rw found (omega (arith, find_way-lt s.page_ids empty_key w found, h.ids_length))
    | inl full_set ↦ rw full_set (
        omega
          (arith, oldest-lt s.timestamps (omega (arith, h.timestamps_length)), h.timestamps_length))
  ])
]

module _ (c : SharedCache) (key : ℕ) (page : List ℕ) (valid : IsCache c)
    (real : key ≢ empty_key) where
  abbrev s : SetMetadata
  s = set_at c key

  abbrev way : ℕ
  way = target_way s key

  abbrev written : SetMetadata
  written = record s { page_ids = set s.page_ids way key }

  way-lt : way < 16
  way-lt = target_way-lt s key (valid (locate key).0 (locate key).1)

  found : find_way written.page_ids key ≡ some way
  found = elim (target_way_cases s key) [
    | inl old ↦ ap (λ ids. find_way ids key) (set-found s.page_ids key way old) ∙ old
    | inr new ↦
        find_way-set_new s.page_ids key way new
          (omega (arith, way-lt, (valid (locate key).0 (locate key).1).ids_length))
  ]

  written-IsValidSet : IsValidSet written
  written-IsValidSet =
      let h = valid (locate key).0 (locate key).1 in
      record {
        ids_length = length-set s.page_ids way key ∙ h.ids_length;
        timestamps_length = h.timestamps_length;
        timestamps_fit = h.timestamps_fit;
        once = λ q ne. elim (eq_cases q key) [
          | inr other ↦ Once-set_other s.page_ids key q way other (h.once q ne)
          | inl same ↦
              subst (λ k. Once k written.page_ids) (sym same)
                (elim (target_way_cases s key) [
                  | inl old ↦
                      subst (Once key) (sym (set-found s.page_ids key way old)) (h.once key real)
                  | inr new ↦ Once-set_new s.page_ids key way new
                ])
        ];
      }

  after : SharedCache
  after = store_page c key page way

  put_real : put c key page ≡ after
  unfolding put after
  put_real = elim (Bool-cases (key == empty_key)) [
    | inl e ↦ absurd (real ((==_iff key empty_key).0 e))
    | inr e ↦ rw e
  ]

  -- A `put` keeps the sets in order.
  pub put-IsCache : IsCache (put c key page)
  put-IsCache = subst IsCache (sym put_real) (
      unfold after in
      with_set-IsCache c (locate key).0 (locate key).1 (update_lru written way) valid
        (update_lru-IsValidSet written way written-IsValidSet))

  cached_real :
      (c : SharedCache) (q : ℕ)
      → q ≢ empty_key
      → cached c q ≡ page_of c q (find_way (set_at c q).page_ids q)
  unfolding cached
  cached_real c q ne = elim (Bool-cases (q == empty_key)) [
    | inl e ↦ absurd (ne ((==_iff q empty_key).0 e))
    | inr e ↦ rw e
  ]

  ids_here : (q : ℕ) → locate q ≡ locate key → (set_at after q).page_ids ≡ written.page_ids
  unfolding after update_lru
  ids_here q e =
      ap (λ l. (with_set c (locate key).0 (locate key).1 (update_lru written way) l.0 l.1).page_ids)
        e
      ∙ ap (λ s. s.page_ids)
          (with_set_self c (locate key).0 (locate key).1 (update_lru written way))

  -- A page that was put is what the key has.
  pub put-same : cached (put c key page) key ≡ some page
  put-same =
      ap (λ c'. cached c' key) put_real
      ∙ cached_real after key real
      ∙ ap (page_of after key) (ap (λ ids. find_way ids key) (ids_here key refl) ∙ found)
      ∙ (unfold after in ap some (rw (==-refl (slot_at key way))))

  page_elsewhere :
      (q v : ℕ) → (slot_at q v ≢ slot_at key way) → page_of after q (some v) ≡ page_of c q (some v)
  unfolding after
  page_elsewhere q v ne = elim (Bool-cases (slot_at q v == slot_at key way)) [
    | inl e ↦ absurd (ne ((==_iff (slot_at q v) (slot_at key way)).0 e))
    | inr e ↦ rw e
  ]

  slot_apart :
      (q v : ℕ) → v < 16 → ((locate key ≡ locate q) → way ≢ v) → slot_at q v ≢ slot_at key way
  slot_apart q v lt h e = let (l, w) = (slot_of-injective key q way v way-lt lt).1 (sym e) in h l w

  -- Another key has what it had, or nothing: its page may have been the one to go.
  pub put-other :
      (q : ℕ)
      → q ≢ key
      → (cached (put c key page) q ≡ cached c q) ⊎ (cached (put c key page) q ≡ none)
  put-other q ne = elim (eq_cases q empty_key) [
    | inl e ↦ inl (unfold cached in rw ((==_iff q empty_key).1 e))
    | inr real_q ↦
        let now = ap (λ c'. cached c' q) put_real ∙ cached_real after q real_q in
        elim (set_cases key q) [
          | inr (apart, kept) ↦
              let ids : (set_at after q).page_ids ≡ (set_at c q).page_ids =
                unfold after in ap (λ s. s.page_ids) (kept c (update_lru written way)) in
              inl (
                now
                ∙ ap (λ ids. page_of after q (find_way ids q)) ids
                ∙ untouched q apart (find_way (set_at c q).page_ids q) refl
                ∙ sym (cached_real c q real_q))
          | inl same ↦
              let now' = now ∙ ap (λ ids. page_of after q (find_way ids q)) (ids_here q same) in
              elim (Option-cases (find_way written.page_ids q)) [
                | inl gone ↦ inr (now' ∙ ap (page_of after q) gone)
                | inr (v, at) ↦
                    let once = (valid (locate key).0 (locate key).1).once q real_q in
                    let (old, apart) = find_way-set_other s.page_ids key q way v ne once at in
                    let old' : find_way (set_at c q).page_ids q ≡ some v =
                      ap (λ l. find_way (c.sets l.0 l.1).page_ids q) same ∙ old in
                    let lt : v < 16 = omega (
                      arith,
                      find_way-lt s.page_ids q v old,
                      (valid (locate key).0 (locate key).1).ids_length,
                    ) in
                    inl (
                      now'
                      ∙ ap (page_of after q) at
                      ∙ page_elsewhere q v (slot_apart q v lt (λ l e. apart (sym e)))
                      ∙ ap (page_of c q) (sym old')
                      ∙ sym (cached_real c q real_q))
              ]
        ]
  ]
    where
      untouched :
          (q : ℕ)
          → locate q ≢ locate key
          → (o : Option ℕ) → find_way (set_at c q).page_ids q ≡ o
          → page_of after q o ≡ page_of c q o
      untouched q apart none e = refl
      untouched q apart (some v) e = page_elsewhere q v (
          slot_apart q v
            (omega (
              arith,
              find_way-lt (set_at c q).page_ids q v e,
              (valid (locate q).0 (locate q).1).ids_length,
            ))
            (λ l. absurd (apart (sym l))))

  -- The way that a put key is found in, in a set that has just stamped it.
  pub put-way :
      (find_way (set_at (put c key page) key).page_ids key ≡ some way)
      × (oldest (set_at (put c key page) key).timestamps ≢ way)
  put-way =
      let h = valid (locate key).0 (locate key).1 in
      let here : set_at after key ≡ update_lru written way =
        unfold after in with_set_self c (locate key).0 (locate key).1 (update_lru written way) in
      (
        ap (λ c'. find_way (set_at c' key).page_ids key) put_real
            ∙ ap (λ ids. find_way ids key) (ids_here key refl)
            ∙ found,
        subst (λ s'. oldest s'.timestamps ≢ way) (sym (ap (λ c'. set_at c' key) put_real ∙ here))
            (oldest-update_lru written way h.timestamps_fit
              (omega (arith, way-lt, h.timestamps_length)) (omega (arith, h.timestamps_length))),
      )

  -- A key in a way that is not written keeps its page.
  pub put-keeps :
      (q v : ℕ)
      → q ≢ key
      → q ≢ empty_key
      → find_way (set_at c q).page_ids q ≡ some v
      → (locate key ≡ locate q → way ≢ v)
      → cached (put c key page) q ≡ cached c q
  put-keeps q v ne real_q at apart =
      let lt : v < 16 = omega (
        arith,
        find_way-lt (set_at c q).page_ids q v at,
        (valid (locate q).0 (locate q).1).ids_length,
      ) in
      let still : find_way (set_at after q).page_ids q ≡ some v = elim (set_cases key q) [
        | inr (l, kept) ↦
            let ids : (set_at after q).page_ids ≡ (set_at c q).page_ids =
              unfold after in ap (λ s. s.page_ids) (kept c (update_lru written way)) in
            ap (λ ids. find_way ids q) ids ∙ at
        | inl same ↦
            ap (λ ids. find_way ids q) (ids_here q same)
            ∙ find_way-set_keep s.page_ids key q way v ne (λ e. apart (sym same) (sym e))
                (ap (λ l. find_way (c.sets l.0 l.1).page_ids q) (sym same) ∙ at)
      ] in
      ap (λ c'. cached c' q) put_real
      ∙ cached_real after q real_q
      ∙ ap (page_of after q) still
      ∙ page_elsewhere q v (slot_apart q v lt apart)
      ∙ ap (page_of c q) (sym at)
      ∙ sym (cached_real c q real_q)
