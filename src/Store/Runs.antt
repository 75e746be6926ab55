-- ===== src/Store/Runs.antt =====
-- The runs of pages that the workers of a bulk load take, and the join of the workers
-- (bxdb-core/src/append_only.rs).
use bxdb.Base.{
  ℕ, zero, suc, ◌+◌, ◌-◌, ◌*◌, ◌/◌, ◌≤◌, ◌<◌, ◌≡◌, refl, sym, ap, ◌∙◌, arith, min, List, [], ◌∷◌,
  ◌++◌, map, inl, inr,
}
use bxdb.Base.{
  Bool, true, false, Bool-cases, leb, ◌||◌, if◌then◌else◌, Result, ok, err, panic, ◌>>=◌,
  worker_panicked,
}
use native.Mathlib.Nat.{mul_comm, suc-mul, mod-lt, mod-add-div'}

-- The loop `for _ in 0..worker_count` that cuts the output, with the workers that are left: the
-- first page of each run, and how many pages it has.
unfoldable pub split_runs : ℕ → ℕ → ℕ → ℕ → List (ℕ × ℕ)
split_runs zero pages_per_worker cursor total = []
split_runs (suc workers) pages_per_worker cursor total =
    let take = min pages_per_worker (total - cursor) in
    let rest = split_runs workers pages_per_worker (cursor + take) total in
    if leb total cursor then [] else (cursor, take) ∷ rest

-- The loop of a worker over `n` pages from the `i`-th on.
unfoldable pub load_run {ℓ} : {A : Type ℓ} → (ℕ → Result A) → ℕ → ℕ → Result (List A)
load_run load i zero = ok []
load_run load i (suc n) = do page ← load i; pages ← load_run load (suc i) n; ok (page ∷ pages)

abbrev pub is_panic {ℓ} : {A : Type ℓ} → Result A → Bool
is_panic panic = true
is_panic (err e) = false
is_panic (ok a) = false

unfoldable pub any_panic {ℓ} : {A : Type ℓ} → List (Result A) → Bool
any_panic [] = false
any_panic (r ∷ rs) = is_panic r || any_panic rs

-- `for h in handles { h.join().map_err(|_| worker panicked)??; }`. The scope panics if a worker
-- that was not joined has panicked.
unfoldable pub joined {ℓ} : {A : Type ℓ} → List (Result (List A)) → Result (List A)
unfolding any_panic
joined [] = ok []
joined (ok pages ∷ rs) = do rest ← joined rs; ok (pages ++ rest)
joined (err e ∷ rs) = if any_panic rs then panic else err e
joined (panic ∷ rs) = if any_panic rs then panic else err worker_panicked

-- The workers, for `max(1)` of the number that is asked for.
unfoldable pub load_runs {ℓ} : {A : Type ℓ} → (ℕ → Result A) → ℕ → ℕ → Result (List A)
unfolding split_runs load_run joined
load_runs load worker_count total = joined (
    map (λ (run : ℕ × ℕ). load_run load run.0 run.1)
      (split_runs worker_count ((total + worker_count - 1) / worker_count) 0 total))

bind_ok {ℓ} : {A : Type ℓ} (r : Result A) → (r >>= (λ a. ok a)) ≡ r
bind_ok panic = refl
bind_ok (err e) = refl
bind_ok (ok a) = refl

-- Two parts of a run, the second after the first.
abbrev both {ℓ} : {A : Type ℓ} → Result (List A) → Result (List A) → Result (List A)
both first second = first >>= (λ pages. second >>= (λ rest. ok (pages ++ rest)))

abbrev one_more {ℓ} : {A : Type ℓ} → Result A → Result (List A) → Result (List A)
one_more first rest = first >>= (λ page. rest >>= (λ pages. ok (page ∷ pages)))

both-one_more {ℓ} :
    {A : Type ℓ} (r : Result A) (xs ys : Result (List A))
    → one_more r (both xs ys) ≡ both (one_more r xs) ys
both-one_more panic xs ys = refl
both-one_more (err e) xs ys = refl
both-one_more (ok a) panic ys = refl
both-one_more (ok a) (err e) ys = refl
both-one_more (ok a) (ok xs) panic = refl
both-one_more (ok a) (ok xs) (err e) = refl
both-one_more (ok a) (ok xs) (ok ys) = refl

module _ {ℓ} {A : Type ℓ} (load : ℕ → Result A) where
  load_run-append :
      (i m n k j : ℕ)
      → k ≡ m + n
      → j ≡ i + m
      → load_run load i k ≡ both (load_run load i m) (load_run load j n)
  unfolding load_run
  load_run-append i zero n k j hk hj =
      ap (λ t. load_run load i t) {x = k} {y = n} (omega arith)
      ∙ ap (λ t. load_run load t n) {x = i} {y = j} (omega arith)
      ∙ sym (bind_ok (load_run load j n))
  load_run-append i (suc m) n zero j hk hj = absurd (omega arith)
  load_run-append i (suc m) n (suc k) j hk hj =
      ap (one_more (load i)) (load_run-append (suc i) m n k j (omega arith) (omega arith))
      ∙ both-one_more (load i) (load_run load (suc i) m) (load_run load j n)

  not_panic :
      (i n total : ℕ)
      → ((j : ℕ) → j < total → is_panic (load j) ≡ false)
      → i + n ≤ total
      → is_panic (load_run load i n) ≡ false
  unfolding load_run
  not_panic i zero total h fits = refl
  not_panic i (suc n) total h fits =
      by_parts (load i) (load_run load (suc i) n) (h i (omega arith))
        (not_panic (suc i) n total h (omega arith))
    where
      by_parts :
          (r : Result A) (rest : Result (List A))
          → is_panic r ≡ false
          → is_panic rest ≡ false
          → is_panic (one_more r rest) ≡ false
      by_parts panic rest h hs = h
      by_parts (err e) rest h hs = refl
      by_parts (ok a) panic h hs = hs
      by_parts (ok a) (err e) h hs = refl
      by_parts (ok a) (ok as') h hs = refl

  joined_first :
      (r : Result (List A)) (rs : List (Result (List A))) (rest : Result (List A))
      → is_panic r ≡ false
      → any_panic rs ≡ false
      → joined rs ≡ rest
      → joined (r ∷ rs) ≡ both r rest
  unfolding joined
  joined_first panic rs rest h hs e = cc
  joined_first (err x) rs rest h hs e = rw hs refl
  joined_first (ok pages) rs rest h hs e = rw e refl

  -- The runs behind the cursor, joined, are one run over the rest.
  joined-split_runs :
      (workers per cursor total : ℕ)
      → ((j : ℕ) → j < total → is_panic (load j) ≡ false)
      → total ≤ cursor + workers * per
      → (any_panic
            (map (λ (run : ℕ × ℕ). load_run load run.0 run.1) (split_runs workers per cursor total))
          ≡ false)
        × (joined (
              map
                (λ (run : ℕ × ℕ). load_run load run.0 run.1)
                (split_runs workers per cursor total))
            ≡ load_run load cursor (total - cursor))
  unfolding split_runs joined any_panic load_run
  joined-split_runs zero per cursor total h enough =
      (refl, ap (λ t. load_run load cursor t) {x = 0} {y = total - cursor} (omega arith))
  joined-split_runs (suc workers) per cursor total h enough = elim (Bool-cases (leb total cursor)) [
    | inl e ↦
        let none_left : 0 ≡ total - cursor = ground arith in
        rw e (refl, ap (λ t. load_run load cursor t) none_left)
    | inr e ↦
        let more : cursor < total = ground arith in
        let take = min per (total - cursor) in
        let (calm, rest) =
          joined-split_runs workers per (cursor + take) total h
            (omega (arith, more, enough, suc-mul workers per)) in
        let still = not_panic cursor take total h (omega arith) in
        rw e (
          rw (still, calm) refl,
          joined_first (load_run load cursor take)
                (map (λ (run : ℕ × ℕ). load_run load run.0 run.1)
                  (split_runs workers per (cursor + take) total))
                (load_run load (cursor + take) (total - (cursor + take))) still calm rest
              ∙ sym (
                  load_run-append cursor take (total - (cursor + take)) (total - cursor)
                    (cursor + take) (omega (arith, more)) refl),
        )
  ]

  -- Whatever the number of workers, the joined runs are one run over all pages, errors included:
  -- the first error in the order of the pages is returned. No page's load panics.
  pub load_runs-load_run :
      (worker_count total : ℕ)
      → 1 ≤ worker_count
      → ((j : ℕ) → j < total → is_panic (load j) ≡ false)
      → load_runs load worker_count total ≡ load_run load 0 total
  unfolding load_runs
  load_runs-load_run worker_count total some_worker h =
      let n = total + worker_count - 1 in
      (joined-split_runs worker_count (n / worker_count) 0 total h (
        omega (
          arith,
          some_worker,
          mod-lt n some_worker,
          mod-add-div' n worker_count,
          mul_comm worker_count (n / worker_count),
        ))).1
      ∙ ap (λ t. load_run load 0 t) {x = total - 0} {y = total} (omega arith)
