-- ===== src/Index/Search.antt =====
-- The binary searches, over any ascending function of the index.
use bxdb.Base.{ℕ, zero, suc, ◌+◌, ◌-◌, ◌/◌, ◌≤◌, ◌<◌, ◌≡◌, ◌≢◌, arith, Option, none, some, false}
use bxdb.Base.{leb, ltb, ◌==◌, ==_iff, Bool-cases, inl, inr, leb→le, ltb→lt}
use bxdb.Index.Defs.{floor_loop, exact_loop}

module _ (key_at : ℕ → ℕ) (n : ℕ) where
  -- Ascending up to `n`.
  abbrev pub IsAscending : Type 0
  IsAscending = (i j : ℕ) → i ≤ j → j < n → key_at i ≤ key_at j

  -- `p` splits the indices below `n` into those with keys up to `key` and those above.
  pub record Splits (key p : ℕ) : Type 0 where
    pub inside : p ≤ n
    pub low : (i : ℕ) → i < p → key_at i ≤ key
    pub high : (i : ℕ) → p ≤ i → i < n → key < key_at i

not-leb→lt : (a b : ℕ) → leb a b ≡ false → b < a
not-leb→lt a b h = ground arith

not-ltb→le : (a b : ℕ) → ltb a b ≡ false → b ≤ a
not-ltb→le a b h = ground arith

not-==→ne : (a b : ℕ) → (a == b) ≡ false → a ≢ b
not-==→ne a b h = ground arith

module _ (key_at : ℕ → ℕ) (n : ℕ) where
  -- What an exact search answers: an index with the key, or that there is none.
  abbrev pub Finds : ℕ → Option ℕ → Type 0
  Finds key (some i) = (i < n) × (key_at i ≡ key)
  Finds key none = (i : ℕ) → i < n → key_at i ≢ key

module _ (key_at : ℕ → ℕ) (n : ℕ) (ascending : IsAscending key_at n) (key : ℕ) where
  floor_loop-Splits :
      (fuel lo hi : ℕ)
      → hi - lo ≤ fuel
      → lo ≤ hi
      → hi ≤ n
      → ((i : ℕ) → i < lo → key_at i ≤ key)
      → ((i : ℕ) → hi ≤ i → i < n → key < key_at i)
      → Splits key_at n key (floor_loop key_at key fuel lo hi)
  unfolding floor_loop
  floor_loop-Splits zero lo hi hf hl hn low high = record {
    inside = omega arith;
    low = low;
    high = λ i p q. high i (omega arith) q;
  }
  floor_loop-Splits (suc fuel) lo hi hf hl hn low high =
      let mid = lo + (hi - lo) / 2 in
      elim (Bool-cases (ltb lo hi)) [
        | inr done ↦ rw done (record {
          inside = omega arith;
          low = low;
          high = λ i p q. high i (omega (arith, not-ltb→le lo hi done)) q;
        })
        | inl more ↦
            let inner : lo < hi = ltb→lt lo hi more in
            rw more (elim (Bool-cases (leb (key_at mid) key)) [
              | inl up ↦ rw up (
                  floor_loop-Splits fuel (mid + 1) hi (omega arith) (omega arith) hn
                    (λ i p. omega (
                      arith,
                      ascending i mid (omega arith) (omega arith),
                      leb→le (key_at mid) key up,
                    ))
                    high)
              | inr down ↦ rw down (
                  floor_loop-Splits fuel lo mid (omega arith) (omega arith) (omega arith) low
                    (λ i p q. omega (arith, ascending mid i p q, not-leb→lt (key_at mid) key down)))
            ])
      ]

  -- On ascending keys the loop of `floor_mmap` ends, within `n` rounds, at the index behind the
  -- last key that is not above the one asked for.
  pub floor_loop_all-Splits : Splits key_at n key (floor_loop key_at key n 0 n)
  floor_loop_all-Splits =
      floor_loop-Splits n 0 n (omega arith) (omega arith) (omega arith)
        (λ i p. absurd (omega arith)) (λ i p q. absurd (omega arith))

  exact_loop-Finds :
      (fuel lo hi : ℕ)
      → hi - lo ≤ fuel
      → lo ≤ hi
      → hi ≤ n
      → ((i : ℕ) → i < lo → key_at i < key)
      → ((i : ℕ) → hi ≤ i → i < n → key < key_at i)
      → Finds key_at n key (exact_loop key_at key fuel lo hi)
  unfolding exact_loop
  exact_loop-Finds zero lo hi hf hl hn low high = λ i p e. elim (Bool-cases (ltb i lo)) [
    | inl front ↦ omega (arith, low i (ltb→lt i lo front))
    | inr back ↦ omega (arith, high i (omega (arith, not-ltb→le i lo back)) p)
  ]
  exact_loop-Finds (suc fuel) lo hi hf hl hn low high =
      let mid = lo + (hi - lo) / 2 in
      elim (Bool-cases (ltb lo hi)) [
        | inr done ↦ rw done (λ i p e. elim (Bool-cases (ltb i lo)) [
          | inl front ↦ omega (arith, low i (ltb→lt i lo front))
          | inr back ↦
              omega (arith, high i (omega (arith, not-ltb→le i lo back, not-ltb→le lo hi done)) p)
        ])
        | inl more ↦
            let inner : lo < hi = ltb→lt lo hi more in
            rw more (elim (Bool-cases (key_at mid == key)) [
              | inl same ↦ rw same (omega arith, (==_iff (key_at mid) key).0 same)
              | inr other ↦ rw other (elim (Bool-cases (ltb (key_at mid) key)) [
                | inl up ↦ rw up (
                    exact_loop-Finds fuel (mid + 1) hi (omega arith) (omega arith) hn
                      (λ i p. omega (
                        arith,
                        ascending i mid (omega arith) (omega arith),
                        ltb→lt (key_at mid) key up,
                      ))
                      high)
                | inr down ↦ rw down (
                    exact_loop-Finds fuel lo mid (omega arith) (omega arith) (omega arith) low
                      (λ i p q. omega (
                        arith,
                        ascending mid i p q,
                        not-ltb→le (key_at mid) key down,
                        not-==→ne (key_at mid) key other,
                      )))
              ])
            ])
      ]

  pub exact_loop_all-Finds : Finds key_at n key (exact_loop key_at key n 0 n)
  exact_loop_all-Finds =
      exact_loop-Finds n 0 n (omega arith) (omega arith) (omega arith) (λ i p. absurd (omega arith))
        (λ i p q. absurd (omega arith))
