-- ===== src/Chunk/Patch/RoundTrip.antt =====
-- A patch that was computed against a base gives the page back when it is applied to the base.
use bxdb.Base.{ℕ, zero, suc, ◌+◌, ◌*◌, ◌/◌, ◌%◌, ◌≤◌, ◌<◌, ◌≡◌, refl, sym, ap, ap₂, ◌∙◌}
use bxdb.Base.{arith, bit_xor, inl, inr, Bool-cases, ==_iff, lt→not-leb, List, [], ◌∷◌, ◌++◌}
use bxdb.Base.{append_assoc, Result, ok, ◌==◌}
use bxdb.Base.{length, All, splice, length-append, true, false}
use bxdb.Base.Bits.{bit_xor_cancel, bit_xor-eq-zero, bit_xor-lt}
use bxdb.Base.Bytes.{to_le_bytes, from_le_bytes-to_le_bytes}
use bxdb.Chunk.Patch.Defs.{IsPage, word_at, encode_delta_patch, xor_chunks}
use bxdb.Chunk.Patch.Defs.{apply_delta_xor, apply_delta_patch_in_place, apply_delta_patch}
use bxdb.Chunk.Patch.Defs.{xor_patch_from, compute_xor_patch}
use bxdb.Chunk.Patch.Words.{IsWord, from_words, words_of, word_at-from_words, splice-from_words}

pub length-encode_delta_patch :
    (patch : List (ℕ × ℕ)) → length (encode_delta_patch patch) ≡ length patch * 10
unfolding encode_delta_patch to_le_bytes
length-encode_delta_patch [] = refl
length-encode_delta_patch ((i, x) ∷ patch) = omega (arith, length-encode_delta_patch patch)

-- One chunk of an encoded patch.
xor_chunks-encode :
    (n i x : ℕ) (patch : List (ℕ × ℕ)) (out : List ℕ)
    → i < 512
    → IsWord x
    → xor_chunks (suc n) (encode_delta_patch ((i, x) ∷ patch)) out
      ≡ xor_chunks n
          (encode_delta_patch patch)
          (splice out (i * 8) (to_le_bytes 8 (bit_xor (word_at out i) x)))
unfolding xor_chunks encode_delta_patch to_le_bytes
xor_chunks-encode n i x patch out hi hx =
    rw (from_le_bytes-to_le_bytes 2 i (omega arith), from_le_bytes-to_le_bytes 8 x hx)
      (rw (lt→not-leb 512 i hi))

-- What applying a patch comes to, chunk by chunk.
abbrev apply_patch : List (ℕ × ℕ) → List ℕ → Result (List ℕ)
apply_patch patch out = xor_chunks (length patch) (encode_delta_patch patch) out

-- One word of the page against the base, where they agree and where they do not.
xor_patch_same :
    (n i : ℕ) (page base : List ℕ)
    → bit_xor (word_at page i) (word_at base i) ≡ 0
    → xor_patch_from (suc n) i page base ≡ xor_patch_from n (i + 1) page base
unfolding xor_patch_from
xor_patch_same n i page base h = rw h

xor_patch_other :
    (n i : ℕ) (page base : List ℕ)
    → i < 512
    → (bit_xor (word_at page i) (word_at base i) == 0) ≡ false
    → xor_patch_from (suc n) i page base
      ≡ (i, bit_xor (word_at page i) (word_at base i)) ∷ xor_patch_from n (i + 1) page base
unfolding xor_patch_from
xor_patch_other n i page base hi h = rw h (
    ap (λ k. (k, bit_xor (word_at page i) (word_at base i)) ∷ xor_patch_from n (i + 1) page base)
      {x = i % 65536} (omega arith))

module _ (page base : List ℕ) where
  -- One word: `out` holds the base there before, and the page after.
  apply_patch_step :
      (n p b : ℕ) (ps bs pre qre : List ℕ) (i : ℕ)
      → page ≡ from_words (pre ++ (p ∷ ps))
      → base ≡ from_words (qre ++ (b ∷ bs))
      → length pre ≡ i
      → length qre ≡ i
      → i < 512
      → IsWord p
      → IsWord b
      → apply_patch (xor_patch_from (suc n) i page base) (from_words (pre ++ (b ∷ bs)))
        ≡ apply_patch (xor_patch_from n (i + 1) page base) (from_words (pre ++ (p ∷ bs)))
  apply_patch_step n p b ps bs pre qre i ep eb hp hq small p_fits b_fits =
      elim (Bool-cases (bit_xor (word_at page i) (word_at base i) == 0)) [
        | inl same ↦
            let none_set = (==_iff (bit_xor (word_at page i) (word_at base i)) 0).0 same in
            let same_word : p ≡ b =
              bit_xor-eq-zero p b (sym (ap₂ bit_xor at_page at_base) ∙ none_set) in
            ap (λ t. apply_patch t (from_words (pre ++ (b ∷ bs))))
              (xor_patch_same n i page base none_set)
            ∙ ap (λ t. apply_patch rest (from_words (pre ++ (t ∷ bs)))) (sym same_word)
        | inr differs ↦
            ap (λ t. apply_patch t (from_words (pre ++ (b ∷ bs))))
              (xor_patch_other n i page base small differs
                ∙ ap (λ t. (i, t) ∷ rest) (ap₂ bit_xor at_page at_base))
            ∙ xor_chunks-encode (length rest) i (bit_xor p b) rest (from_words (pre ++ (b ∷ bs)))
                small (bit_xor-lt 64 p b p_fits b_fits)
            ∙ ap (apply_patch rest) (
                ap (λ t. splice (from_words (pre ++ (b ∷ bs))) (i * 8) (to_le_bytes 8 t))
                  (ap (λ t. bit_xor t (bit_xor p b)) (word_at-from_words pre b bs i hp b_fits)
                    ∙ bit_xor_cancel p b)
                ∙ splice-from_words pre b p bs i hp)
      ]
    where
      rest : List (ℕ × ℕ)
      rest = xor_patch_from n (i + 1) page base

      at_page : word_at page i ≡ p
      at_page = ap (λ t. word_at t i) ep ∙ word_at-from_words pre p ps i hp p_fits

      at_base : word_at base i ≡ b
      at_base = ap (λ t. word_at t i) eb ∙ word_at-from_words qre b bs i hq b_fits

  -- Up to index `length pre` the page is done: there `out` is the page, and behind it the base.
  apply_patch-from :
      (ps bs pre qre : List ℕ) (i : ℕ)
      → page ≡ from_words (pre ++ ps)
      → base ≡ from_words (qre ++ bs)
      → length pre ≡ i
      → length qre ≡ i
      → length ps ≡ length bs
      → i + length ps ≤ 512
      → All IsWord ps
      → All IsWord bs
      → apply_patch (xor_patch_from (length ps) i page base) (from_words (pre ++ bs)) ≡ ok page
  apply_patch-from [] [] pre qre i ep eb hp hq hl small wp wb =
      unfold xor_chunks xor_patch_from in ap ok (sym ep)
  apply_patch-from [] (b ∷ bs) pre qre i ep eb hp hq hl small wp wb = absurd (omega arith)
  apply_patch-from (p ∷ ps) [] pre qre i ep eb hp hq hl small wp wb = absurd (omega arith)
  apply_patch-from (p ∷ ps) (b ∷ bs) pre qre i ep eb hp hq hl small (p_fits, wp) (b_fits, wb) =
      apply_patch_step (length ps) p b ps bs pre qre i ep eb hp hq (omega arith) p_fits b_fits
      ∙ ap (λ t. apply_patch (xor_patch_from (length ps) (i + 1) page base) (from_words t))
          (sym (append_assoc pre (p ∷ []) bs))
      ∙ apply_patch-from ps bs (pre ++ (p ∷ [])) (qre ++ (b ∷ [])) (i + 1)
          (ep ∙ ap from_words (sym (append_assoc pre (p ∷ []) ps)))
          (eb ∙ ap from_words (sym (append_assoc qre (b ∷ []) bs)))
          (omega (arith, length-append pre (p ∷ []))) (omega (arith, length-append qre (b ∷ [])))
          (omega arith) (omega arith) wp wb

pub apply_delta_xor-compute :
    (page base : List ℕ)
    → IsPage page
    → IsPage base
    → apply_delta_xor (encode_delta_patch (compute_xor_patch page base)) base ≡ ok page
unfolding apply_delta_xor compute_xor_patch
apply_delta_xor-compute page base (page_length, page_bytes) (base_length, base_bytes) =
    let (ps, ep, lp, wp) = words_of 512 page page_length page_bytes in
    let (bs, eb, lb, wb) = words_of 512 base base_length base_bytes in
    let patch = xor_patch_from 512 0 page base in
    ap (λ k. xor_chunks k (encode_delta_patch patch) base)
      {x = length (encode_delta_patch patch) / 10} {y = length patch}
      (omega (arith, length-encode_delta_patch patch))
    ∙ ap (apply_patch patch) eb
    ∙ ap (λ k. apply_patch (xor_patch_from k 0 page base) (from_words bs)) (sym lp)
    ∙ apply_patch-from page base ps bs [] [] 0 ep eb refl refl (lp ∙ sym lb) (omega arith) wp wb

-- The patch of a page against a base, encoded and applied to the base, in either form of the
-- function, succeeds and gives the page.
pub apply_delta_patch-encode_delta_patch :
    (page base : List ℕ)
    → IsPage page
    → IsPage base
    → let blob = encode_delta_patch (compute_xor_patch page base) in
      (apply_delta_patch base blob ≡ ok page) × (apply_delta_patch_in_place blob base ≡ ok page)
unfolding apply_delta_patch apply_delta_patch_in_place
apply_delta_patch-encode_delta_patch page base hp hb =
    let patch = compute_xor_patch page base in
    let whole : (length (encode_delta_patch patch) % 10 == 0) ≡ true =
      (==_iff (length (encode_delta_patch patch) % 10) 0).1
        (omega (arith, length-encode_delta_patch patch)) in
    (
      rw whole (apply_delta_xor-compute page base hp hb),
      rw whole (apply_delta_xor-compute page base hp hb),
    )

xor_patch_from-size : (n i : ℕ) (page base : List ℕ) → length (xor_patch_from n i page base) ≤ n
unfolding xor_patch_from
xor_patch_from-size zero i page base = omega arith
xor_patch_from-size (suc n) i page base = ground (arith, xor_patch_from-size n (i + 1) page base)

-- A patch has a word for each word of the page at most, so its blob fits the `u32` length.
pub length-compute_xor_patch :
    (page base : List ℕ) → length (encode_delta_patch (compute_xor_patch page base)) ≤ 5120
unfolding compute_xor_patch
length-compute_xor_patch page base = omega (
  arith,
  length-encode_delta_patch (xor_patch_from 512 0 page base),
  xor_patch_from-size 512 0 page base,
)
