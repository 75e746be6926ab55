-- ===== src/Chunk/Patch/Words.antt =====
-- A page as the list of its 64-bit words.
use bxdb.Base.{ℕ, zero, suc, ◌*◌, ◌^◌, ◌<◌, ◌≡◌, refl, sym, ap, ap₂, ◌∙◌, arith}
use bxdb.Base.{List, [], ◌∷◌, ◌++◌, append_assoc, length, All, take, drop, splice}
use bxdb.Base.{
  length-append, length-take, length-drop, slice-middle, splice-middle, take-append-drop,
}
use bxdb.Base.Bytes.{to_le_bytes, from_le_bytes, length-to_le_bytes, from_le_bytes-to_le_bytes}
use bxdb.Base.Bytes.{to_le_bytes-from_le_bytes, from_le_bytes-lt, IsByte, IsBytes}
use bxdb.Chunk.Patch.Defs.{word_at}

abbrev pub IsWord : ℕ → Type 0
IsWord w = w < 256 ^ 8

unfoldable pub from_words : List ℕ → List ℕ
from_words [] = []
from_words (w ∷ ws) = to_le_bytes 8 w ++ from_words ws

pub length-from_words : (ws : List ℕ) → length (from_words ws) ≡ length ws * 8
unfolding from_words
length-from_words [] = refl
length-from_words (w ∷ ws) = omega (
  arith,
  length-append (to_le_bytes 8 w) (from_words ws),
  length-to_le_bytes 8 w,
  length-from_words ws,
)

pub from_words-append : (vs ws : List ℕ) → from_words (vs ++ ws) ≡ from_words vs ++ from_words ws
unfolding from_words
from_words-append [] ws = refl
from_words-append (v ∷ vs) ws =
    ap (λ t. to_le_bytes 8 v ++ t) (from_words-append vs ws)
    ∙ sym (append_assoc (to_le_bytes 8 v) (from_words vs) (from_words ws))

from_words-middle :
    (vs : List ℕ) (w : ℕ) (ws : List ℕ)
    → from_words (vs ++ (w ∷ ws)) ≡ from_words vs ++ (to_le_bytes 8 w ++ from_words ws)
unfolding from_words
from_words-middle vs w ws = from_words-append vs (w ∷ ws)

-- The word behind `vs` is the one at index `length vs`.
pub word_at-from_words :
    (vs : List ℕ) (w : ℕ) (ws : List ℕ) (i : ℕ)
    → length vs ≡ i
    → IsWord w
    → word_at (from_words (vs ++ (w ∷ ws))) i ≡ w
word_at-from_words vs w ws i h fits =
    ap (λ p. word_at p i) (from_words-middle vs w ws)
    ∙ ap from_le_bytes (
        slice-middle (from_words vs) (to_le_bytes 8 w) (from_words ws) (i * 8) 8
          (omega (arith, length-from_words vs)) (length-to_le_bytes 8 w))
    ∙ from_le_bytes-to_le_bytes 8 w fits

-- To write a word at index `length vs` is to replace the word there.
pub splice-from_words :
    (vs : List ℕ) (w x : ℕ) (ws : List ℕ) (i : ℕ)
    → length vs ≡ i
    → splice (from_words (vs ++ (w ∷ ws))) (i * 8) (to_le_bytes 8 x) ≡ from_words (vs ++ (x ∷ ws))
splice-from_words vs w x ws i h =
    ap (λ p. splice p (i * 8) (to_le_bytes 8 x)) (from_words-middle vs w ws)
    ∙ splice-middle (from_words vs) (to_le_bytes 8 w) (from_words ws) (to_le_bytes 8 x) (i * 8)
        (omega (arith, length-from_words vs))
        (length-to_le_bytes 8 x ∙ sym (length-to_le_bytes 8 w))
    ∙ sym (from_words-middle vs x ws)

pub All-take {ℓ κ} :
    {A : Type ℓ} (P : A → Type κ) (n : ℕ) (xs : List A) → All P xs → All P (take n xs)
All-take P zero xs h = tt
All-take P (suc n) [] h = tt
All-take P (suc n) (x ∷ xs) (hx, hxs) = (hx, All-take P n xs hxs)

pub All-drop {ℓ κ} :
    {A : Type ℓ} (P : A → Type κ) (n : ℕ) (xs : List A) → All P xs → All P (drop n xs)
All-drop P zero xs h = h
All-drop P (suc n) [] h = tt
All-drop P (suc n) (x ∷ xs) (hx, hxs) = All-drop P n xs hxs

-- Bytes whose number is a multiple of 8 are the bytes of words.
pub words_of :
    (n : ℕ) (p : List ℕ)
    → length p ≡ n * 8
    → IsBytes p
    → (ws : List ℕ) × (p ≡ from_words ws) × (length ws ≡ n) × All IsWord ws
unfolding from_words
words_of zero [] h b = ([], refl, refl, tt)
words_of zero (x ∷ p) h b = absurd (omega arith)
words_of (suc n) p h b =
    let (ws, e, l, a) =
      words_of n (drop 8 p) (omega (arith, length-drop 8 p)) (All-drop IsByte 8 p b) in
    let front : length (take 8 p) ≡ 8 = omega (arith, length-take 8 p) in
    let w = from_le_bytes (take 8 p) in
    let bytes : to_le_bytes 8 w ≡ take 8 p =
      ap (λ k. to_le_bytes k w) (sym front)
      ∙ to_le_bytes-from_le_bytes (take 8 p) (All-take IsByte 8 p b) in
    (
      w ∷ ws,
      sym (take-append-drop 8 p) ∙ ap₂ ◌++◌ (sym bytes) e,
      ap suc l,
      (
        omega (arith, from_le_bytes-lt (take 8 p) (All-take IsByte 8 p b), ap (λ k. 256 ^ k) front),
        a,
      ),
    )
