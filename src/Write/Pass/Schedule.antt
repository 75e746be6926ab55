-- ===== src/Write/Pass/Schedule.antt =====
-- A schedule handles the pages in another order: a permutation of their addresses.
use bxdb.Base.{ℕ, suc, ◌≡◌, refl, sym, ap, ◌∙◌, List, length, All}
use bxdb.Write.Pass.Readers.{NotIn, IsDistinct}
use mathlib.Core.Path.{subst}
use mathlib.Core.List.{Permᴰ}

pub All-Permᴰ : (P : ℕ → Type 0) (xs ys : List ℕ) → Permᴰ xs ys → All P xs → All P ys
All-Permᴰ P _ _ Permᴰ.nil h = h
All-Permᴰ P _ _ (Permᴰ.cons {l₁ = l₁} {l₂ = l₂} e p) (h, hs) = (subst P e h, All-Permᴰ P l₁ l₂ p hs)
All-Permᴰ P _ _ (Permᴰ.swap e₁ e₂) (ha, (hb, hs)) = (subst P e₂ hb, (subst P e₁ ha, hs))
All-Permᴰ P _ _ (Permᴰ.trans {l₁ = l₁} {l₂ = l₂} {l₃ = l₃} p q) h =
    All-Permᴰ P l₂ l₃ q (All-Permᴰ P l₁ l₂ p h)

pub length-Permᴰ : (xs ys : List ℕ) → Permᴰ xs ys → length xs ≡ length ys
length-Permᴰ _ _ Permᴰ.nil = refl
length-Permᴰ _ _ (Permᴰ.cons {l₁ = l₁} {l₂ = l₂} e p) = ap suc (length-Permᴰ l₁ l₂ p)
length-Permᴰ _ _ (Permᴰ.swap e₁ e₂) = refl
length-Permᴰ _ _ (Permᴰ.trans {l₁ = l₁} {l₂ = l₂} {l₃ = l₃} p q) =
    length-Permᴰ l₁ l₂ p ∙ length-Permᴰ l₂ l₃ q

pub Permᴰ-IsDistinct : (xs ys : List ℕ) → Permᴰ xs ys → IsDistinct xs → IsDistinct ys
Permᴰ-IsDistinct _ _ Permᴰ.nil h = h
Permᴰ-IsDistinct _ _ (Permᴰ.cons {l₁ = l₁} {l₂ = l₂} e p) (h, hs) =
    (subst (λ x. NotIn x l₂) e (All-Permᴰ _ l₁ l₂ p h), Permᴰ-IsDistinct l₁ l₂ p hs)
Permᴰ-IsDistinct _ _ (Permᴰ.swap {l = l} e₁ e₂) ((ne, ha), (hb, hs)) = (
  (λ e. ne (e₂ ∙ sym e ∙ sym e₁), subst (λ x. NotIn x l) e₂ hb),
  (subst (λ x. NotIn x l) e₁ ha, hs),
)
Permᴰ-IsDistinct _ _ (Permᴰ.trans {l₁ = l₁} {l₂ = l₂} {l₃ = l₃} p q) h =
    Permᴰ-IsDistinct l₂ l₃ q (Permᴰ-IsDistinct l₁ l₂ p h)
