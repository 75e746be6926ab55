-- ===== src/Cache/Ways.antt =====
-- The search of a set for a key, and what replacing a key does to it.
use bxdb.Base.{
  ℕ, zero, suc, ◌<◌, ◌≡◌, ◌≢◌, refl, sym, ap, ◌∙◌, arith, Option, none, some, List, [], ◌∷◌,
}
use bxdb.Base.{Bool-cases, eq_cases, some-injective, inl, inr, ◌==◌, ==_iff, length, set}
use bxdb.Cache.Defs.{find_way}

abbrev pub next_way : Option ℕ → Option ℕ
next_way none = none
next_way (some w) = some (suc w)

pub find_way-here : (k key : ℕ) (ids : List ℕ) → k ≡ key → find_way (k ∷ ids) key ≡ some 0
unfolding find_way
find_way-here k key ids h = rw ((==_iff k key).1 h)

pub find_way-there :
    (k key : ℕ) (ids : List ℕ) → k ≢ key → find_way (k ∷ ids) key ≡ next_way (find_way ids key)
unfolding find_way
find_way-there k key ids h = elim (Bool-cases (k == key)) [
  | inl e ↦ absurd (h ((==_iff k key).0 e))
  | inr e ↦ rw e (by_rest (find_way ids key))
]
  where
    by_rest :
        (o : Option ℕ)
        → (elim o as (λ x. Option ℕ) [ none ↦ none | some w ↦ some (suc w) ]) ≡ next_way o
    by_rest none = refl
    by_rest (some w) = refl

next_way-some : (o : Option ℕ) (w : ℕ) → next_way o ≡ some w → (v : ℕ) × (o ≡ some v) × (w ≡ suc v)
next_way-some none w h = cc
next_way-some (some v) w h = (v, refl, cc)

next_way-none : (o : Option ℕ) → next_way o ≡ none → o ≡ none
next_way-none none h = refl
next_way-none (some v) h = cc

pub find_way-lt : (ids : List ℕ) (key w : ℕ) → find_way ids key ≡ some w → w < length ids
unfolding find_way
find_way-lt [] key w h = cc
find_way-lt (k ∷ ids) key w h = elim (eq_cases k key) [
  | inl e ↦ let first : 0 ≡ w = some-injective (sym (find_way-here k key ids e) ∙ h) in omega arith
  | inr ne ↦
      let (v, found, e) =
        next_way-some (find_way ids key) w (sym (find_way-there k key ids ne) ∙ h) in
      omega (arith, find_way-lt ids key v found, e)
]

-- Writing the key where it is already found changes nothing.
pub set-found : (ids : List ℕ) (key w : ℕ) → find_way ids key ≡ some w → set ids w key ≡ ids
unfolding find_way
set-found [] key w h = refl
set-found (k ∷ ids) key w h = elim (eq_cases k key) [
  | inl e ↦
      let first : 0 ≡ w = some-injective (sym (find_way-here k key ids e) ∙ h) in
      rw (sym first) (ap (λ x. x ∷ ids) (sym e))
  | inr ne ↦
      let (v, found, e) =
        next_way-some (find_way ids key) w (sym (find_way-there k key ids ne) ∙ h) in
      rw e (ap (k ∷◌) (set-found ids key v found))
]

-- A key that was in no way is found where it was written.
pub find_way-set_new :
    (ids : List ℕ) (key w : ℕ)
    → find_way ids key ≡ none
    → w < length ids
    → find_way (set ids w key) key ≡ some w
find_way-set_new [] key w h lt = absurd (omega arith)
find_way-set_new (k ∷ ids) key zero h lt = find_way-here key key ids refl
find_way-set_new (k ∷ ids) key (suc w) h lt = elim (eq_cases k key) [
  | inl e ↦ cc (find_way-here k key ids e)
  | inr ne ↦
      find_way-there k key (set ids w key) ne
      ∙ ap next_way (
          find_way-set_new ids key w
            (next_way-none (find_way ids key) (sym (find_way-there k key ids ne) ∙ h))
            (omega arith))
]

-- Writing one key does not bring another one in.
pub find_way-set-none :
    (ids : List ℕ) (key q w : ℕ)
    → q ≢ key
    → find_way ids q ≡ none
    → find_way (set ids w key) q ≡ none
find_way-set-none [] key q w ne h = h
find_way-set-none (k ∷ ids) key q w ne h = elim (eq_cases k q) [
  | inl e ↦ cc (find_way-here k q ids e)
  | inr kq ↦
      let tail : find_way ids q ≡ none =
        next_way-none (find_way ids q) (sym (find_way-there k q ids kq) ∙ h) in
      rest kq tail (λ w. find_way-set-none ids key q w ne tail) w
]
  where
    rest :
        k ≢ q
        → find_way ids q ≡ none
        → ((w : ℕ) → find_way (set ids w key) q ≡ none)
        → (w : ℕ) → find_way (set (k ∷ ids) w key) q ≡ none
    rest kq tail later zero = find_way-there key q ids (λ e. ne (sym e)) ∙ ap next_way tail
    rest kq tail later (suc w) = find_way-there k q (set ids w key) kq ∙ ap next_way (later w)

-- The key is in one way at most.
abbrev pub Once : ℕ → List ℕ → Type 0
Once q [] = Unit {0}
Once q (k ∷ ids) = (k ≡ q → find_way ids q ≡ none) × Once q ids

-- What finds another key after a write: its way, unless that is the one that was written.
pub find_way-set_other :
    (ids : List ℕ) (key q w v : ℕ)
    → q ≢ key
    → Once q ids
    → find_way (set ids w key) q ≡ some v
    → (find_way ids q ≡ some v) × (v ≢ w)
find_way-set_other [] key q w v ne once h = absurd (omega (arith, find_way-lt [] q v h))
find_way-set_other (k ∷ ids) key q zero v ne (first, once) h =
    let (u, found, e) =
      next_way-some (find_way ids q) v (sym (find_way-there key q ids (λ e. ne (sym e))) ∙ h) in
    elim (eq_cases k q) [
      | inl here ↦ cc (first here)
      | inr kq ↦ (
        find_way-there k q ids kq ∙ ap next_way found ∙ ap some (sym e),
        λ zero_way. omega (arith, e, zero_way),
      )
    ]
find_way-set_other (k ∷ ids) key q (suc w) v ne (first, once) h = elim (eq_cases k q) [
  | inl here ↦
      let is_zero : 0 ≡ v = some-injective (sym (find_way-here k q (set ids w key) here) ∙ h) in
      (find_way-here k q ids here ∙ ap some is_zero, λ e. omega (arith, e, is_zero))
  | inr kq ↦
      let (u, found, e) =
        next_way-some (find_way (set ids w key) q) v
          (sym (find_way-there k q (set ids w key) kq) ∙ h) in
      let (old, other) = find_way-set_other ids key q w u ne once found in
      (
        find_way-there k q ids kq ∙ ap next_way old ∙ ap some (sym e),
        λ same. other (omega (arith, e, same)),
      )
]

pub Once-set_other : (ids : List ℕ) (key q w : ℕ) → q ≢ key → Once q ids → Once q (set ids w key)
Once-set_other [] key q w ne h = tt
Once-set_other (k ∷ ids) key q zero ne (first, h) = (λ e. absurd (ne (sym e)), h)
Once-set_other (k ∷ ids) key q (suc w) ne (first, h) =
    (λ e. find_way-set-none ids key q w ne (first e), Once-set_other ids key q w ne h)

none-Once : (ids : List ℕ) (q : ℕ) → find_way ids q ≡ none → Once q ids
none-Once [] q h = tt
none-Once (k ∷ ids) q h = elim (eq_cases k q) [
  | inl here ↦ cc (find_way-here k q ids here)
  | inr kq ↦
      let tail = next_way-none (find_way ids q) (sym (find_way-there k q ids kq) ∙ h) in
      (λ e. tail, none-Once ids q tail)
]

pub Once-set_new : (ids : List ℕ) (key w : ℕ) → find_way ids key ≡ none → Once key (set ids w key)
Once-set_new [] key w h = tt
Once-set_new (k ∷ ids) key w h = elim (eq_cases k key) [
  | inl here ↦ cc (find_way-here k key ids here)
  | inr kq ↦
      let tail = next_way-none (find_way ids key) (sym (find_way-there k key ids kq) ∙ h) in
      by_way tail (none-Once ids key tail) (λ v. Once-set_new ids key v tail) kq w
]
  where
    by_way :
        find_way ids key ≡ none
        → Once key ids
        → ((v : ℕ) → Once key (set ids v key))
        → k ≢ key
        → (w : ℕ) → Once key (set (k ∷ ids) w key)
    by_way tail once later kq zero = (λ e. tail, once)
    by_way tail once later kq (suc v) = (λ e. absurd (kq e), later v)

pub length-set : (ids : List ℕ) (w k : ℕ) → length (set ids w k) ≡ length ids
length-set [] w k = refl
length-set (x ∷ ids) zero k = refl
length-set (x ∷ ids) (suc w) k = ap suc (length-set ids w k)

-- A key in another way is found where it was.
pub find_way-set_keep :
    (ids : List ℕ) (key q w v : ℕ)
    → q ≢ key
    → v ≢ w
    → find_way ids q ≡ some v
    → find_way (set ids w key) q ≡ some v
find_way-set_keep [] key q w v ne apart h = h
find_way-set_keep (k ∷ ids) key q zero v ne apart h = elim (eq_cases k q) [
  | inl here ↦ absurd (apart (sym (some-injective (sym (find_way-here k q ids here) ∙ h))))
  | inr kq ↦ find_way-there key q ids (λ e. ne (sym e)) ∙ sym (find_way-there k q ids kq) ∙ h
]
find_way-set_keep (k ∷ ids) key q (suc w) v ne apart h = elim (eq_cases k q) [
  | inl here ↦ find_way-here k q (set ids w key) here ∙ sym (find_way-here k q ids here) ∙ h
  | inr kq ↦
      let (u, found, e) = next_way-some (find_way ids q) v (sym (find_way-there k q ids kq) ∙ h) in
      find_way-there k q (set ids w key) kq
      ∙ ap next_way (find_way-set_keep ids key q w u ne (λ same. apart (e ∙ ap suc same)) found)
      ∙ ap some (sym e)
]

-- One way does not have two keys.
pub find_way-injective :
    (ids : List ℕ) (key q w : ℕ) → find_way ids key ≡ some w → find_way ids q ≡ some w → key ≡ q
find_way-injective [] key q w h k = absurd (omega (arith, find_way-lt [] q w k))
find_way-injective (x ∷ ids) key q w h k = elim (eq_cases x key) [
  | inl here ↦ elim (eq_cases x q) [
    | inl there ↦ sym here ∙ there
    | inr xq ↦
        let (u, found, e) =
          next_way-some (find_way ids q) w (sym (find_way-there x q ids xq) ∙ k) in
        let first : 0 ≡ w = some-injective (sym (find_way-here x key ids here) ∙ h) in
        absurd (omega (arith, e, first))
  ]
  | inr xk ↦
      let (u, found, e) =
        next_way-some (find_way ids key) w (sym (find_way-there x key ids xk) ∙ h) in
      elim (eq_cases x q) [
        | inl there ↦
            let first : 0 ≡ w = some-injective (sym (find_way-here x q ids there) ∙ k) in
            absurd (omega (arith, e, first))
        | inr xq ↦
            let (u', found', e') =
              next_way-some (find_way ids q) w (sym (find_way-there x q ids xq) ∙ k) in
            find_way-injective ids key q u found (found' ∙ ap some (omega (arith, e, e')))
      ]
]
