-- ===== src/Cache/Hits.antt =====
-- What is cached after a `put` of any key, the one of the empty ways included.
use bxdb.Base.{
  ℕ, ◌≡◌, ◌≢◌, refl, sym, ap, ◌∙◌, none, some, List, ◌⊎◌, inl, inr, eq_cases, some-injective,
}
use bxdb.Cache.Defs.{SharedCache, put, empty_key}
use bxdb.Cache.Coherence.{IsCache, cached}
use bxdb.Cache.Puts.{put-IsCache, put-same, put-other}
use mathlib.Core.Path.{subst}

put-empty_key : (c : SharedCache) (page : List ℕ) → put c empty_key page ≡ c
unfolding put
put-empty_key c page = refl

cached-empty_key : (c : SharedCache) → cached c empty_key ≡ none
unfolding cached
cached-empty_key c = refl

pub put-keeps_IsCache :
    (c : SharedCache) (key : ℕ) (page : List ℕ) → IsCache c → IsCache (put c key page)
put-keeps_IsCache c key page h = elim (eq_cases key empty_key) [
  | inl e ↦ subst IsCache (sym (ap (λ k. put c k page) e ∙ put-empty_key c page)) h
  | inr real ↦ put-IsCache c key page h real
]

-- Only the page that was put is new.
pub cached-put :
    (c : SharedCache) (key q : ℕ) (page p : List ℕ)
    → IsCache c
    → cached (put c key page) q ≡ some p
    → (q ≡ key) × (p ≡ page) ⊎ (q ≢ key) × (cached c q ≡ some p)
cached-put c key q page p h at = elim (eq_cases key empty_key) [
  | inl e ↦
      let before : cached c q ≡ some p =
        sym (ap (λ c'. cached c' q) (ap (λ k. put c k page) e ∙ put-empty_key c page)) ∙ at in
      elim (eq_cases q key) [
        | inl here ↦ cc (before, ap (cached c) (here ∙ e), cached-empty_key c)
        | inr there ↦ inr (there, before)
      ]
  | inr real ↦ elim (eq_cases q key) [
    | inl here ↦ inl (
      here,
      some-injective (sym at ∙ ap (cached (put c key page)) here ∙ put-same c key page h real),
    )
    | inr there ↦ elim (put-other c key page h real q there) [
      | inl kept ↦ inr (there, sym kept ∙ at)
      | inr gone ↦ cc (gone, at)
    ]
  ]
]
