-- ===== src/Router/Free.antt =====
-- automation/scripts/router-tick.py, route: the suffix loop finds a name that no file has.
use Prim.Native.Nat.{ℕ, zero, suc, ◌+◌, ◌-◌, ◌*◌, ◌≤◌, ◌<◌}
use hngh.Prelude.{
  ◌≡◌, refl, sym, ap, ◌∙◌, inl, inr, Bool-cases, Option, none, some, List, [], ◌∷◌, ◌++◌,
  append_assoc, true, false, leb, length, select, length-select-le, if_ind, arith,
}
use hngh.Texts.{Text, codes, same_text, same_text_iff, holds, behind_prefix}
use hngh.Texts.Decimal.{decimal, number, number-decimal}
use hngh.Router.Identity.{suffix}
use hngh.Router.Route.{plan_name, numbered, free_slug, new_slug}

number-append_all : (acc : ℕ) (s t : Text) → number acc (s ++ t) ≡ number (number acc s) t
unfolding number
number-append_all acc [] t = refl
number-append_all acc (c ∷ s) t = number-append_all (10 * acc + (c - b'0')) s t

pub behind_prefix-append : (s t : Text) → behind_prefix s (s ++ t) ≡ some t
unfolding behind_prefix
behind_prefix-append [] t = refl
behind_prefix-append (c ∷ s) t = ground (arith, behind_prefix-append s t)

module _ (slug : Text) where
  abbrev number_in : Option Text → ℕ
  number_in none = 0
  number_in (some t) = number 0 t

  -- The name's suffix, read as one number.
  abbrev weight : Text → ℕ
  weight name = number_in (behind_prefix (slug ++ codes "-") name)

abbrev rank : ℕ → ℕ
rank n = number n suffix

rank_mono : (n : ℕ) → rank n < rank (suc n)
unfolding number
rank_mono n = omega arith

weight-numbered : (slug : Text) (n : ℕ) → weight slug (plan_name (numbered slug n)) ≡ rank n
weight-numbered slug n =
    ap (weight slug) (append_assoc (slug ++ codes "-") (decimal n) suffix)
    ∙ rw
        (
          behind_prefix-append (slug ++ codes "-") (decimal n ++ suffix),
          number-append_all 0 (decimal n) suffix,
          number-decimal n,
        )
        refl

-- The names with a suffix of n or more.
abbrev above : Text → ℕ → List Text → List Text
above slug n taken = select (λ name. leb (rank n) (weight slug name)) taken

above_mono :
    (slug : Text) (n : ℕ) (taken : List Text)
    → length (above slug (suc n) taken) ≤ length (above slug n taken)
above_mono slug n [] = omega arith
above_mono slug n (x ∷ taken) = ground (arith, rank_mono n, above_mono slug n taken)

above-held :
    (slug : Text) (n : ℕ) (taken : List Text)
    → holds taken (plan_name (numbered slug n)) ≡ true
    → length (above slug (suc n) taken) < length (above slug n taken)
unfolding holds
above-held slug n [] h = absurd cc
above-held slug n (x ∷ taken) h = elim (Bool-cases (same_text (plan_name (numbered slug n)) x)) [
  | inl same ↦
      let found : weight slug x ≡ rank n =
        rw (sym ((same_text_iff (plan_name (numbered slug n)) x).0 same))
          (weight-numbered slug n) in
      ground (arith, rank_mono n, above_mono slug n taken, found)
  | inr other ↦ ground (arith, rank_mono n, above-held slug n taken (rw other at h))
]

free_slug-free :
    (taken : List Text) (slug : Text) (n fuel : ℕ)
    → length (above slug n taken) ≤ fuel
    → holds taken (plan_name (free_slug taken slug n fuel)) ≡ false
unfolding free_slug
free_slug-free taken slug n zero h = elim (Bool-cases (holds taken (plan_name (numbered slug n)))) [
  | inl held ↦ absurd (omega (arith, above-held slug n taken held, h))
  | inr free ↦ free
]
free_slug-free taken slug n (suc fuel) h =
    if_ind (λ s. holds taken (plan_name s) ≡ false) (holds taken (plan_name (numbered slug n)))
      (λ held.
        free_slug-free taken slug (suc n) fuel (omega (arith, above-held slug n taken held, h)))
      (λ free. free)

-- Whatever names the plans directory has, the loop over the suffixes ends within as many steps as there
-- are names, at a slug whose plan file does not exist.
pub new_slug-free :
    (taken : List Text) (slug : Text) → holds taken (plan_name (new_slug taken slug)) ≡ false
unfolding new_slug
new_slug-free taken slug =
    if_ind (λ s. holds taken (plan_name s) ≡ false) (holds taken (plan_name slug))
      (λ held. free_slug-free taken slug 2 (length taken) (length-select-le _ taken)) (λ free. free)
