-- ===== src/Ng/Guard/Among.antt =====
-- automation/ng/jcode_guard.py: items of a list with a property.
use hngh.Prelude.{
  ◌≡◌, refl, ◌⊎◌, inl, inr, List, [], ◌∷◌, Bool, true, ◌||◌, Bool-cases, All, select,
}

-- An item of the list has the property.
abbrev pub Among : {A : Type 0} → (A → Type 0) → List A → Type 0
Among P [] = ⊥
Among P (x ∷ xs) = P x ⊎ Among P xs

pub Among-map :
    {A : Type 0} (P Q : A → Type 0) (xs : List A) → ((x : A) → P x → Q x) → Among P xs → Among Q xs
Among-map P Q [] f h = h
Among-map P Q (x ∷ xs) f (inl h) = inl (f x h)
Among-map P Q (x ∷ xs) f (inr h) = inr (Among-map P Q xs f h)

pub or_left : {a : Bool} (b : Bool) → a ≡ true → (a || b) ≡ true
or_left b h = rw h refl

pub All-weaken :
    {A : Type 0} (P : A → Type 0) (Q : A → Type 0) (xs : List A)
    → ((x : A) → P x → Q x)
    → All P xs
    → All Q xs
All-weaken P Q [] f h = tt
All-weaken P Q (x ∷ xs) f h = (f x h.0, All-weaken P Q xs f h.1)

pub select-All : {A : Type 0} (p : A → Bool) (xs : List A) → All (λ x. p x ≡ true) (select p xs)
select-All p [] = tt
select-All p (x ∷ xs) = elim (Bool-cases (p x)) [
  | inl e ↦ rw e (e, select-All p xs)
  | inr e ↦ rw e (select-All p xs)
]

pub All-both :
    {A : Type 0} (P : A → Type 0) (xs : List A)
    → All P xs
    → All (λ x. Among (λ q. q ≡ x) xs × P x) xs
All-both P [] h = tt
All-both P (x ∷ xs) h = (
  (inl refl, h.0),
  All-weaken (λ y. Among (λ q. q ≡ y) xs × P y) (λ y. Among (λ q. q ≡ y) (x ∷ xs) × P y) xs
      (λ y both. (inr both.0, both.1)) (All-both P xs h.1),
)
