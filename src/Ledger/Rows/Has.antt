-- ===== src/Ledger/Rows/Has.antt =====
-- lib/trading/ledger.ts: whether a table has a row that passes a test, after rows are added or updated.
use cm_desk.Prelude.{
  suc, ◌≡◌, refl, ap, Bool, true, is_some, List, [], ◌∷◌, ◌++◌, length, Bool-cases, inl, inr,
}
use cm_desk.Ledger.{find, update_where}

abbrev pub has {ℓ} : {A : Type ℓ} → (A → Bool) → List A → Bool
has p xs = is_some (find p xs)

module _ {ℓ} {A : Type ℓ} (p : A → Bool) where
  pub has-added : (xs ys : List A) → has p xs ≡ true → has p (xs ++ ys) ≡ true
  unfolding find
  has-added [] ys h = absurd (cc)
  has-added (x ∷ xs) ys h = elim (Bool-cases (p x)) [
    | inl here ↦ rw here refl
    | inr other ↦ rw other (has-added xs ys (rw other at h))
  ]

  pub has-last : (xs : List A) (y : A) → p y ≡ true → has p (xs ++ (y ∷ [])) ≡ true
  unfolding find
  has-last [] y h = rw h refl
  has-last (x ∷ xs) y h = elim (Bool-cases (p x)) [
    | inl here ↦ rw here refl
    | inr other ↦ rw other (has-last xs y h)
  ]

  pub has-update_where :
      (q : A → Bool) (f : A → A) (xs : List A)
      → ((x : A) → p (f x) ≡ p x)
      → has p (update_where q f xs) ≡ has p xs
  unfolding find update_where
  has-update_where q f [] keeps = refl
  has-update_where q f (x ∷ xs) keeps =
      let rest = has-update_where q f xs keeps in
      elim (Bool-cases (p x)) [
        | inl here ↦ elim (Bool-cases (q x)) [
          | inl hit ↦ rw (hit, keeps x, here) refl
          | inr miss ↦ rw (miss, here) refl
        ]
        | inr other ↦ elim (Bool-cases (q x)) [
          | inl hit ↦ rw (hit, keeps x, other) rest
          | inr miss ↦ rw (miss, other) rest
        ]
      ]

pub length-update_where {ℓ} :
    {A : Type ℓ} (q : A → Bool) (f : A → A) (xs : List A) → length (update_where q f xs) ≡ length xs
unfolding update_where
length-update_where q f [] = refl
length-update_where q f (x ∷ xs) = ap suc (length-update_where q f xs)
