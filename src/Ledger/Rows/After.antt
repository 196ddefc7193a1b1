-- ===== src/Ledger/Rows/After.antt =====
-- lib/trading/ledger.ts: a row of a table after the update of one row.
use cm_desk.Prelude.{
  ℕ, ◌==◌, ◌≡◌, refl, subst, sym, Bool, true, false, none, some, List, [], ◌∷◌, All, ◌<◌, ap, ◌∙◌,
  Bool-cases, inl, inr, arith, if◌then◌else◌,
}
use cm_desk.Ledger.{find, update_where}

-- An update by identifier, seen at an identifier.
pub find-after_update {ℓ} :
    {A : Type ℓ} (key : A → ℕ) (k j : ℕ) (f : A → A) (xs : List A) (row : A)
    → ((x : A) → key (f x) ≡ key x)
    → find (λ x. key x == j) xs ≡ some row
    → find (λ x. key x == j) (update_where (λ x. key x == k) f xs)
      ≡ some (if key row == k then f row else row)
unfolding find update_where
find-after_update key k j f [] row keeps h = cc
find-after_update key k j f (x ∷ xs) row keeps h = elim (Bool-cases (key x == j)) [
  | inl same ↦
      let found : some x ≡ some row = rw same at h in
      let one : x ≡ row = cc in
      elim (Bool-cases (key x == k)) [
        | inl hit ↦
            rw (hit, keeps x, same)
              (subst (λ z. some (f x) ≡ some (if key z == k then f z else z)) one (rw hit refl))
        | inr miss ↦
            rw (miss, same)
              (subst (λ z. some x ≡ some (if key z == k then f z else z)) one (rw miss refl))
      ]
  | inr other ↦
      let tail = find-after_update key k j f xs row keeps (rw other at h) in
      elim (Bool-cases (key x == k)) [
        | inl hit ↦ rw (hit, keeps x, other) tail
        | inr miss ↦ rw (miss, other) tail
      ]
]

pub find-update_other {ℓ} :
    {A : Type ℓ} (key : A → ℕ) (k j : ℕ) (f : A → A) (xs : List A)
    → ((x : A) → key (f x) ≡ key x)
    → (j == k) ≡ false
    → find (λ x. key x == j) (update_where (λ x. key x == k) f xs) ≡ find (λ x. key x == j) xs
unfolding find update_where
find-update_other key k j f [] keeps apart = refl
find-update_other key k j f (x ∷ xs) keeps apart =
    let rest = find-update_other key k j f xs keeps apart in
    elim (Bool-cases (key x == k)) [
      | inl hit ↦ let other : (key x == j) ≡ false = ground arith in rw (hit, keeps x, other) rest
      | inr miss ↦ elim (Bool-cases (key x == j)) [
        | inl here ↦ rw (miss, here) refl
        | inr other ↦ rw (miss, other) rest
      ]
    ]

-- Where every updated row passes a test, the first row that passes it after the update is an updated one,
-- if the first one before it was, or if there was none and some row is updated.
module _ {ℓ} {A : Type ℓ} (p q : A → Bool) (f : A → A) (passes : (x : A) → p (f x) ≡ true) where
  pub find-updated :
      (xs : List A) (row : A)
      → find p xs ≡ some row
      → q row ≡ true
      → (x : A) × (find p (update_where q f xs) ≡ some (f x))
  unfolding find update_where
  find-updated [] row h hit = absurd (cc)
  find-updated (x ∷ xs) row h hit = elim (Bool-cases (q x)) [
    | inl chosen ↦ (x, rw (chosen, passes x) refl)
    | inr left ↦ elim (Bool-cases (p x)) [
      | inl first ↦
          let found : some x ≡ some row = rw first at h in
          let one : x ≡ row = cc in
          let clash : q x ≡ true = subst (λ z. q z ≡ true) (sym one) hit in absurd (cc)
      | inr other ↦ let (y, e) = find-updated xs row (rw other at h) hit in (y, rw (left, other) e)
    ]
  ]

  pub find-updated_new :
      (xs : List A) (row : A)
      → find p xs ≡ none
      → find q xs ≡ some row
      → (x : A) × (find p (update_where q f xs) ≡ some (f x))
  unfolding find update_where
  find-updated_new [] row h hit = absurd (cc)
  find-updated_new (x ∷ xs) row h hit = elim (Bool-cases (p x)) [
    | inl first ↦ let found : some x ≡ none = rw first at h in absurd (cc)
    | inr other ↦ elim (Bool-cases (q x)) [
      | inl chosen ↦ (x, rw (chosen, passes x) refl)
      | inr left ↦
          let (y, e) = find-updated_new xs row (rw other at h) (rw left at hit) in
          (y, rw (left, other) e)
    ]
  ]

-- An update of some rows, seen through a test that it keeps.
pub find-under_update {ℓ} :
    {A : Type ℓ} (p q : A → Bool) (f : A → A) (xs : List A) (row : A)
    → ((x : A) → p (f x) ≡ p x)
    → find p xs ≡ some row
    → find p (update_where q f xs) ≡ some (if q row then f row else row)
unfolding find update_where
find-under_update p q f [] row keeps h = cc
find-under_update p q f (x ∷ xs) row keeps h = elim (Bool-cases (p x)) [
  | inl same ↦
      let found : some x ≡ some row = rw same at h in
      let one : x ≡ row = cc in
      subst (λ z. find p (update_where q f (x ∷ xs)) ≡ some (if q z then f z else z)) one
        (elim (Bool-cases (q x)) [
          | inl hit ↦ rw (hit, keeps x, same) refl
          | inr miss ↦ rw (miss, same) refl
        ])
  | inr other ↦
      let tail = find-under_update p q f xs row keeps (rw other at h) in
      elim (Bool-cases (q x)) [
        | inl patched ↦ rw (patched, keeps x, other) tail
        | inr kept ↦ rw (kept, other) tail
      ]
]

pub find-updated_by {ℓ} :
    {A : Type ℓ} (p q : A → Bool) (f : A → A) (xs : List A) (row : A)
    → ((x : A) → p (f x) ≡ p x)
    → q row ≡ true
    → find p xs ≡ some row
    → find p (update_where q f xs) ≡ some (f row)
find-updated_by p q f xs row keeps hit h =
    find-under_update p q f xs row keeps h ∙ ap (λ b. some (if b then f row else row)) hit

pub find-new_key {ℓ} :
    {A : Type ℓ} (key : A → ℕ) (n : ℕ) (xs : List A)
    → All (λ x. key x < n) xs
    → find (λ x. key x == n) xs ≡ none
unfolding find
find-new_key key n [] below = refl
find-new_key key n (x ∷ xs) (lt, below) =
    let apart : (key x == n) ≡ false = ground arith in rw apart (find-new_key key n xs below)
