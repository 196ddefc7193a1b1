-- ===== src/Ledger/Rows.antt =====
-- lib/trading/ledger.ts: rows found and updated by their identifier.
pub mod After
pub mod Has
use cm_desk.Prelude.{
  ℕ, ◌==◌, ◌≡◌, refl, subst, ap, ◌∙◌, Bool, false, none, some, List, [], ◌∷◌, ◌++◌, All, filter,
  Bool-cases, inl, inr, arith,
}
use cm_desk.Prelude.Int.{ℤ, pos, pos_part, neg_part, ◌+ℤ◌, int_laws}
use cm_desk.Ledger.{find, update_where}

pub All-filter {ℓ κ} :
    {A : Type ℓ} (P : A → Type κ) (p : A → Bool) (xs : List A) → All P xs → All P (filter p xs)
All-filter P p [] all = tt
All-filter P p (x ∷ xs) (px, all) = elim (Bool-cases (p x)) [
  | inl h ↦ rw h (px, All-filter P p xs all)
  | inr h ↦ rw h (All-filter P p xs all)
]

pub All-append {ℓ κ} :
    {A : Type ℓ} (P : A → Type κ) (xs ys : List A) → All P xs → All P ys → All P (xs ++ ys)
All-append P [] ys all more = more
All-append P (x ∷ xs) ys (px, all) more = (px, All-append P xs ys all more)

pub All-map {ℓ κ} :
    {A : Type ℓ} (P Q : A → Type κ) (xs : List A) → ((x : A) → P x → Q x) → All P xs → All Q xs
All-map P Q [] f all = tt
All-map P Q (x ∷ xs) f (px, all) = (f x px, All-map P Q xs f all)

-- the sum of a figure over rows
unfoldable pub total {ℓ} : {A : Type ℓ} → (A → ℤ) → List A → ℤ
total g [] = pos 0
total g (x ∷ xs) = g x +ℤ total g xs

pub total-append {ℓ} :
    {A : Type ℓ} (g : A → ℤ) (xs : List A) (y : A) → total g (xs ++ (y ∷ [])) ≡ total g xs +ℤ g y
unfolding total
total-append g [] y = omega int_laws
total-append g (x ∷ xs) y = rw (total-append g xs y) (omega int_laws)

shift_sum : (x a r t f : ℤ) → a +ℤ r ≡ t +ℤ f → x +ℤ a +ℤ r ≡ x +ℤ t +ℤ f
shift_sum x a r t f e = omega (int_laws, ap (λ z. pos_part z) e, ap (λ z. neg_part z) e)

swap_sum : (x y t : ℤ) → x +ℤ t +ℤ y ≡ y +ℤ t +ℤ x
swap_sum x y t = omega int_laws

other : (a b : ℕ) → (b == a) ≡ false → (a == b) ≡ false
other a b d = ground arith

module _ {ℓ} {A : Type ℓ} (key : A → ℕ) where
  abbrev pub Differs : ℕ → A → Type 0
  Differs k x = (key x == k) ≡ false

  -- No two rows have the same key.
  unfoldable pub Distinct : List A → Type 0
  Distinct [] = Unit
  Distinct (x ∷ xs) = All (Differs (key x)) xs × Distinct xs

  update_where-absent :
      (k : ℕ) (f : A → A) (xs : List A)
      → All (Differs k) xs
      → update_where (λ x. key x == k) f xs ≡ xs
  unfolding update_where
  update_where-absent k f [] all = refl
  update_where-absent k f (x ∷ xs) (d, all) = rw (d, update_where-absent k f xs all)

  find-absent : (k : ℕ) (xs : List A) → All (Differs k) xs → find (λ x. key x == k) xs ≡ none
  unfolding find
  find-absent k [] all = refl
  find-absent k (x ∷ xs) (d, all) = rw (d, find-absent k xs all)

  pub find-key :
      (k : ℕ) (xs : List A) (row : A) → find (λ x. key x == k) xs ≡ some row → key row ≡ k
  unfolding find
  find-key k [] row h = cc
  find-key k (x ∷ xs) row h = elim (Bool-cases (key x == k)) [
    | inl same ↦
        let found : some x ≡ some row = rw same at h in
        let one : x ≡ row = cc in subst (λ z. key z ≡ k) one (ground arith)
    | inr other ↦ find-key k xs row (rw other at h)
  ]

  -- The row of a key that is updated is found updated.
  pub find-update_where :
      (k : ℕ) (f : A → A) (xs : List A) (row : A)
      → ((x : A) → key (f x) ≡ key x)
      → find (λ x. key x == k) xs ≡ some row
      → find (λ x. key x == k) (update_where (λ x. key x == k) f xs) ≡ some (f row)
  unfolding find update_where
  find-update_where k f [] row keeps h = cc
  find-update_where k f (x ∷ xs) row keeps h = elim (Bool-cases (key x == k)) [
    | inl same ↦
        let found : some x ≡ some row = rw same at h in
        let one : x ≡ row = cc in rw (same, keeps x, same) (ap (λ z. some (f z)) one)
    | inr other ↦ rw (other, other) (find-update_where k f xs row keeps (rw other at h))
  ]

  -- Among rows with distinct keys, updating one changes a sum by what it changes of that row.
  pub total-update_where :
      (g : A → ℤ) (k : ℕ) (f : A → A) (xs : List A) (row : A)
      → Distinct xs
      → find (λ x. key x == k) xs ≡ some row
      → total g (update_where (λ x. key x == k) f xs) +ℤ g row ≡ total g xs +ℤ g (f row)
  unfolding find update_where total Distinct
  total-update_where g k f [] row distinct h = cc
  total-update_where g k f (x ∷ xs) row (alone, distinct) h = elim (Bool-cases (key x == k)) [
    | inl same ↦
        let found : some x ≡ some row = rw same at h in
        let one : x ≡ row = cc in
        let rest =
          update_where-absent k f xs (subst (λ n. All (Differs n) xs) (ground arith) alone) in
        rw (same, rest, one) (swap_sum (g (f row)) (g row) (total g xs))
    | inr other ↦
        let tail = total-update_where g k f xs row distinct (rw other at h) in
        rw other (shift_sum (g x) _ (g row) (total g xs) (g (f row)) tail)
  ]

  find-append :
      (k : ℕ) (xs : List A) (row : A)
      → All (Differs k) xs
      → find (λ x. key x == k) (xs ++ (row ∷ [])) ≡ find (λ x. key x == k) (row ∷ [])
  unfolding find
  find-append k [] row all = refl
  find-append k (x ∷ xs) row (d, all) = rw (d, find-append k xs row all)

  -- A row that is added under a key that no row has is found.
  pub find-added :
      (k : ℕ) (xs : List A) (row : A)
      → All (Differs k) xs
      → key row ≡ k
      → find (λ x. key x == k) (xs ++ (row ∷ [])) ≡ some row
  unfolding find
  find-added k xs row all e = find-append k xs row all ∙ found
    where
      found : find (λ x. key x == k) (row ∷ []) ≡ some row
      found = ground arith

  pub Distinct-added :
      (xs : List A) (row : A)
      → Distinct xs
      → All (Differs (key row)) xs
      → Distinct (xs ++ (row ∷ []))
  unfolding Distinct
  Distinct-added [] row distinct all = (tt, tt)
  Distinct-added (x ∷ xs) row (alone, distinct) (d, all) = (
    All-append (Differs (key x)) xs (row ∷ []) alone (ground arith, tt),
    Distinct-added xs row distinct all,
  )

  pub All-update_where {κ} :
      (P : A → Type κ) (p : A → Bool) (f : A → A) (xs : List A)
      → ((x : A) → P x → P (f x))
      → All P xs
      → All P (update_where p f xs)
  unfolding update_where
  All-update_where P p f [] keeps all = tt
  All-update_where P p f (x ∷ xs) keeps (px, all) = elim (Bool-cases (p x)) [
    | inl h ↦ rw h (keeps x px, All-update_where P p f xs keeps all)
    | inr h ↦ rw h (px, All-update_where P p f xs keeps all)
  ]

  pub Distinct-update_where :
      (p : A → Bool) (f : A → A) (xs : List A)
      → ((x : A) → key (f x) ≡ key x)
      → Distinct xs
      → Distinct (update_where p f xs)
  unfolding update_where Distinct
  Distinct-update_where p f [] keeps distinct = tt
  Distinct-update_where p f (x ∷ xs) keeps (alone, distinct) = elim (Bool-cases (p x)) [
    | inl h ↦
        rw (h, keeps x)
          (
            All-update_where (Differs (key x)) p f xs (λ y d. rw (keeps y) d) alone,
            Distinct-update_where p f xs keeps distinct,
          )
    | inr h ↦ rw h (
      All-update_where (Differs (key x)) p f xs (λ y d. rw (keeps y) d) alone,
      Distinct-update_where p f xs keeps distinct,
    )
  ]

  found_below :
      (x : A) (xs ys : List A)
      → All (λ row. find (λ y. key y == key row) xs ≡ some row) ys
      → All (Differs (key x)) ys
      → All (λ row. find (λ y. key y == key row) (x ∷ xs) ≡ some row) ys
  unfolding find
  found_below x xs [] found apart = tt
  found_below x xs (y ∷ ys) (e, found) (d, apart) =
      (rw (other (key x) (key y) d) e, found_below x xs ys found apart)

  -- Every row of a list with distinct keys is the one that its key finds.
  pub Distinct-find :
      (xs : List A) → Distinct xs → All (λ row. find (λ x. key x == key row) xs ≡ some row) xs
  unfolding Distinct find
  Distinct-find [] distinct = tt
  Distinct-find (x ∷ xs) (alone, distinct) =
      (ground arith, found_below x xs xs (Distinct-find xs distinct) alone)
