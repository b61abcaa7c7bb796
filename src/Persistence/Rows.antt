-- ===== src/Persistence/Rows.antt =====
-- What a property of every row keeps through a query of Persistence/Tables, and keys that no two
-- rows share.
use jungle_challenge.Common.{
  ℕ, zero, suc, Bool, true, ◌≡◌, refl, sym, ◌≢◌, List, [], ◌∷◌, Bool-cases, ◌⊎◌, inl, inr,
}
use jungle_challenge.Persistence.Tables.{select_rows, insert_row, sort_rows, take}

module _ {A : Type 0} where
  abbrev pub All : (A → Type 0) → List A → Type 0
  All P [] = Unit
  All P (x ∷ xs) = P x × All P xs

module _ {A : Type 0} {P : A → Type 0} where
  pub All-weaken : {Q : A → Type 0} → ((x : A) → P x → Q x) → (xs : List A) → All P xs → All Q xs
  All-weaken f [] h = tt
  All-weaken f (x ∷ xs) (p, h) = (f x p, All-weaken f xs h)

  pub All-both :
      {Q R : A → Type 0}
      → ((x : A) → P x → Q x → R x)
      → (xs : List A) → All P xs
      → All Q xs
      → All R xs
  All-both f [] h k = tt
  All-both f (x ∷ xs) (p, h) (q, k) = (f x p q, All-both f xs h k)

module _ {A : Type 0} (P : A → Type 0) where
  pub All-select_rows : (q : A → Bool) (xs : List A) → All P xs → All P (select_rows q xs)
  All-select_rows q [] h = tt
  All-select_rows q (x ∷ xs) (p, h) = elim (Bool-cases (q x)) [
    | inl e ↦ rw e (p, All-select_rows q xs h)
    | inr e ↦ rw e (All-select_rows q xs h)
  ]

  pub All-insert_row :
      (before : A → A → Bool) (x : A) (ys : List A)
      → P x
      → All P ys
      → All P (insert_row before x ys)
  All-insert_row before x [] p h = (p, tt)
  All-insert_row before x (y ∷ ys) p (q, h) = elim (Bool-cases (before x y)) [
    | inl e ↦ rw e (p, (q, h))
    | inr e ↦ rw e (q, All-insert_row before x ys p h)
  ]

  pub All-sort_rows : (before : A → A → Bool) (xs : List A) → All P xs → All P (sort_rows before xs)
  All-sort_rows before [] h = tt
  All-sort_rows before (x ∷ xs) (p, h) =
      All-insert_row before x (sort_rows before xs) p (All-sort_rows before xs h)

  pub All-take : (n : ℕ) (xs : List A) → All P xs → All P (take n xs)
  All-take zero xs h = tt
  All-take (suc n) [] h = tt
  All-take (suc n) (x ∷ xs) (p, h) = (p, All-take n xs h)

  pub All-query :
      (n : ℕ) (before : A → A → Bool) (q : A → Bool) (xs : List A)
      → All P xs
      → All P (take n (sort_rows before (select_rows q xs)))
  All-query n before q xs h =
      All-take n (sort_rows before (select_rows q xs))
        (All-sort_rows before (select_rows q xs) (All-select_rows q xs h))

module _ {A : Type 0} where
  All-selected : (q : A → Bool) (xs : List A) → All (λ x. q x ≡ true) (select_rows q xs)
  All-selected q [] = tt
  All-selected q (x ∷ xs) = elim (Bool-cases (q x)) [
    | inl e ↦ rw e (e, All-selected q xs)
    | inr e ↦ rw e (All-selected q xs)
  ]

  -- The rows of a query meet its condition.
  pub query-holds :
      (n : ℕ) (before : A → A → Bool) (q : A → Bool) (xs : List A)
      → All (λ x. q x ≡ true) (take n (sort_rows before (select_rows q xs)))
  query-holds n before q xs =
      All-take _ n (sort_rows before (select_rows q xs))
        (All-sort_rows _ before (select_rows q xs) (All-selected q xs))

  abbrev pub Present : List A → A → Type 0
  Present [] x = ⊥
  Present (y ∷ ys) x = (y ≡ x) ⊎ Present ys x

  pub All-at : (P : A → Type 0) (xs : List A) (x : A) → All P xs → Present xs x → P x
  All-at P [] x h m = elim m [ ]
  All-at P (y ∷ ys) x (p, h) (inl e) = rw (sym e) p
  All-at P (y ∷ ys) x (p, h) (inr m) = All-at P ys x h m

  pub Present-each : (xs : List A) → All (Present xs) xs
  Present-each [] = tt
  Present-each (x ∷ xs) = (inl refl, All-weaken (λ y m. inr m) xs (Present-each xs))

module _ {A K : Type 0} (key : A → K) where
  -- The other rows have another key.
  abbrev pub Avoid : A → List A → Type 0
  Avoid x xs = All (λ y. key y ≢ key x) xs

  abbrev pub HasUniqueKeys : List A → Type 0
  HasUniqueKeys [] = Unit
  HasUniqueKeys (x ∷ xs) = Avoid x xs × HasUniqueKeys xs

  pub HasUniqueKeys-select_rows :
      (q : A → Bool) (xs : List A) → HasUniqueKeys xs → HasUniqueKeys (select_rows q xs)
  HasUniqueKeys-select_rows q [] u = tt
  HasUniqueKeys-select_rows q (x ∷ xs) (f, u) = elim (Bool-cases (q x)) [
    | inl e ↦ rw e (All-select_rows _ q xs f, HasUniqueKeys-select_rows q xs u)
    | inr e ↦ rw e (HasUniqueKeys-select_rows q xs u)
  ]

  HasUniqueKeys-insert_row :
      (before : A → A → Bool) (x : A) (ys : List A)
      → Avoid x ys
      → HasUniqueKeys ys
      → HasUniqueKeys (insert_row before x ys)
  HasUniqueKeys-insert_row before x [] f u = (tt, tt)
  HasUniqueKeys-insert_row before x (y ∷ ys) (f, g) (h, u) = elim (Bool-cases (before x y)) [
    | inl e ↦ rw e ((f, g), (h, u))
    | inr e ↦
        rw e (
          All-insert_row _ before x ys (λ k. f (sym k)) h,
          HasUniqueKeys-insert_row before x ys g u,
        )
  ]

  pub HasUniqueKeys-sort_rows :
      (before : A → A → Bool) (xs : List A) → HasUniqueKeys xs → HasUniqueKeys (sort_rows before xs)
  HasUniqueKeys-sort_rows before [] u = tt
  HasUniqueKeys-sort_rows before (x ∷ xs) (f, u) =
      HasUniqueKeys-insert_row before x (sort_rows before xs) (All-sort_rows _ before xs f)
        (HasUniqueKeys-sort_rows before xs u)

  HasUniqueKeys-take : (n : ℕ) (xs : List A) → HasUniqueKeys xs → HasUniqueKeys (take n xs)
  HasUniqueKeys-take zero xs u = tt
  HasUniqueKeys-take (suc n) [] u = tt
  HasUniqueKeys-take (suc n) (x ∷ xs) (f, u) = (All-take _ n xs f, HasUniqueKeys-take n xs u)

  pub HasUniqueKeys-query :
      (n : ℕ) (before : A → A → Bool) (q : A → Bool) (xs : List A)
      → HasUniqueKeys xs
      → HasUniqueKeys (take n (sort_rows before (select_rows q xs)))
  HasUniqueKeys-query n before q xs u =
      HasUniqueKeys-take n (sort_rows before (select_rows q xs))
        (HasUniqueKeys-sort_rows before (select_rows q xs) (HasUniqueKeys-select_rows q xs u))

  -- The row of a key is `x`, if there is one.
  abbrev pub IsOnly : List A → A → Type 0
  IsOnly xs x = All (λ y. key y ≡ key x → y ≡ x) xs

  IsOnly-each : (xs : List A) → HasUniqueKeys xs → All (IsOnly xs) xs
  IsOnly-each [] u = tt
  IsOnly-each (x ∷ xs) (f, u) = (
    ((λ _. refl), All-weaken (λ y h e. elim (h e) [ ]) xs f),
    All-both (λ y h k. ((λ e. elim (h (sym e)) [ ]), k)) xs f (IsOnly-each xs u),
  )

  pub IsOnly-query :
      (n : ℕ) (before : A → A → Bool) (q : A → Bool) (xs : List A)
      → HasUniqueKeys xs
      → All (IsOnly xs) (take n (sort_rows before (select_rows q xs)))
  IsOnly-query n before q xs u = All-query _ n before q xs (IsOnly-each xs u)
