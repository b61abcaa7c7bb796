-- ===== src/Persistence/Sorting.antt =====
-- How a selection and an order of rows, Persistence/Tables, go together.
use jungle_challenge.Common.{
  ℕ, zero, suc, ◌≡◌, refl, sym, ◌∙◌, ap, Bool, true, false, ◌&&◌, List, [], ◌∷◌, ◌++◌,
  if◌then◌else◌, Bool-cases, inl, inr, arith, ltb,
}
use jungle_challenge.Common.Lists.{length}
use jungle_challenge.Persistence.Rows.{All, All-weaken, All-select_rows, All-insert_row}
use jungle_challenge.Persistence.Tables.{select_rows, insert_row, sort_rows, take}

module _ {A : Type 0} where
  pub select_rows-both :
      (p q : A → Bool) (xs : List A)
      → select_rows (λ x. p x && q x) xs ≡ select_rows q (select_rows p xs)
  select_rows-both p q [] = refl
  select_rows-both p q (x ∷ xs) = elim (Bool-cases (p x)) [
    | inl e ↦ elim (Bool-cases (q x)) [
      | inl f ↦ rw e (rw f (ap (λ r. x ∷ r) (select_rows-both p q xs)))
      | inr f ↦ rw e (rw f (select_rows-both p q xs))
    ]
    | inr e ↦ rw e (select_rows-both p q xs)
  ]

  pub select_rows-All :
      (q : A → Bool) (xs : List A) → All (λ x. q x ≡ true) xs → select_rows q xs ≡ xs
  select_rows-All q [] h = refl
  select_rows-All q (x ∷ xs) (e, h) = rw e (ap (λ r. x ∷ r) (select_rows-All q xs h))

  pub All-middle :
      (P : A → Type 0) (pre : List A) (x : A) (post : List A) → All P (pre ++ (x ∷ post)) → P x
  All-middle P [] x post (p, h) = p
  All-middle P (y ∷ pre) x post (p, h) = All-middle P pre x post h

  -- A limit that is not reached takes everything.
  pub take-short :
      (n : ℕ) (xs : List A) → ltb n (length (take (suc n) xs)) ≡ false → take (suc n) xs ≡ xs
  take-short n [] h = refl
  take-short zero (x ∷ xs) h = cc
  take-short (suc n) (x ∷ xs) h = ap (λ r. x ∷ r) (take-short n xs (ground arith))

module _ {A : Type 0} (before : A → A → Bool) where
  abbrev pub IsSorted : List A → Type 0
  IsSorted [] = Unit
  IsSorted (x ∷ xs) = All (λ y. before x y ≡ true) xs × IsSorted xs

  insert_row-first :
      (x : A) (ys : List A) → All (λ y. before x y ≡ true) ys → insert_row before x ys ≡ x ∷ ys
  insert_row-first x [] h = refl
  insert_row-first x (y ∷ ys) (e, h) = rw e refl

  module _ (total : (a b : A) → before a b ≡ false → before b a ≡ true)
      (trans : (a b c : A) → before a b ≡ true → before b c ≡ true → before a c ≡ true) where
    insert_row-IsSorted : (x : A) (ys : List A) → IsSorted ys → IsSorted (insert_row before x ys)
    insert_row-IsSorted x [] s = (tt, tt)
    insert_row-IsSorted x (y ∷ ys) (h, s) = elim (Bool-cases (before x y)) [
      | inl e ↦ rw e ((e, All-weaken (λ z k. trans x y z e k) ys h), (h, s))
      | inr e ↦ rw e (All-insert_row _ before x ys (total x y e) h, insert_row-IsSorted x ys s)
    ]

    pub sort_rows-IsSorted : (xs : List A) → IsSorted (sort_rows before xs)
    sort_rows-IsSorted [] = tt
    sort_rows-IsSorted (x ∷ xs) =
        insert_row-IsSorted x (sort_rows before xs) (sort_rows-IsSorted xs)

    select_rows-insert_row :
        (p : A → Bool) (x : A) (ys : List A)
        → IsSorted ys
        → select_rows p (insert_row before x ys)
          ≡ (if p x then insert_row before x (select_rows p ys) else select_rows p ys)
    select_rows-insert_row p x [] s = refl
    select_rows-insert_row p x (y ∷ ys) (h, s) = elim (Bool-cases (before x y)) [
      | inl e ↦
          let first =
            insert_row-first x (select_rows p (y ∷ ys))
              (All-select_rows _ p (y ∷ ys) (e, All-weaken (λ z k. trans x y z e k) ys h)) in
          rw e (rw first refl)
      | inr e ↦ let ih = select_rows-insert_row p x ys s in ground (arith, e, ih)
    ]

    pub sort_rows-select_rows :
        (p : A → Bool) (xs : List A)
        → sort_rows before (select_rows p xs) ≡ select_rows p (sort_rows before xs)
    sort_rows-select_rows p [] = refl
    sort_rows-select_rows p (x ∷ xs) =
        let step = select_rows-insert_row p x (sort_rows before xs) (sort_rows-IsSorted xs) in
        elim (Bool-cases (p x)) [
          | inl e ↦
              rw e (ap (insert_row before x) (sort_rows-select_rows p xs) ∙ sym (rw e at step))
          | inr e ↦ rw e (sort_rows-select_rows p xs ∙ sym (rw e at step))
        ]
