-- ===== src/Base/Lists.antt =====
-- Lists measured and indexed by native numbers, and the sort of `sort.Slice`.
use Prim.Native.Nat.{ℕ, zero, suc, ◌+◌, ◌-◌, ◌≤◌}
use mathlib.Core.Path.{◌≡◌, refl, sym, ap, ◌∙◌}
use mathlib.Core.Bool.{Bool, true, false, ◌||◌}
use mathlib.Core.List.{List, [], ◌∷◌, ◌++◌, Perm}
use mathlib.Core.List.Perm
use mathlib.Core.Option.{Option, none, some}
use native.Mathlib.Omega.{arith}
use cmt_top.Base.Tests.{if◌then◌else◌}

module _ {ℓ} {A : Type ℓ} where
  abbrev pub length : List A → ℕ
  length [] = 0
  length (x ∷ xs) = suc (length xs)

  abbrev pub drop : ℕ → List A → List A
  drop zero xs = xs
  drop (suc n) [] = []
  drop (suc n) (x ∷ xs) = drop n xs

  -- The last element, `l[len(l)-1]`.
  abbrev pub last? : List A → Option A
  last? [] = none
  last? (x ∷ []) = some x
  last? (x ∷ y ∷ l) = last? (y ∷ l)

  -- `l[len(l)-n:]` where the list is longer than `n`, and `l` otherwise.
  abbrev pub keep_last : ℕ → List A → List A
  keep_last n l = drop (length l - n) l

  abbrev pub any_of : (A → Bool) → List A → Bool
  any_of p [] = false
  any_of p (x ∷ xs) = p x || any_of p xs

  abbrev pub keep : (A → Bool) → List A → List A
  keep p [] = []
  keep p (x ∷ xs) = let rest = keep p xs in if p x then x ∷ rest else rest

  abbrev pub insert_by : (A → A → Bool) → A → List A → List A
  insert_by less x [] = x ∷ []
  insert_by less x (y ∷ ys) =
      let rest = insert_by less x ys in if less x y then x ∷ y ∷ ys else y ∷ rest

  -- `sort.Slice`: the order by `less`, which every caller makes total on what it sorts.
  unfoldable pub sort_by : (A → A → Bool) → List A → List A
  sort_by less [] = []
  sort_by less (x ∷ xs) = insert_by less x (sort_by less xs)

  abbrev pub All {κ} : (A → Type κ) → List A → Type κ
  All P [] = Unit
  All P (x ∷ xs) = P x × All P xs

  pub length-append : (xs ys : List A) → length (xs ++ ys) ≡ length xs + length ys
  length-append [] ys = omega arith
  length-append (x ∷ xs) ys = omega (arith, length-append xs ys)

  pub length-drop : (n : ℕ) (xs : List A) → length (drop n xs) ≡ length xs - n
  length-drop zero xs = omega arith
  length-drop (suc n) [] = omega arith
  length-drop (suc n) (x ∷ xs) = omega (arith, length-drop n xs)

  pub length-keep_last-le : (n : ℕ) (xs : List A) → length (keep_last n xs) ≤ n
  length-keep_last-le n xs = omega (arith, length-drop (length xs - n) xs)

  pub length-keep-le : (p : A → Bool) (xs : List A) → length (keep p xs) ≤ length xs
  length-keep-le p [] = omega arith
  length-keep-le p (x ∷ xs) = ground (arith, length-keep-le p xs)

  length-insert_by :
      (less : A → A → Bool) (x : A) (xs : List A) → length (insert_by less x xs) ≡ suc (length xs)
  length-insert_by less x [] = refl
  length-insert_by less x (y ∷ ys) = ground (arith, length-insert_by less x ys)

  insert_by-perm : (less : A → A → Bool) (x : A) (xs : List A) → Perm (insert_by less x xs) (x ∷ xs)
  insert_by-perm less x [] = Perm.refl (x ∷ [])
  insert_by-perm less x (y ∷ ys) = ground (
    arith,
    Perm.refl (x ∷ y ∷ ys),
    Perm.trans (Perm.cons y (insert_by-perm less x ys)) (Perm.swap x y ys),
  )

  -- Sorting keeps every element.
  pub sort_by-perm : (less : A → A → Bool) (xs : List A) → Perm (sort_by less xs) xs
  unfolding sort_by
  sort_by-perm less [] = Perm.refl []
  sort_by-perm less (x ∷ xs) =
      Perm.trans (insert_by-perm less x (sort_by less xs)) (Perm.cons x (sort_by-perm less xs))

  -- What inserting keeps, the sorted list has.
  pub sort_by-keeps {κ} :
      (P : List A → Type κ) (less : A → A → Bool)
      → P []
      → ((x : A) (xs : List A) → P xs → P (insert_by less x xs))
      → (xs : List A) → P (sort_by less xs)
  unfolding sort_by
  sort_by-keeps P less n c [] = n
  sort_by-keeps P less n c (x ∷ xs) = c x (sort_by less xs) (sort_by-keeps P less n c xs)

  insert_by-All {κ} :
      (P : A → Type κ) (less : A → A → Bool) (x : A) (xs : List A)
      → P x
      → All P xs
      → All P (insert_by less x xs)
  insert_by-All P less x [] p a = (p, tt)
  insert_by-All P less x (y ∷ ys) p a =
      elim (less x y) as (λ b. All P (if b then x ∷ y ∷ ys else y ∷ insert_by less x ys)) [
        | true ↦ (p, a)
        | false ↦ (a.0, insert_by-All P less x ys p a.1)
      ]

  pub sort_by-All {κ} :
      (P : A → Type κ) (less : A → A → Bool) (xs : List A) → All P xs → All P (sort_by less xs)
  unfolding sort_by
  sort_by-All P less [] a = tt
  sort_by-All P less (x ∷ xs) a =
      insert_by-All P less x (sort_by less xs) a.0 (sort_by-All P less xs a.1)

  pub All-keep {κ} : (P : A → Type κ) (p : A → Bool) (xs : List A) → All P xs → All P (keep p xs)
  All-keep P p [] h = tt
  All-keep P p (x ∷ xs) h = ground (arith, All-keep P p xs h.1)

  pub All-append {κ} :
      (P : A → Type κ) (front back : List A) → All P back → All P front → All P (front ++ back)
  All-append P [] back b f = b
  All-append P (first ∷ front) back b f = (f.0, All-append P front back b f.1)

  pub All-drop {κ} : (P : A → Type κ) (n : ℕ) (xs : List A) → All P xs → All P (drop n xs)
  All-drop P zero xs h = h
  All-drop P (suc n) [] h = tt
  All-drop P (suc n) (x ∷ xs) h = All-drop P n xs h.1

  drop-append : (n : ℕ) (xs ys : List A) → n ≤ length xs → drop n xs ++ ys ≡ drop n (xs ++ ys)
  drop-append zero xs ys h = refl
  drop-append (suc n) [] ys h = absurd (omega arith)
  drop-append (suc n) (x ∷ xs) ys h = drop-append n xs ys (omega arith)

  drop-nil : (n : ℕ) → drop n [] ≡ []
  drop-nil zero = refl
  drop-nil (suc n) = refl

  drop-drop : (m n k : ℕ) (xs : List A) → k ≡ n + m → drop m (drop n xs) ≡ drop k xs
  drop-drop m zero k xs e = ap (λ j. drop j xs) (omega arith)
  drop-drop m (suc n) k [] e = drop-nil m ∙ sym (drop-nil k)
  drop-drop m (suc n) zero (x ∷ xs) e = absurd (omega arith)
  drop-drop m (suc n) (suc k) (x ∷ xs) e = drop-drop m n k xs (omega arith)

  -- What is kept of a list that is cut before it grows is what is kept of the whole.
  pub keep_last-append :
      (n : ℕ) (xs ys : List A) → keep_last n (keep_last n xs ++ ys) ≡ keep_last n (xs ++ ys)
  keep_last-append n xs ys =
      let k : ℕ = length xs - n in
      let cut : drop k xs ++ ys ≡ drop k (xs ++ ys) = drop-append k xs ys (omega arith) in
      ap (keep_last n) cut
      ∙ drop-drop (length (drop k (xs ++ ys)) - n) k (length (xs ++ ys) - n) (xs ++ ys)
          (omega (arith, length-append xs ys, length-drop k (xs ++ ys)))

  pub keep_last-fits : (n : ℕ) (xs : List A) → length xs ≤ n → keep_last n xs ≡ xs
  keep_last-fits n xs h = let e : length xs - n ≡ 0 = omega arith in ap (λ k. drop k xs) e

  pub keep_last-over : (n : ℕ) (xs : List A) → length xs ≡ n + 1 → keep_last n xs ≡ drop 1 xs
  keep_last-over n xs h = let e : length xs - n ≡ 1 = omega arith in ap (λ k. drop k xs) e

  -- A fold that does not mind the order is the same over a list and over the list sorted.
  module _ {κ} {B : Type κ} (f : List A → B) (step : A → B → B) where
    insert_by-fold :
        (swaps : (x y : A) (b : B) → step x (step y b) ≡ step y (step x b))
        (folds : (x : A) (xs : List A) → f (x ∷ xs) ≡ step x (f xs)) (less : A → A → Bool) (x : A)
        (xs : List A)
        → f (insert_by less x xs) ≡ step x (f xs)
    insert_by-fold swaps folds less x [] = folds x []
    insert_by-fold swaps folds less x (y ∷ ys) =
        let later : f (y ∷ insert_by less x ys) ≡ step x (f (y ∷ ys)) =
          folds y (insert_by less x ys)
          ∙ ap (step y) (insert_by-fold swaps folds less x ys)
          ∙ swaps y x (f ys)
          ∙ ap (step x) (sym (folds y ys)) in
        elim (less x y)
          as (λ b. f (if b then x ∷ y ∷ ys else y ∷ insert_by less x ys) ≡ step x (f (y ∷ ys))) [
            | true ↦ folds x (y ∷ ys)
            | false ↦ later
          ]

    pub sort_by-fold :
        (swaps : (x y : A) (b : B) → step x (step y b) ≡ step y (step x b))
        (folds : (x : A) (xs : List A) → f (x ∷ xs) ≡ step x (f xs)) (less : A → A → Bool)
        (xs : List A)
        → f (sort_by less xs) ≡ f xs
    unfolding sort_by
    sort_by-fold swaps folds less [] = refl
    sort_by-fold swaps folds less (x ∷ xs) =
        insert_by-fold swaps folds less x (sort_by less xs)
        ∙ ap (step x) (sort_by-fold swaps folds less xs)
        ∙ sym (folds x xs)
