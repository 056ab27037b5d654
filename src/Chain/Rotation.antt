-- ===== src/Chain/Rotation.antt =====
-- Lists read in a circle.
use native.Mathlib.Nat.{mod-eq_of_lt, add-mod_right}
use mathlib.Core.List.{Perm, append-nil}
use mathlib.Core.List.Perm
use cmt_top.Base.{
  ℕ, zero, suc, ◌+◌, ◌-◌, ◌%◌, ◌<◌, ◌≤◌, ◌≡◌, refl, sym, ap, ◌∙◌, subst, inl, inr, List, [], ◌∷◌,
  ◌++◌, some, arith, length, drop, length-drop, ◌⊎◌, length-append,
}
use cmt_top.Chain.Pool.{nth}

lt-or-le : (a b : ℕ) → (a < b) ⊎ (b ≤ a)
lt-or-le a b = ground arith

mod_once : (a n : ℕ) → n ≤ a → a < n + n → a % n ≡ a - n
mod_once a n l h =
    let e : a ≡ a - n + n = omega arith in
    ap (λ x. x % n) e ∙ add-mod_right (a - n) n ∙ mod-eq_of_lt (omega arith)

module _ {ℓ} {A : Type ℓ} where
  abbrev pub front : ℕ → List A → List A
  front zero xs = []
  front (suc n) [] = []
  front (suc n) (x ∷ xs) = x ∷ front n xs

  front-drop : (n : ℕ) (xs : List A) → front n xs ++ drop n xs ≡ xs
  front-drop zero xs = refl
  front-drop (suc n) [] = refl
  front-drop (suc n) (x ∷ xs) = ap (λ l. x ∷ l) (front-drop n xs)

  nth-front : (k n : ℕ) (xs : List A) → k < n → nth k (front n xs) ≡ nth k xs
  nth-front k zero xs l = absurd (omega arith)
  nth-front k (suc n) [] l = refl
  nth-front zero (suc n) (x ∷ xs) l = refl
  nth-front (suc k) (suc n) (x ∷ xs) l = nth-front k n xs (omega arith)

  nth-drop : (k n : ℕ) (xs : List A) → nth k (drop n xs) ≡ nth (n + k) xs
  nth-drop k zero xs = let e : k ≡ 0 + k = omega arith in ap (λ i. nth i xs) e
  nth-drop k (suc n) [] = refl
  nth-drop k (suc n) (x ∷ xs) =
      nth-drop k n xs
      ∙ (let e : suc (n + k) ≡ suc n + k = omega arith in ap (λ i. nth i (x ∷ xs)) e)

  nth-append_front : (k : ℕ) (xs ys : List A) → k < length xs → nth k (xs ++ ys) ≡ nth k xs
  nth-append_front k [] ys l = absurd (omega arith)
  nth-append_front zero (x ∷ xs) ys l = refl
  nth-append_front (suc k) (x ∷ xs) ys l = nth-append_front k xs ys (omega arith)

  nth-append_back :
      (k : ℕ) (xs ys : List A) → length xs ≤ k → nth k (xs ++ ys) ≡ nth (k - length xs) ys
  nth-append_back k [] ys l = let e : k ≡ k - 0 = omega arith in ap (λ i. nth i ys) e
  nth-append_back zero (x ∷ xs) ys l = absurd (omega arith)
  nth-append_back (suc k) (x ∷ xs) ys l =
      nth-append_back k xs ys (omega arith)
      ∙ (let e : k - length xs ≡ suc k - suc (length xs) = omega arith in ap (λ i. nth i ys) e)

  nth-below : (k : ℕ) (xs : List A) → k < length xs → (x : A) × (nth k xs ≡ some x)
  nth-below k [] l = absurd (omega arith)
  nth-below zero (x ∷ xs) l = (x, refl)
  nth-below (suc k) (x ∷ xs) l = nth-below k xs (omega arith)

  -- A list from a place on, and then from its start.
  unfoldable pub rotation : ℕ → List A → List A
  rotation s xs = drop s xs ++ front s xs

  length-front : (n : ℕ) (xs : List A) → n ≤ length xs → length (front n xs) ≡ n
  length-front zero xs l = refl
  length-front (suc n) [] l = omega arith
  length-front (suc n) (x ∷ xs) l = omega (arith, length-front n xs)

  to_front-Perm : (x : A) (xs ys : List A) → Perm (xs ++ x ∷ ys) (x ∷ xs ++ ys)
  to_front-Perm x [] ys = Perm.refl (x ∷ ys)
  to_front-Perm x (y ∷ xs) ys =
      Perm.trans (Perm.cons y (to_front-Perm x xs ys)) (Perm.swap x y (xs ++ ys))

  swap-Perm : (xs ys : List A) → Perm (xs ++ ys) (ys ++ xs)
  swap-Perm [] ys = subst (Perm ys) (sym (append-nil ys)) (Perm.refl ys)
  swap-Perm (x ∷ xs) ys =
      Perm.trans (Perm.cons x (swap-Perm xs ys)) (Perm.symm (to_front-Perm x ys xs))

  pub rotation-Perm : (s : ℕ) (xs : List A) → Perm (rotation s xs) xs
  unfolding rotation
  rotation-Perm s xs =
      subst (λ l. Perm (rotation s xs) l) (front-drop s xs) (swap-Perm (drop s xs) (front s xs))

  pub nth-rotation :
      (s k : ℕ) (xs : List A)
      → s < length xs
      → k < length xs
      → nth k (rotation s xs) ≡ nth ((s + k) % length xs) xs
  unfolding rotation
  nth-rotation s k xs l m =
      let n : ℕ = length xs in
      let back : length (drop s xs) ≡ n - s = length-drop s xs in
      elim (lt-or-le (s + k) n) [
        | inl below ↦
            nth-append_front k (drop s xs) (front s xs) (omega arith)
            ∙ nth-drop k s xs
            ∙ ap (λ i. nth i xs) (sym (mod-eq_of_lt below))
        | inr over ↦
            let gone : (s + k) % n ≡ s + k - n = mod_once (s + k) n over (omega arith) in
            let at : k - length (drop s xs) ≡ s + k - n = omega arith in
            nth-append_back k (drop s xs) (front s xs) (omega arith)
            ∙ nth-front (k - length (drop s xs)) s xs (omega arith)
            ∙ ap (λ i. nth i xs) (at ∙ sym gone)
      ]

  pub length-rotation : (s : ℕ) (xs : List A) → s < length xs → length (rotation s xs) ≡ length xs
  unfolding rotation
  length-rotation s xs l =
      omega (arith, length-append (drop s xs) (front s xs), length-drop s xs, length-front s xs)
