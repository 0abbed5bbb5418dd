-- ===== src/Lists.antt =====
-- Vectors and slices of the Rust code as lists: their length, the first elements, the rest, a search
-- and a test of all elements, over native numbers.
use open_code_server.Base.{
  ℕ, zero, suc, ◌+◌, ◌≤◌, ◌≡◌, refl, ap, Bool, true, ◌&&◌, List, [], ◌∷◌, ◌++◌, arith,
  if◌then◌else◌,
}

module _ {ℓ} {A : Type ℓ} where
  unfoldable pub length : List A → ℕ
  length [] = 0
  length (x ∷ xs) = 1 + length xs

  -- `&xs[..n]`, for any `n`.
  unfoldable pub take : ℕ → List A → List A
  take zero xs = []
  take (suc n) [] = []
  take (suc n) (x ∷ xs) = x ∷ take n xs

  -- `&xs[n..]`, for any `n`.
  unfoldable pub drop : ℕ → List A → List A
  drop zero xs = xs
  drop (suc n) [] = []
  drop (suc n) (x ∷ xs) = drop n xs

  -- `xs.iter().all(test)`
  unfoldable pub all : (A → Bool) → List A → Bool
  all test [] = true
  all test (x ∷ xs) = test x && all test xs

  -- `xs.retain(test)`
  unfoldable pub retain : (A → Bool) → List A → List A
  retain test [] = []
  retain test (x ∷ xs) = let rest = retain test xs in if test x then x ∷ rest else rest

  pub length-append : (xs ys : List A) → length (xs ++ ys) ≡ length xs + length ys
  unfolding length
  length-append [] ys = omega arith
  length-append (x ∷ xs) ys = ground (arith, length-append xs ys)

  pub length-take : (n : ℕ) (xs : List A) → length (take n xs) ≤ n
  unfolding length take
  length-take zero xs = omega arith
  length-take (suc n) [] = omega arith
  length-take (suc n) (x ∷ xs) = ground (arith, length-take n xs)

  pub length-take_le : (n : ℕ) (xs : List A) → length (take n xs) ≤ length xs
  unfolding length take
  length-take_le zero xs = omega arith
  length-take_le (suc n) [] = omega arith
  length-take_le (suc n) (x ∷ xs) = ground (arith, length-take_le n xs)

  pub append_assoc : (xs ys zs : List A) → (xs ++ ys) ++ zs ≡ xs ++ (ys ++ zs)
  append_assoc [] ys zs = refl
  append_assoc (x ∷ xs) ys zs = ap (λ l. x ∷ l) (append_assoc xs ys zs)

  pub take-drop : (n : ℕ) (xs : List A) → take n xs ++ drop n xs ≡ xs
  unfolding take drop
  take-drop zero xs = refl
  take-drop (suc n) [] = refl
  take-drop (suc n) (x ∷ xs) = ap (λ ys. x ∷ ys) (take-drop n xs)

  pub length-retain : (test : A → Bool) (xs : List A) → length (retain test xs) ≤ length xs
  unfolding length retain
  length-retain test [] = omega arith
  length-retain test (x ∷ xs) = ground (arith, length-retain test xs)

  pub all-retain :
      (keep test : A → Bool) (xs : List A) → all test xs ≡ true → all test (retain keep xs) ≡ true
  unfolding all retain
  all-retain keep test [] h = refl
  all-retain keep test (x ∷ xs) h = ground (arith, all-retain keep test xs)

  pub all-append :
      (test : A → Bool) (xs : List A) (y : A)
      → all test xs ≡ true
      → test y ≡ true
      → all test (xs ++ (y ∷ [])) ≡ true
  unfolding all
  all-append test [] y h g = ground arith
  all-append test (x ∷ xs) y h g = ground (arith, all-append test xs y)

  pub all-retain_self : (test : A → Bool) (xs : List A) → all test (retain test xs) ≡ true
  unfolding all retain
  all-retain_self test [] = refl
  all-retain_self test (x ∷ xs) = ground (arith, all-retain_self test xs)

  -- Lists that begin with parts of one length agree on these and on the rest.
  pub append_split :
      (xs ys rest rest' : List A)
      → length xs ≡ length ys
      → xs ++ rest ≡ ys ++ rest'
      → (xs ≡ ys) × (rest ≡ rest')
  unfolding length
  append_split [] [] rest rest' h e = (refl, e)
  append_split [] (y ∷ ys) rest rest' h e = absurd (omega arith)
  append_split (x ∷ xs) [] rest rest' h e = absurd (omega arith)
  append_split (x ∷ xs) (y ∷ ys) rest rest' h e = ground (arith, append_split xs ys rest rest')
