-- ===== src/Prelude/Lists.antt =====
-- Lists under Boolean tests and native lengths, under the library's names.
use Prim.Native.Nat.{ℕ, zero, suc, ◌+◌, ◌-◌, ◌≤◌, min}
use mathlib.Core.Path.{◌≡◌, refl, ap, ◌∙◌}
use mathlib.Core.Bool.{Bool}
use mathlib.Core.Option.{Option, none, some}
use mathlib.Core.List.{List, [], ◌∷◌, ◌++◌, map}
use native.Mathlib.Omega.{arith}
use mathlib.Core.Logic.{inl, inr}
use pid_docs.Prelude.Tests.{if◌then◌else◌, Bool-cases}

-- Every member of the list satisfies `P`.
abbrev pub All {ℓ κ} : {A : Type ℓ} → (A → Type κ) → List A → Type κ
All P [] = Unit
All P (x ∷ xs) = P x × All P xs

module _ {ℓ} {A : Type ℓ} where
  abbrev pub length : List A → ℕ
  length [] = 0
  length (x ∷ xs) = suc (length xs)

  abbrev pub take : ℕ → List A → List A
  take zero xs = []
  take (suc n) [] = []
  take (suc n) (x ∷ xs) = x ∷ take n xs

  abbrev pub drop : ℕ → List A → List A
  drop zero xs = xs
  drop (suc n) [] = []
  drop (suc n) (x ∷ xs) = drop n xs

  abbrev pub find? : (A → Bool) → List A → Option A
  find? p [] = none
  find? p (x ∷ xs) = if p x then some x else find? p xs

  abbrev pub filter : (A → Bool) → List A → List A
  filter p [] = []
  filter p (x ∷ xs) = let rest = filter p xs in if p x then x ∷ rest else rest

  -- `UPDATE ... SET f WHERE p`
  abbrev pub update_where : (A → Bool) → (A → A) → List A → List A
  update_where p f [] = []
  update_where p f (x ∷ xs) = (if p x then f x else x) ∷ update_where p f xs

module _ {ℓ} {A : Type ℓ} where
  pub length-append : (xs ys : List A) → length (xs ++ ys) ≡ length xs + length ys
  length-append [] ys = omega arith
  length-append (x ∷ xs) ys = omega (arith, length-append xs ys)

  pub length-drop : (n : ℕ) (xs : List A) → length (drop n xs) ≡ length xs - n
  length-drop zero xs = omega arith
  length-drop (suc n) [] = omega arith
  length-drop (suc n) (x ∷ xs) = omega (arith, length-drop n xs)

  pub length-take : (n : ℕ) (xs : List A) → length (take n xs) ≡ min n (length xs)
  length-take zero xs = omega arith
  length-take (suc n) [] = omega arith
  length-take (suc n) (x ∷ xs) = omega (arith, length-take n xs)

  pub take-drop : (n : ℕ) (xs : List A) → take n xs ++ drop n xs ≡ xs
  take-drop zero xs = refl
  take-drop (suc n) [] = refl
  take-drop (suc n) (x ∷ xs) = ap (λ (t : List A). x ∷ t) (take-drop n xs)

  pub filter-append :
      (p : A → Bool) (xs ys : List A) → filter p (xs ++ ys) ≡ filter p xs ++ filter p ys
  filter-append p [] ys = refl
  filter-append p (x ∷ xs) ys = ground (arith, filter-append p xs ys)

  pub length-filter-le : (p : A → Bool) (xs : List A) → length (filter p xs) ≤ length xs
  length-filter-le p [] = omega arith
  length-filter-le p (x ∷ xs) = ground (arith, length-filter-le p xs)

  -- An update that changes nothing where it applies is no update.
  pub update_where_idem :
      (p : A → Bool) (f : A → A) (xs : List A)
      → ((a : A) → p (f a) ≡ p a)
      → ((a : A) → f (f a) ≡ f a)
      → update_where p f (update_where p f xs) ≡ update_where p f xs
  update_where_idem p f [] same idem = refl
  update_where_idem p f (x ∷ xs) same idem =
      ground (arith, update_where_idem p f xs same idem, same x, idem x)

suc_add : (m n : ℕ) → suc m + n ≡ suc (m + n)
suc_add m n = omega arith

module _ {ℓ} {A : Type ℓ} where
  pub take_nil : (n : ℕ) → take {A = A} n [] ≡ []
  take_nil zero = refl
  take_nil (suc n) = refl

  pub drop_nil : (n : ℕ) → drop {A = A} n [] ≡ []
  drop_nil zero = refl
  drop_nil (suc n) = refl

  pub drop-drop : (m n : ℕ) (xs : List A) → drop (m + n) xs ≡ drop n (drop m xs)
  drop-drop zero n xs = ap (λ (k : ℕ). drop k xs) (omega arith)
  drop-drop (suc m) n [] = rw (drop_nil (suc m + n)) (rw (drop_nil n))
  drop-drop (suc m) n (x ∷ xs) = ap (λ (k : ℕ). drop k (x ∷ xs)) (suc_add m n) ∙ drop-drop m n xs

  -- The first `m + n` elements are the first `m`, and then the first `n` of the rest.
  pub take-append-drop : (m n : ℕ) (xs : List A) → take (m + n) xs ≡ take m xs ++ take n (drop m xs)
  take-append-drop zero n xs = ap (λ (k : ℕ). take k xs) (omega arith)
  take-append-drop (suc m) n [] = rw (take_nil (suc m + n)) (rw (take_nil n))
  take-append-drop (suc m) n (x ∷ xs) =
      ap (λ (k : ℕ). take k (x ∷ xs)) (suc_add m n)
      ∙ ap (λ (t : List A). x ∷ t) (take-append-drop m n xs)

  pub map-append {κ} :
      {B : Type κ} (f : A → B) (xs ys : List A) → map f (xs ++ ys) ≡ map f xs ++ map f ys
  map-append f [] ys = refl
  map-append {B = B} f (x ∷ xs) ys = ap (λ (t : List B). f x ∷ t) (map-append f xs ys)

  pub length-map {κ} : {B : Type κ} (f : A → B) (xs : List A) → length (map f xs) ≡ length xs
  length-map f [] = refl
  length-map f (x ∷ xs) = ap suc (length-map f xs)

module _ {ℓ κ} {A : Type ℓ} (P : A → Type κ) where
  pub All-append : (xs : List A) (x : A) → All P xs → P x → All P (xs ++ x ∷ [])
  All-append [] x h p = (p, tt)
  All-append (y ∷ xs) x h p = (h.0, All-append xs x h.1 p)

  pub All-filter : (q : A → Bool) (xs : List A) → All P xs → All P (filter q xs)
  All-filter q [] h = tt
  All-filter q (x ∷ xs) h = elim (Bool-cases (q x)) [
    | inl e ↦ rw e (h.0, All-filter q xs h.1)
    | inr e ↦ rw e (All-filter q xs h.1)
  ]

  pub All-update_where :
      (q : A → Bool) (f : A → A) (xs : List A)
      → ((a : A) → P a → P (f a))
      → All P xs
      → All P (update_where q f xs)
  All-update_where q f [] keeps h = tt
  All-update_where q f (x ∷ xs) keeps h = elim (Bool-cases (q x)) [
    | inl e ↦ rw e (keeps x h.0, All-update_where q f xs keeps h.1)
    | inr e ↦ rw e (h.0, All-update_where q f xs keeps h.1)
  ]
