-- ===== src/Db/Tables.antt =====
-- A table as the list of its rows, read and written by the primary key `key`.
use pid_docs.Prelude.{
  ℕ, ◌≡◌, ◌≢◌, refl, ap, ◌∙◌, Option, none, some, List, [], ◌∷◌, arith, ◌==◌, if◌then◌else◌, length,
  All, Bool-cases, inl, inr,
}
use mathlib.Core.Option

module _ {ℓ} {A : Type ℓ} (key : A → ℕ) where
  -- `db.get(Model, k)`
  unfoldable pub get : ℕ → List A → Option A
  get k [] = none
  get k (x ∷ xs) = if key x == k then some x else get k xs

  -- `UPDATE ... SET f WHERE key = k`
  unfoldable pub update : ℕ → (A → A) → List A → List A
  update k f [] = []
  update k f (x ∷ xs) = (if key x == k then f x else x) ∷ update k f xs

  pub get-update_self :
      (k : ℕ) (f : A → A) (xs : List A)
      → ((a : A) → key (f a) ≡ key a)
      → get k (update k f xs) ≡ Option.map f (get k xs)
  unfolding get update
  get-update_self k f [] same = refl
  get-update_self k f (x ∷ xs) same = ground (arith, get-update_self k f xs same, same x)

  pub get-update_ne :
      (j k : ℕ) (f : A → A) (xs : List A)
      → ((a : A) → key (f a) ≡ key a)
      → j ≢ k
      → get j (update k f xs) ≡ get j xs
  unfolding get update
  get-update_ne j k f [] same ne = refl
  get-update_ne j k f (x ∷ xs) same ne = ground (arith, get-update_ne j k f xs same ne, same x)

  pub get-replace_ne :
      (j : ℕ) (a : A) (xs : List A) → j ≢ key a → get j (update (key a) (λ _. a) xs) ≡ get j xs
  unfolding get update
  get-replace_ne j a [] ne = refl
  get-replace_ne j a (x ∷ xs) ne = ground (arith, get-replace_ne j a xs ne)

  pub length-update : (k : ℕ) (f : A → A) (xs : List A) → length (update k f xs) ≡ length xs
  unfolding update
  length-update k f [] = refl
  length-update k f (x ∷ xs) = ground (arith, length-update k f xs)

  -- A row that is found has the key that was looked for.
  pub key-get : (k : ℕ) (xs : List A) (x : A) → get k xs ≡ some x → key x ≡ k
  unfolding get
  key-get k [] x e = ground arith
  key-get k (y ∷ xs) x e = ground (arith, key-get k xs x)

  -- It is found under its own key.
  pub get-key : (k : ℕ) (xs : List A) (x : A) → get k xs ≡ some x → get (key x) xs ≡ some x
  get-key k xs x e = ap (λ (j : ℕ). get j xs) (key-get k xs x e) ∙ e

  -- A second update by a function that changes nothing of the first one's result is no update.
  pub update-update :
      (k : ℕ) (f g : A → A) (xs : List A)
      → ((a : A) → key (f a) ≡ key a)
      → ((a : A) → g (f a) ≡ f a)
      → update k g (update k f xs) ≡ update k f xs
  unfolding update
  update-update k f g [] same idem = refl
  update-update k f g (x ∷ xs) same idem =
      ground (arith, update-update k f g xs same idem, same x, idem x)

module _ {ℓ κ} {A : Type ℓ} (P : A → Type κ) (key : A → ℕ) where
  pub All-update :
      (k : ℕ) (f : A → A) (xs : List A)
      → ((a : A) → P a → P (f a))
      → All P xs
      → All P (update key k f xs)
  unfolding update
  All-update k f [] keeps h = tt
  All-update k f (x ∷ xs) keeps h = elim (Bool-cases (key x == k)) [
    | inl e ↦ rw e (keeps x h.0, All-update k f xs keeps h.1)
    | inr e ↦ rw e (h.0, All-update k f xs keeps h.1)
  ]

  -- A row that is found satisfies what all rows do.
  pub All-get : (k : ℕ) (xs : List A) (x : A) → All P xs → get key k xs ≡ some x → P x
  unfolding get
  All-get k [] x h e = absurd (ground arith)
  All-get k (y ∷ xs) x h e = elim (Bool-cases (key y == k)) [
    | inl f ↦ let same : y ≡ x = ground arith in rw (← same) h.0
    | inr f ↦ All-get k xs x h.1 (ground arith)
  ]
