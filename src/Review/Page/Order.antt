-- ===== src/Review/Page/Order.antt =====
-- The order of a page (services/symbol_service.py): sorted by page and id, and nothing lost.
use mathlib.Core.List.{Perm}
use mathlib.Core.List.Perm
use pid_docs.Prelude.{
  ◌+◌, length, ◌≡◌, inl, inr, refl, true, false, List, [], ◌∷◌, arith, Bool-cases,
}
use pid_docs.Review.{DetectedSymbol}
use pid_docs.Review.Page.{before, insert_sorted, order_by}

module _ {F : Type 0} where
  insert_sorted-perm :
      (a : DetectedSymbol F) (bs : List (DetectedSymbol F)) → Perm (insert_sorted a bs) (a ∷ bs)
  unfolding insert_sorted
  insert_sorted-perm a [] = Perm.refl (a ∷ [])
  insert_sorted-perm a (b ∷ bs) = elim (Bool-cases (before b a)) [
    | inl e ↦ rw e (Perm.trans (Perm.cons b (insert_sorted-perm a bs)) (Perm.swap a b bs))
    | inr e ↦ rw e (Perm.refl (a ∷ b ∷ bs))
  ]

  order_by-perm : (rows : List (DetectedSymbol F)) → Perm (order_by rows) rows
  unfolding order_by
  order_by-perm [] = Perm.refl []
  order_by-perm (a ∷ rows) =
      Perm.trans (insert_sorted-perm a (order_by rows)) (Perm.cons a (order_by-perm rows))

  -- No row stands before the one above it.
  abbrev pub IsSorted : List (DetectedSymbol F) → Type 0
  IsSorted [] = Unit
  IsSorted (a ∷ []) = Unit
  IsSorted (a ∷ b ∷ rows) = (before b a ≡ false) × IsSorted (b ∷ rows)

  before_asym : (a b : DetectedSymbol F) → before b a ≡ true → before a b ≡ false
  unfolding before
  before_asym a b h = ground arith

  insert_sorted-IsSorted :
      (a : DetectedSymbol F) (bs : List (DetectedSymbol F))
      → IsSorted bs
      → IsSorted (insert_sorted a bs)
  unfolding insert_sorted
  insert_sorted-IsSorted a [] h = tt
  insert_sorted-IsSorted a (b ∷ []) h = ground (arith, before_asym a b)
  insert_sorted-IsSorted a (b ∷ c ∷ bs) h =
      ground (arith, before_asym a b, before_asym a c, insert_sorted-IsSorted a (c ∷ bs) h.1)

  -- The rows of a query come sorted by page number and then by id, and are the same rows as often.
  pub order_by-IsSorted :
      (rows : List (DetectedSymbol F)) → IsSorted (order_by rows) × Perm (order_by rows) rows
  unfolding order_by
  order_by-IsSorted [] = (tt, Perm.refl [])
  order_by-IsSorted (a ∷ rows) = (
    insert_sorted-IsSorted a (order_by rows) (order_by-IsSorted rows).0,
    order_by-perm (a ∷ rows),
  )

module _ {F : Type 0} where
  length-insert_sorted :
      (a : DetectedSymbol F) (bs : List (DetectedSymbol F))
      → length (insert_sorted a bs) ≡ length bs + 1
  unfolding insert_sorted
  length-insert_sorted a [] = omega arith
  length-insert_sorted a (b ∷ bs) = ground (arith, length-insert_sorted a bs)

  pub length-order_by : (rows : List (DetectedSymbol F)) → length (order_by rows) ≡ length rows
  unfolding order_by
  length-order_by [] = refl
  length-order_by (a ∷ rows) =
      omega (arith, length-insert_sorted a (order_by rows), length-order_by rows)
