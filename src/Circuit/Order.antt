-- ===== src/Circuit/Order.antt =====
-- The order in which the program reads the operations of a circuit.
use mathlib.Core.List.{Perm}
use mvp_qcp.Base.{◌≡◌, ◌⊎◌, true, List, map, arith, All, Pairs, length}
use mvp_qcp.Base.Sorting.{
  IsSorted, sort-perm, length-sort, sort-IsSorted, sort-of_IsSorted, sort_idempotent, All-sort,
  All-of_sort, Pairs-sort, Pairs-of_sort, map-sort,
}
use mvp_qcp.Circuit.{Operation, Collation, in_order, sort_operations}

module _ ⦃c : Collation⦄ {R : Type 0} where
  in_order_total : (a b : Operation R) → (in_order a b ≡ true) ⊎ (in_order b a ≡ true)
  unfolding in_order
  in_order_total a b = ground (arith, c.locale_total a.id b.id)

  in_order_trans :
      (x y z : Operation R) → in_order x y ≡ true → in_order y z ≡ true → in_order x z ≡ true
  unfolding in_order
  in_order_trans x y z h k = ground (arith, c.locale_trans x.id y.id z.id)

  -- The result holds the same operations, as often, and each is in order with every later one.
  pub sort_operations-IsSorted :
      (ops : List (Operation R))
      → Perm (sort_operations ops) ops × IsSorted in_order (sort_operations ops)
  unfolding sort_operations
  sort_operations-IsSorted ops =
      (sort-perm in_order ops, sort-IsSorted in_order in_order_total in_order_trans ops)

  pub length-sort_operations :
      (ops : List (Operation R)) → length (sort_operations ops) ≡ length ops
  unfolding sort_operations
  length-sort_operations ops = length-sort in_order ops

  -- A list in order is left as it is, so equal keys keep their places.
  pub sort_operations_of_IsSorted :
      (ops : List (Operation R)) → IsSorted in_order ops → sort_operations ops ≡ ops
  unfolding sort_operations
  sort_operations_of_IsSorted ops h = sort-of_IsSorted in_order ops h

  pub sort_operations_idempotent :
      (ops : List (Operation R)) → sort_operations (sort_operations ops) ≡ sort_operations ops
  unfolding sort_operations
  sort_operations_idempotent ops = sort_idempotent in_order in_order_total in_order_trans ops

  module _ {κ} (P : Operation R → Type κ) where
    pub All-sort_operations : (ops : List (Operation R)) → All P ops → All P (sort_operations ops)
    unfolding sort_operations
    All-sort_operations ops = All-sort in_order P ops

    pub All-of_sort_operations :
        (ops : List (Operation R)) → All P (sort_operations ops) → All P ops
    unfolding sort_operations
    All-of_sort_operations ops = All-of_sort in_order P ops

  module _ {κ} (P : Operation R → Operation R → Type κ)
      (P_sym : (x y : Operation R) → P x y → P y x) where
    pub Pairs-sort_operations :
        (ops : List (Operation R)) → Pairs P ops → Pairs P (sort_operations ops)
    unfolding sort_operations
    Pairs-sort_operations ops = Pairs-sort in_order P P_sym ops

    pub Pairs-of_sort_operations :
        (ops : List (Operation R)) → Pairs P (sort_operations ops) → Pairs P ops
    unfolding sort_operations
    Pairs-of_sort_operations ops = Pairs-of_sort in_order P P_sym ops

  pub map-sort_operations :
      (f : Operation R → Operation R)
      → ((x y : Operation R) → in_order (f x) (f y) ≡ in_order x y)
      → (ops : List (Operation R)) → map f (sort_operations ops) ≡ sort_operations (map f ops)
  unfolding sort_operations
  map-sort_operations f same ops = map-sort in_order f same ops
