-- ===== src/Tests/Start.antt =====
-- The theorems on init functions and the start at concrete inputs.
use mathlib.Core.List.Perm
use ccml.Base.{
  ◌≤◌, ◌≡◌, List, [], ◌∷◌, ◌++◌, ◌<◌, map, Perm, All, if◌then◌else◌, Bool-cases, inl, inr, arith,
  true, false,
}
use mathlib.Core.List.{Mem}
use ccml.Utils.Init.Priority.{int_max, ini_storage_engine, ini_storage_engine-first}
use ccml.Utils.Init.{
  PriorityFunc, empty_registry, Descending, Sorts, Sort, Comparison, Ordered, nil, cons,
  IsStrictWeak, run_init_functions, register_all, run_init_functions_once,
}

insert_func : Comparison → PriorityFunc → List PriorityFunc → List PriorityFunc
insert_func before x [] = x ∷ []
insert_func before x (y ∷ ys) =
    let rest = insert_func before x ys in if before y x then y ∷ rest else x ∷ y ∷ ys

-- Sorting by insertion.
sort_funcs : Sort
unfolding insert_func
sort_funcs before [] = []
sort_funcs before (x ∷ xs) = insert_func before x (sort_funcs before xs)

module _ (before : Comparison) where
  insert_func-Perm :
      (x : PriorityFunc) (xs : List PriorityFunc) → Perm (insert_func before x xs) (x ∷ xs)
  unfolding insert_func
  insert_func-Perm x [] = Perm.refl _
  insert_func-Perm x (y ∷ ys) = elim (Bool-cases (before y x)) [
    | inl h ↦ rw h (Perm.trans (Perm.cons y (insert_func-Perm x ys)) (Perm.swap x y ys))
    | inr h ↦ rw h (Perm.refl _)
  ]

  sort_funcs-Perm : (xs : List PriorityFunc) → Perm (sort_funcs before xs) xs
  unfolding sort_funcs
  sort_funcs-Perm [] = Perm.refl _
  sort_funcs-Perm (x ∷ xs) =
      Perm.trans (insert_func-Perm x (sort_funcs before xs)) (Perm.cons x (sort_funcs-Perm xs))

  -- What is before no element of a list is before none of a list with one more that it is not before.
  after_insert :
      (z x : PriorityFunc) (xs : List PriorityFunc)
      → before x z ≡ false
      → All (λ y. before y z ≡ false) xs
      → All (λ y. before y z ≡ false) (insert_func before x xs)
  unfolding insert_func
  after_insert z x [] h all = (h, tt)
  after_insert z x (y ∷ ys) h all = elim (Bool-cases (before y x)) [
    | inl e ↦ rw e (all.0, after_insert z x ys h all.1)
    | inr e ↦ rw e (h, all)
  ]

  module _ (order : IsStrictWeak before) where
    asymmetric : (x y : PriorityFunc) → before y x ≡ true → before x y ≡ false
    asymmetric x y h = elim (Bool-cases (before x y)) [
      | inl e ↦ absurd (ground (arith, order.before_irrefl x, order.before_trans x y x e h))
      | inr e ↦ e
    ]

    not_before_first :
        (x y z : PriorityFunc) → before y x ≡ false → before z y ≡ false → before z x ≡ false
    not_before_first x y z h k = elim (Bool-cases (before z x)) [
      | inl e ↦ elim (order.before_split z y x e) [
        | inl l ↦ absurd (ground (arith, l, k))
        | inr r ↦ absurd (ground (arith, r, h))
      ]
      | inr e ↦ e
    ]

    none_before :
        (x y : PriorityFunc) (ys : List PriorityFunc)
        → before y x ≡ false
        → All (λ z. before z y ≡ false) ys
        → All (λ z. before z x ≡ false) ys
    none_before x y [] h all = tt
    none_before x y (z ∷ zs) h all = (not_before_first x y z h all.0, none_before x y zs h all.1)

    insert_func-Ordered :
        (x : PriorityFunc) (xs : List PriorityFunc)
        → Ordered before xs
        → Ordered before (insert_func before x xs)
    unfolding insert_func
    insert_func-Ordered x [] o = cons tt nil
    insert_func-Ordered x (y ∷ ys) (cons all o) = elim (Bool-cases (before y x)) [
      | inl e ↦
          rw e (cons (after_insert y x ys (asymmetric x y e) all) (insert_func-Ordered x ys o))
      | inr e ↦ rw e (cons (e, none_before x y ys e all) (cons all o))
    ]

    sort_funcs-Ordered : (xs : List PriorityFunc) → Ordered before (sort_funcs before xs)
    unfolding sort_funcs
    sort_funcs-Ordered [] = nil
    sort_funcs-Ordered (x ∷ xs) =
        insert_func-Ordered x (sort_funcs before xs) (sort_funcs-Ordered xs)

sort_funcs-Sorts : Sorts sort_funcs
sort_funcs-Sorts = record {
  sort-Perm = λ before xs order. sort_funcs-Perm before xs;
  sort-Ordered = λ before xs order. sort_funcs-Ordered before order xs;
}

-- Two functions, then a third one that comes too late.
run_init_functions_once_example :
    let g =
      (run_init_functions sort_funcs
        (register_all empty_registry ((1, 10) ∷ (7, 11) ∷ []))).value in
    (order : List PriorityFunc) × Perm order ((1, 10) ∷ (7, 11) ∷ [])
    × Descending order
    × (g.called ≡ map (λ x. x.1) order)
    × ((run_init_functions sort_funcs (register_all g ((3, 12) ∷ []))).value.called ≡ g.called)
run_init_functions_once_example =
    run_init_functions_once sort_funcs ((1, 10) ∷ (7, 11) ∷ []) ((3, 12) ∷ []) sort_funcs-Sorts

-- The storage engine is registered between two functions.
ini_storage_engine-first_example :
    let g =
      (register_all
        (ini_storage_engine 99 (register_all empty_registry ((5, 10) ∷ []))).value
        ((7, 11) ∷ [])) in
    (top : List PriorityFunc) × (rest : List PriorityFunc) × ((run_init_functions sort_funcs
        g).value.called
      ≡ map (λ x. x.1) top ++ map (λ x. x.1) rest)
    × Perm (top ++ rest) ((5, 10) ∷ (int_max, 99) ∷ (7, 11) ∷ [])
    × Mem (int_max, 99) top
    × All (λ y. int_max ≤ y.0) top
    × All (λ y. y.0 < int_max) rest
ini_storage_engine-first_example =
    ini_storage_engine-first sort_funcs 99 ((5, 10) ∷ []) ((7, 11) ∷ []) sort_funcs-Sorts
