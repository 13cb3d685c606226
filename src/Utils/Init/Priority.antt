-- ===== src/Utils/Init/Priority.antt =====
-- InitFunction of src/utils/Util.h, and the one that src/math/Storage.cpp makes.
use mathlib.Core.List.Perm
use mathlib.Core.Logic.Or
use mathlib.Core.HLevel.{⊥_prop}
use mathlib.Core.List.{
  Mem, Mem-prop, mem-append, mem-append_right, mem-cons_self, eq-or-mem_of_mem-cons, not-mem-nil,
  map-append,
}
use ccml.Base.{
  Bool-cases, ltb, ℕ, ◌<◌, ◌-◌, ◌^◌, ◌≤◌, ◌≡◌, refl, ap, ◌∙◌, sym, subst, List, [], ◌∷◌, ◌++◌, map,
  Perm, All, arith, inl, inr,
}
use ccml.Utils.Logging.{Logged}
use ccml.Utils.Init.{
  PriorityFunc, Registry, empty_registry, register_init_function, Descending, nothing, first, Sort,
  Sorts, register_all, run_init_functions, run_init_functions_once,
}

-- The constructor of InitFunction, for a variable at namespace level.
pub new_init_function : Registry → ℕ → ℕ → Logged Registry
unfolding register_init_function
new_init_function g func priority = register_init_function g func priority

-- The largest `int`, counted from the least one.
abbrev pub int_max : ℕ
int_max = 2 ^ 32 - 1

-- `__ini_storage_engine`; `singleton` stands for the function that calls StorageEngine::singleton.
pub ini_storage_engine : ℕ → Registry → Logged Registry
unfolding new_init_function
ini_storage_engine singleton g = new_init_function g singleton int_max

-- A list by descending priority, cut behind the functions of the largest priority.
abbrev pub Cut : List PriorityFunc → Type 0
Cut order =
    (top : List PriorityFunc) × (rest : List PriorityFunc) × (order ≡ top ++ rest)
    × All (λ y. int_max ≤ y.0) top
    × All (λ y. y.0 < int_max) rest

below :
    (p : ℕ) (xs : List PriorityFunc)
    → p < int_max
    → All (λ y. y.0 ≤ p) xs
    → All (λ y. y.0 < int_max) xs
below p [] h all = tt
below p (y ∷ xs) h all = (omega (arith, all.0), below p xs h all.1)

cut : (order : List PriorityFunc) → Descending order → Cut order
cut _ nothing = ([], [], refl, tt, tt)
cut _ (first {p} {f} {rest} h d) = elim (Bool-cases (ltb p int_max)) [
  | inl e ↦ ([], (p, f) ∷ rest, refl, tt, (ground arith, below p rest (ground arith) h))
  | inr e ↦
      let (top, last, q, high, low) = cut rest d in
      ((p, f) ∷ top, last, ap (◌∷◌ (p, f)) q, (ground arith, high), low)
]

register_all-append :
    (g : Registry) (fs gs : List PriorityFunc)
    → register_all g (fs ++ gs) ≡ register_all (register_all g fs) gs
unfolding register_all
register_all-append g [] gs = refl
register_all-append g ((p, f) ∷ fs) gs =
    register_all-append (register_init_function g f p).value fs gs

low_apart :
    (x : PriorityFunc) (xs : List PriorityFunc)
    → x.0 ≡ int_max
    → All (λ y. y.0 < int_max) xs
    → ¬ Mem x xs
low_apart x [] e all m = not-mem-nil m
low_apart x (y ∷ xs) e all m =
    Or.elim ⊥_prop (eq-or-mem_of_mem-cons m)
      (λ q. let w : x.0 ≡ y.0 = ap (λ z. z.0) q in omega (arith, e, all.0)) (low_apart x xs e all.1)

-- `run_init_functions` makes the storage engine before it calls any function of less than the largest
-- priority, whatever was registered before and after: it calls the functions of the largest priority,
-- StorageEngine::singleton among them, and then the others, each registered function once.
pub ini_storage_engine-first :
    (sort : Sort) (singleton : ℕ) (fs gs : List PriorityFunc)
    → Sorts sort
    → let g =
        register_all (ini_storage_engine singleton (register_all empty_registry fs)).value gs in
      (top : List PriorityFunc) × (rest : List PriorityFunc) × ((run_init_functions sort
          g).value.called
        ≡ map (λ x. x.1) top ++ map (λ x. x.1) rest)
      × Perm (top ++ rest) (fs ++ (int_max, singleton) ∷ gs)
      × Mem (int_max, singleton) top
      × All (λ y. int_max ≤ y.0) top
      × All (λ y. y.0 < int_max) rest
unfolding ini_storage_engine new_init_function register_all
ini_storage_engine-first sort singleton fs gs s =
    let (order, p, d, called, again) =
      run_init_functions_once sort (fs ++ (int_max, singleton) ∷ gs) [] s in
    let (top, rest, q, high, low) = cut order d in
    let p' : Perm (top ++ rest) (fs ++ (int_max, singleton) ∷ gs) =
      subst (λ o. Perm o (fs ++ (int_max, singleton) ∷ gs)) q p in
    let m : Mem (int_max, singleton) (top ++ rest) =
      (Perm.mem_iff p').1 (mem-append_right fs mem-cons_self) in
    (
      top,
      rest,
      ap (λ r. (run_init_functions sort r).value.called)
            (sym (register_all-append empty_registry fs ((int_max, singleton) ∷ gs)))
          ∙ (called ∙ (ap (map (λ x. x.1)) q ∙ map-append (λ (x : PriorityFunc). x.1) top rest)),
      p',
      Or.elim Mem-prop (mem-append.0 m) (λ a. a)
          (λ a. absurd (low_apart (int_max, singleton) rest refl low a)),
      high,
      low,
    )
