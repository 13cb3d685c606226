-- ===== src/Utils/Init.antt =====
-- The registry of init functions of src/utils/Util.cpp. A function is a number; what was called is a
-- history. `std::sort` is a parameter, which takes a comparison.
pub mod Start
pub mod Priority
use ccml.Base.{
  ltb, ◌⊎◌, ℕ, ◌≡◌, ◌≤◌, refl, ap, sym, ◌∙◌, Bool, true, false, List, [], ◌∷◌, ◌++◌, map, Option,
  none, some, Perm, All, if◌then◌else◌, arith, append_assoc, append-nil,
}
use mathlib.Core.List.Perm
use ccml.Utils.Logging.{Logged, cc_log, info, fatal, ◌>>◌, quiet}

-- `PriorityFuncPair`; the priority, an `int`, is counted from the least one, so that 0 is -2 ^ 31.
abbrev pub PriorityFunc : Type 0
PriorityFunc = ℕ × ℕ

-- The variables of the file, and the functions called so far.
pub record Registry : Type 0 where
  pub initialized : Bool
  pub init_funcs : Option (List PriorityFunc)
  pub once : Bool  -- the state of `g_once_flag`: whether the call was made
  pub called : List ℕ

-- Before the program starts.
abbrev pub empty_registry : Registry
empty_registry = record { initialized = false; init_funcs = none; once = false; called = [] }

abbrev funcs_of : Option (List PriorityFunc) → List PriorityFunc
funcs_of none = []
funcs_of (some funcs) = funcs

pub register_init_function : Registry → ℕ → ℕ → Logged Registry
register_init_function g func priority =
    (if g.initialized then cc_log fatal "Util.cpp" 30 else quiet tt)
    >> quiet (record g { init_funcs = some (funcs_of g.init_funcs ++ (priority, func) ∷ []) })

-- The functions stand by descending priority.
pub data Descending : List PriorityFunc → Type 0 where
  nothing : Descending []
  first :
      {p f : ℕ} {rest : List PriorityFunc}
      → All (λ x. x.0 ≤ p) rest
      → Descending rest
      → Descending ((p, f) ∷ rest)

-- A comparison for `std::sort`: `before x y`.
abbrev pub Comparison : Type 0
Comparison = PriorityFunc → PriorityFunc → Bool

-- The comparison of `run_init_functions`.
unfoldable pub by_priority : Comparison
by_priority x y = ltb y.0 x.0

-- The strict weak orders, for which `std::sort` is documented.
pub record IsStrictWeak (before : Comparison) : Type 0 where
  pub before_irrefl : (x : PriorityFunc) → before x x ≡ false
  pub before_trans :
      (x y z : PriorityFunc) → before x y ≡ true → before y z ≡ true → before x z ≡ true
  pub before_split :
      (x y z : PriorityFunc) → before x z ≡ true → (before x y ≡ true) ⊎ (before y z ≡ true)

-- No element compares before one that stands in front of it.
pub data Ordered (before : Comparison) : List PriorityFunc → Type 0 where
  nil : Ordered before []
  cons :
      {x : PriorityFunc} {rest : List PriorityFunc}
      → All (λ y. before y x ≡ false) rest
      → Ordered before rest
      → Ordered before (x ∷ rest)

abbrev pub Sort : Type 0
Sort = Comparison → List PriorityFunc → List PriorityFunc

-- What is relied on of `std::sort`: with a strict weak order it permutes the elements so that none
-- compares before one in front of it.
pub record Sorts (sort : Sort) : Type 0 where
  pub sort-Perm :
      (before : Comparison) (xs : List PriorityFunc)
      → IsStrictWeak before
      → Perm (sort before xs) xs
  pub sort-Ordered :
      (before : Comparison) (xs : List PriorityFunc)
      → IsStrictWeak before
      → Ordered before (sort before xs)

by_priority-IsStrictWeak : IsStrictWeak by_priority
unfolding by_priority
by_priority-IsStrictWeak = record {
  before_irrefl = λ x. ground arith;
  before_trans = λ x y z h k. ground (arith, h, k);
  before_split = λ x y z h. ground (arith, h);
}

not_before :
    (x : PriorityFunc) (xs : List PriorityFunc)
    → All (λ y. by_priority y x ≡ false) xs
    → All (λ y. y.0 ≤ x.0) xs
unfolding by_priority
not_before x [] h = tt
not_before x (y ∷ ys) h = (ground (arith, h.0), not_before x ys h.1)

-- With the comparison of the file, the functions stand by descending priority.
by_priority-Descending : (xs : List PriorityFunc) → Ordered by_priority xs → Descending xs
by_priority-Descending _ nil = nothing
by_priority-Descending _ (cons {x} {rest} h o) =
    first (not_before x rest h) (by_priority-Descending rest o)

-- The functions are registered with their priorities, in order.
pub register_all : Registry → List PriorityFunc → Registry
unfolding register_init_function
register_all g [] = g
register_all g ((priority, func) ∷ rest) =
    register_all (register_init_function g func priority).value rest

module _ (sort : Sort) where
  -- The sorted functions are called one after the other and the list is deleted.
  call_all : Registry → Option (List PriorityFunc) → Registry
  call_all g none = g
  call_all g (some funcs) = record g {
    init_funcs = none;
    called = g.called ++ map (λ x. x.1) (sort by_priority funcs);
  }

  pub run_init_functions : Registry → Logged Registry
  unfolding call_all
  run_init_functions g =
      if g.once
      then quiet g
      else cc_log info "Util.cpp" 41
        >> cc_log info "Util.cpp" 57
        >> quiet (record (call_all g g.init_funcs) { initialized = true; once = true })

  register_all-kept :
      (g : Registry) (fs : List PriorityFunc)
      → ((register_all g fs).called ≡ g.called) × ((register_all g fs).once ≡ g.once)
  unfolding register_all register_init_function
  register_all-kept g [] = (refl, refl)
  register_all-kept g ((p, f) ∷ fs) = register_all-kept (register_init_function g f p).value fs

  register_all-funcs :
      (g : Registry) (xs fs : List PriorityFunc)
      → g.init_funcs ≡ some xs
      → (register_all g fs).init_funcs ≡ some (xs ++ fs)
  unfolding register_all register_init_function
  register_all-funcs g xs [] e = rw (append-nil xs) e
  register_all-funcs g xs ((p, f) ∷ fs) e = rw (sym (append_assoc xs ((p, f) ∷ []) fs)) (
      register_all-funcs (register_init_function g f p).value (xs ++ ((p, f) ∷ [])) fs
        (ap (λ o. some (funcs_of o ++ ((p, f) ∷ []))) e))

  run_called :
      (g : Registry) (xs : List PriorityFunc)
      → g.once ≡ false
      → g.init_funcs ≡ some xs
      → (run_init_functions g).value.called ≡ g.called ++ map (λ x. x.1) (sort by_priority xs)
  unfolding run_init_functions call_all
  run_called g xs o e = simp o (ap (λ q. (call_all g q).called) e)

  run_once : (g : Registry) → (run_init_functions g).value.once ≡ true
  unfolding run_init_functions
  run_once g = ground arith

  run_again : (g : Registry) → g.once ≡ true → (run_init_functions g).value.called ≡ g.called
  unfolding run_init_functions
  run_again g e = rw e refl

  run_empty : (run_init_functions empty_registry).value.called ≡ []
  unfolding run_init_functions call_all
  run_empty = refl

  -- The second call of `run_init_functions` calls nothing, whatever was registered in between.
  run_twice :
      (g : Registry) (more : List PriorityFunc)
      → let h = (run_init_functions g).value in
        (run_init_functions (register_all h more)).value.called ≡ h.called
  run_twice g more =
      let h = (run_init_functions g).value in
      let kept = register_all-kept h more in
      run_again (register_all h more) (kept.1 ∙ run_once g) ∙ kept.0

  -- `run_init_functions` calls every function that was registered before it, each once, by descending
  -- priority, and a later call of it calls nothing, also no function that was registered since.
  pub run_init_functions_once :
      (fs more : List PriorityFunc)
      → Sorts sort
      → let g = (run_init_functions (register_all empty_registry fs)).value in
        (order : List PriorityFunc) × Perm order fs
        × Descending order
        × (g.called ≡ map (λ x. x.1) order)
        × ((run_init_functions (register_all g more)).value.called ≡ g.called)
  unfolding register_all register_init_function
  run_init_functions_once [] more s =
      ([], Perm.refl [], nothing, run_empty, run_twice (register_all empty_registry []) more)
  run_init_functions_once ((p, f) ∷ fs) more s =
      let g = (register_init_function empty_registry f p).value in
      let all = register_all-funcs g ((p, f) ∷ []) fs refl in
      let kept = register_all-kept g fs in
      (
        sort by_priority ((p, f) ∷ fs),
        s.sort-Perm by_priority ((p, f) ∷ fs) by_priority-IsStrictWeak,
        by_priority-Descending (sort by_priority ((p, f) ∷ fs))
            (s.sort-Ordered by_priority ((p, f) ∷ fs) by_priority-IsStrictWeak),
        run_called (register_all g fs) ((p, f) ∷ fs) kept.1 all
            ∙ ap (λ c. c ++ map (λ x. x.1) (sort by_priority ((p, f) ∷ fs))) kept.0,
        run_twice (register_all g fs) more,
      )
