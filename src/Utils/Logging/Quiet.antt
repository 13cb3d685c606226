-- ===== src/Utils/Logging/Quiet.antt =====
-- When code that logs is quiet.
use ccml.Base.{Option, none, some, ◌≡◌, ◌↔◌, refl, List, [], ◌∷◌, ◌++◌, arith}
use ccml.Utils.Logging.{Logged, quiet, after_log, behind}

pub append_quiet {ℓ} : {A : Type ℓ} (xs ys : List A) → (xs ++ ys ≡ []) ↔ ((xs ≡ []) × (ys ≡ []))
append_quiet [] ys = ground arith
append_quiet (x ∷ xs) ys = ground arith

-- Two pieces of code one after the other log nothing exactly when each logs nothing.
infixl 5 ◌⨾◌
pub ◌⨾◌ {ℓ κ μ} :
    {A : Type ℓ} {P : Type κ} {Q : Type μ} {xs ys : List A}
    → ((xs ≡ []) ↔ P)
    → ((ys ≡ []) ↔ Q)
    → (xs ++ ys ≡ []) ↔ (P × Q)
◌⨾◌ {xs = xs} {ys = ys} p q =
    let a = append_quiet xs ys in (λ h. (p.0 (a.0 h).0, q.0 (a.0 h).1), λ h. a.1 (p.1 h.0, q.1 h.1))

pub quiet_end {ℓ κ} :
    {A : Type ℓ} {P : Type κ} {xs : List A} → ((xs ≡ []) ↔ P) → (xs ++ [] ≡ []) ↔ P
quiet_end {xs = xs} p = let a = append_quiet xs [] in (λ h. p.0 (a.0 h).0, λ h. a.1 (p.1 h, refl))

-- The result without the messages.
abbrev pub result {ℓ} : {A : Type ℓ} → Option (Logged A) → Option A
result none = none
result (some r) = some r.value

pub result-after_log {ℓ κ} :
    {A : Type ℓ} {B : Type κ} (a : Logged A) (r : Option (Logged B))
    → result (after_log a r) ≡ result r
result-after_log a none = refl
result-after_log a (some b) = refl

abbrev pub bound {ℓ κ} : {A : Type ℓ} {B : Type κ} → (A → Option B) → Option A → Option B
bound f none = none
bound f (some a) = f a

pub result-behind {ℓ κ} :
    {A : Type ℓ} {B : Type κ} (f : A → Option (Logged B)) (o : Option (Logged A))
    → result (behind f o) ≡ bound (λ a. result (f a)) (result o)
result-behind f none = refl
result-behind f (some a) = result-after_log a (f a.value)

-- Behind code that is quiet.
pub after_log-quiet {ℓ κ} :
    {A : Type ℓ} {B : Type κ} (a : A) (r : Option (Logged B)) → after_log (quiet a) r ≡ r
after_log-quiet a none = refl
after_log-quiet a (some b) = refl
