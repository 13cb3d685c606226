-- ===== src/Utils/Logging.antt =====
-- src/utils/Logging.h and src/utils/Logging.cpp: severities, messages, and what CC_CHECK does.
pub mod Quiet
pub mod Sinks
use ccml.Base.{Option, none, some, ℕ, Bool, true, false, List, [], ◌∷◌, ◌++◌, String}

pub data Severity : Type 0 where
  info warning error fatal : Severity

-- `LogMessage`: the file, the line and the severity. The text is output only.
pub record LogMessage : Type 0 where
  pub name : String
  pub line : ℕ
  pub severity : Severity

-- The value that a piece of code computes, with the messages that it logs on the way.
pub record Logged {ℓ} (A : Type ℓ) : Type ℓ where
  pub log : List LogMessage
  pub value : A

abbrev pub quiet {ℓ} : {A : Type ℓ} → A → Logged A
quiet a = record { log = []; value = a }

infixl 5 ◌>>=◌ ◌>>◌
abbrev pub ◌>>=◌ {ℓ κ} : {A : Type ℓ} {B : Type κ} → Logged A → (A → Logged B) → Logged B
m >>= f = record { log = m.log ++ (f m.value).log; value = (f m.value).value }

abbrev pub ◌>>◌ {ℓ} : {B : Type ℓ} → Logged (Unit {0}) → Logged B → Logged B
m >> k = m >>= λ _. k

-- `LOG(severity)`, which is `CC_LOG(severity)`: a temporary `LogMessage`, also for FATAL.
abbrev pub cc_log : Severity → String → ℕ → Logged (Unit {0})
cc_log s name line = record {
  log = record { name = name; line = line; severity = s } ∷ [];
  value = tt;
}

-- `CC_CHECK(condition)`: logs with severity FATAL if the condition fails, and goes on either way.
abbrev pub cc_check : Bool → String → ℕ → Logged (Unit {0})
cc_check true name line = quiet tt
cc_check false name line = cc_log fatal name line

-- A result behind what was logged before it.
abbrev pub after_log {ℓ κ} :
    {A : Type ℓ} {B : Type κ} → Logged A → Option (Logged B) → Option (Logged B)
after_log a none = none
after_log a (some b) = some (a >>= λ _. b)

-- A piece of code behind another one that logged.
abbrev pub behind {ℓ κ} :
    {A : Type ℓ} {B : Type κ} → (A → Option (Logged B)) → Option (Logged A) → Option (Logged B)
behind f none = none
behind f (some a) = after_log a (f a.value)
