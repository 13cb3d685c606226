-- ===== src/Utils/Logging/Sinks/Levels.antt =====
-- Which files and streams get a message.
use ccml.Base.{
  ℕ, zero, suc, ◌-◌, ◌<◌, ◌≡◌, refl, ap, ◌∙◌, Bool, true, false, List, [], ◌∷◌, ◌++◌, map, Option,
  none, some, leb, if◌then◌else◌, arith,
}
use ccml.Utils.Logging.{Severity, info, warning, error, fatal}
use ccml.Utils.Str.{Text}
use ccml.Utils.Logging.Sinks.{
  pos, Sinks, FailureFunction, resize_fds, push_fds, stderr_loop, Initialized, ready, exited,
  undefined, file_name, file_loop, fill, fill_from, initialize_log_fds, level_of,
  generate_log_message,
}

-- The variables before the first initialisation.
abbrev pub fresh : Bool → ℕ → FailureFunction → Sinks
fresh to_stderr min_level failure = record {
  log_inited = false;
  log_to_stderr = to_stderr;
  log_min_level = pos min_level;
  log_fds = [];
  log_file_fds = [];
  failure_function = failure;
}

-- The files of the levels from `level` on, so many.
abbrev pub files : (ℕ → ℕ) → ℕ → ℕ → List ℕ
files fd level zero = []
files fd level (suc k) = fd level ∷ files fd (suc level) k

-- What a message of a level is written to: nothing below the least level, else stderr if it is asked
-- for and the files of all levels from the least one up to its own.
abbrev pub outputs : Bool → (ℕ → ℕ) → ℕ → ℕ → List ℕ
outputs to_stderr fd least level =
    if leb least level
    then (if to_stderr then 2 ∷ [] else []) ++ files fd least (suc level - least)
    else []

-- Where a message goes once the files are set up.
abbrev pub written_to : Initialized → Severity → Option (List ℕ)
written_to (ready s) severity = generate_log_message s severity
written_to exited severity = none
written_to undefined severity = none

-- The file of a level.
abbrev pub Opens : (Text → Option ℕ) → Text → Text → (ℕ → ℕ) → Type 0
Opens open_file log_dir argc fd =
    (level : ℕ) → level < 4 → open_file (file_name log_dir argc level) ≡ some (fd level)

-- The variables then.
abbrev pub filled : Bool → (ℕ → ℕ) → ℕ → FailureFunction → Sinks
filled to_stderr fd least failure = record {
  log_inited = true;
  log_to_stderr = to_stderr;
  log_min_level = pos least;
  log_fds = map (outputs to_stderr fd least) (0 ∷ 1 ∷ 2 ∷ 3 ∷ []);
  log_file_fds = files fd least (4 - least);
  failure_function = failure;
}

pub initialize_log_fds-filled :
    (open_file : Text → Option ℕ) (log_dir argc : Text) (fd : ℕ → ℕ) (to_stderr : Bool) (least : ℕ)
    (failure : FailureFunction)
    → least < 4
    → Opens open_file log_dir argc fd
    → initialize_log_fds open_file (some log_dir) argc (fresh to_stderr least failure)
      ≡ ready (filled to_stderr fd least failure)
unfolding initialize_log_fds fill_from fill file_loop stderr_loop resize_fds push_fds
initialize_log_fds-filled open_file log_dir argc fd true zero failure h opens =
    rw (opens 0 (omega arith), opens 1 (omega arith), opens 2 (omega arith), opens 3 (omega arith))
      refl
initialize_log_fds-filled open_file log_dir argc fd false zero failure h opens =
    rw (opens 0 (omega arith), opens 1 (omega arith), opens 2 (omega arith), opens 3 (omega arith))
      refl
initialize_log_fds-filled open_file log_dir argc fd true (suc zero) failure h opens =
    rw (opens 1 (omega arith), opens 2 (omega arith), opens 3 (omega arith)) refl
initialize_log_fds-filled open_file log_dir argc fd false (suc zero) failure h opens =
    rw (opens 1 (omega arith), opens 2 (omega arith), opens 3 (omega arith)) refl
initialize_log_fds-filled open_file log_dir argc fd true (suc (suc zero)) failure h opens =
    rw (opens 2 (omega arith), opens 3 (omega arith)) refl
initialize_log_fds-filled open_file log_dir argc fd false (suc (suc zero)) failure h opens =
    rw (opens 2 (omega arith), opens 3 (omega arith)) refl
initialize_log_fds-filled open_file log_dir argc fd true (suc (suc (suc zero))) failure h opens =
    rw (opens 3 (omega arith)) refl
initialize_log_fds-filled open_file log_dir argc fd false (suc (suc (suc zero))) failure h opens =
    rw (opens 3 (omega arith)) refl
initialize_log_fds-filled open_file log_dir argc fd to_stderr (suc (suc (suc (suc n)))) failure h
      opens =
    absurd (omega arith)

pub filled-outputs :
    (to_stderr : Bool) (fd : ℕ → ℕ) (least : ℕ) (failure : FailureFunction) (severity : Severity)
    → generate_log_message (filled to_stderr fd least failure) severity
      ≡ some (outputs to_stderr fd least (level_of severity))
unfolding generate_log_message level_of
filled-outputs to_stderr fd least failure info = refl
filled-outputs to_stderr fd least failure warning = refl
filled-outputs to_stderr fd least failure error = refl
filled-outputs to_stderr fd least failure fatal = refl

-- After the first initialisation with a directory, a message below the least level is written nowhere,
-- and any other once to stderr, if that is asked for, and once to the file of each level from the
-- least one up to its own. The files can be opened, and the least level is one of the four.
pub initialize_log_fds_lem :
    (open_file : Text → Option ℕ) (log_dir argc : Text) (fd : ℕ → ℕ) (to_stderr : Bool) (least : ℕ)
    (failure : FailureFunction) (severity : Severity)
    → least < 4
    → Opens open_file log_dir argc fd
    → written_to
        (initialize_log_fds open_file (some log_dir) argc (fresh to_stderr least failure))
        severity
      ≡ some (outputs to_stderr fd least (level_of severity))
initialize_log_fds_lem open_file log_dir argc fd to_stderr least failure severity h opens =
    ap (λ s. written_to s severity)
      (initialize_log_fds-filled open_file log_dir argc fd to_stderr least failure h opens)
    ∙ filled-outputs to_stderr fd least failure severity
