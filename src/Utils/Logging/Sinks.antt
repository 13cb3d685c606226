-- ===== src/Utils/Logging/Sinks.antt =====
-- src/utils/Logging.cpp: where messages are written, the variables of the environment that say so, and
-- the functions called on failure. Descriptors are numbers; `getenv`, `stoi` and `open` are parameters.
pub mod Levels
use ccml.Base.{
  ℕ, zero, suc, ◌+◌, ◌-◌, Bool, true, false, not, ◌&&◌, ◌||◌, List, [], ◌∷◌, ◌++◌, Option, none,
  some, get_elem?, length, take, ◌==◌, if◌then◌else◌,
}
use ccml.Utils.Logging.{Severity, info, warning, error, fatal}
use ccml.Utils.Str.{Text, str_eq}

-- `int`
pub data ℤ : Type 0 where
  pos negsuc : ℕ → ℤ

-- `'/'`
abbrev sep : ℕ
sep = 47

is_sep : Option ℕ → Bool
is_sep none = false
is_sep (some c) = c == sep

last : Text → Option ℕ
last [] = none
last (c ∷ []) = some c
last (c ∷ d ∷ s) = last (d ∷ s)

-- `join`, of a directory and a file name.
pub join : Text → Text → Text
unfolding is_sep last
join part1 part2 =
    if is_sep (get_elem? part2 0)
    then part2
    else if not (length part1 == 0) && not (is_sep (last part1))
    then part1 ++ (sep ∷ part2)
    else part1 ++ part2

-- `env_value[0]`, which is the terminating 0 of an empty string.
first_char : Text → ℕ
first_char [] = 0
first_char (c ∷ s) = c

-- `memchr("tTyY1\0", c, 6) != nullptr`
means_true : ℕ → Bool
means_true c = c == 116 || c == 84 || c == 121 || c == 89 || c == 49 || c == 0

-- `memchr(…, env_value[0], 6) != nullptr` for a pointer; null is undefined.
pub truth : Option Text → Option Bool
unfolding first_char means_true
truth none = none
truth (some v) = some (means_true (first_char v))

-- `env2bool`. The condition assigns null to `env_value` and is false.
pub env2bool : Option Text → Bool → Option Bool
unfolding truth
env2bool env_value default_value =
    let assigned : Option Text = none in if false then some default_value else truth assigned

-- `stoi` with its exceptions caught.
pub caught : Option ℤ → ℤ → ℤ
caught none default_value = default_value
caught (some i) default_value = i

pub env2int : (Text → Option ℤ) → Option Text → ℤ → ℤ
unfolding caught
env2int stoi none default_value = default_value
env2int stoi (some v) default_value = caught (stoi v) default_value

-- The loop of `env2index` from index `i` on.
pub index_loop : ℕ → List Text → Text → ℤ → ℤ
index_loop i [] v default_value = default_value
index_loop i (o ∷ options) v default_value =
    let rest = index_loop (suc i) options v default_value in if str_eq o v then pos i else rest

pub env2index : Option Text → List Text → ℤ → ℤ
unfolding index_loop
env2index none options default_value = default_value
env2index (some v) options default_value = index_loop 0 options v default_value

-- `g_log_level_name`: INFO, WARNING, ERROR, FATAL
abbrev pub g_log_level_name : List Text
g_log_level_name =
    (73 ∷ 78 ∷ 70 ∷ 79 ∷ [])
    ∷ (87 ∷ 65 ∷ 82 ∷ 78 ∷ 73 ∷ 78 ∷ 71 ∷ [])
    ∷ (69 ∷ 82 ∷ 82 ∷ 79 ∷ 82 ∷ [])
    ∷ (70 ∷ 65 ∷ 84 ∷ 65 ∷ 76 ∷ [])
    ∷ []

-- The initial `g_log_min_level`, from the value of CC_LOG_MIN_LEVEL.
pub initial_min_level : (Text → Option ℤ) → Option Text → ℤ
unfolding env2int env2index
initial_min_level stoi v = env2int stoi v (env2index v g_log_level_name (pos 0))

-- `g_failure_function_ptr`: `abort`, or a function that was installed, by its number.
pub data FailureFunction : Type 0 where
  abort : FailureFunction
  installed : ℕ → FailureFunction

-- The file's static variables.
pub record Sinks : Type 0 where
  pub log_inited : Bool
  pub log_to_stderr : Bool
  pub log_min_level : ℤ
  pub log_fds : List (List ℕ)
  pub log_file_fds : List ℕ
  pub failure_function : FailureFunction

-- `resize`
pub resize_fds : ℕ → List (List ℕ) → List (List ℕ)
resize_fds zero fds = []
resize_fds (suc n) [] = [] ∷ resize_fds n []
resize_fds (suc n) (v ∷ fds) = v ∷ resize_fds n fds

-- Descriptors added at the end of those of level `i`.
pub push_fds : ℕ → List ℕ → List (List ℕ) → List (List ℕ)
push_fds i more [] = []
push_fds zero more (v ∷ fds) = (v ++ more) ∷ fds
push_fds (suc i) more (v ∷ fds) = v ∷ push_fds i more fds

-- The first loop, for the levels from `i` on: so many are left.
pub stderr_loop : ℕ → ℕ → List (List ℕ) → List (List ℕ)
unfolding push_fds
stderr_loop i zero fds = fds
stderr_loop i (suc k) fds = stderr_loop (suc i) k (push_fds i (2 ∷ []) fds)

-- What `initialize_log_fds` does: it returns, leaves the program, or writes outside of the vector.
pub data Initialized : Type 0 where
  ready : Sinks → Initialized
  exited : Initialized
  undefined : Initialized

abbrev name_of_level : Option Text → Text
name_of_level none = []
name_of_level (some name) = name

-- `'.'`
abbrev dot : ℕ
dot = 46

-- `file_name`
pub file_name : Text → Text → ℕ → Text
unfolding join
file_name log_dir argc i =
    join log_dir (argc ++ (dot ∷ name_of_level (get_elem? g_log_level_name i)))

abbrev with_file : ℕ → ℕ → Sinks → Sinks
with_file i fd s = record s {
  log_file_fds = s.log_file_fds ++ (fd ∷ []);
  log_fds = push_fds i (s.log_file_fds ++ (fd ∷ [])) s.log_fds;
}

-- The second loop, for the levels from `i` on: so many are left. A file that does not open_file ends the program.
pub file_loop : (Text → Option ℕ) → Text → Text → ℕ → ℕ → Sinks → Initialized
unfolding push_fds file_name
file_loop open_file log_dir argc i zero s = ready s
file_loop open_file log_dir argc i (suc k) s = elim (open_file (file_name log_dir argc i)) [
  | none ↦ exited
  | some fd ↦ file_loop open_file log_dir argc (suc i) k (with_file i fd s)
]

-- `NUM_SEVERITIES`
abbrev num_severities : ℕ
num_severities = 4

abbrev inited : Initialized → Initialized
inited (ready s) = ready (record s { log_inited = true })
inited exited = exited
inited undefined = undefined

-- The two loops, from a level that is not negative.
pub fill : (Text → Option ℕ) → Option Text → Text → ℕ → Sinks → Initialized
unfolding stderr_loop file_loop
fill open_file none argc level s = ready (record s {
  log_fds =
      if s.log_to_stderr then stderr_loop level (num_severities - level) s.log_fds else s.log_fds;
})
fill open_file (some log_dir) argc level s =
    file_loop open_file log_dir argc level (num_severities - level) (record s {
      log_fds =
          if s.log_to_stderr
          then stderr_loop level (num_severities - level) s.log_fds
          else s.log_fds;
    })

-- The same from any level. Below 0 the first round of a loop is out of range.
pub fill_from : (Text → Option ℕ) → Option Text → Text → ℤ → Sinks → Initialized
unfolding fill
fill_from open_file log_dir argc (pos level) s = fill open_file log_dir argc level s
fill_from open_file none argc (negsuc n) s = if s.log_to_stderr then undefined else ready s
fill_from open_file (some log_dir) argc (negsuc n) s = undefined

-- `initialize_log_fds`, which is all that `initialize_logging` does; `log_dir` is the value of
-- CC_LOG_LOGDIR.
pub initialize_log_fds : (Text → Option ℕ) → Option Text → Text → Sinks → Initialized
unfolding fill_from resize_fds
initialize_log_fds open_file log_dir argc s = inited (
    fill_from open_file log_dir argc s.log_min_level
      (record s { log_fds = resize_fds num_severities s.log_fds }))

-- `free_log_file_fds`, run at exit: the descriptors that it closes.
pub free_log_file_fds : Sinks → List ℕ
free_log_file_fds s = s.log_file_fds

pub set_min_log_level : ℤ → Sinks → Sinks
set_min_log_level level s = record s { log_min_level = level }

pub install_failure_function : ℕ → Sinks → Sinks
install_failure_function callback s = record s { failure_function = installed callback }

-- `install_failure_writer`, which drops its argument.
unfoldable pub install_failure_writer : ℕ → Sinks → Sinks
install_failure_writer callback s = s

-- The value of a severity.
unfoldable pub level_of : Severity → ℕ
level_of info = 0
level_of warning = 1
level_of error = 2
level_of fatal = 3

-- The descriptors that `generate_log_message` writes a message to, in order; a read outside of
-- `g_log_fds` is `none`.
pub generate_log_message : Sinks → Severity → Option (List ℕ)
unfolding level_of
generate_log_message s severity =
    if s.log_inited then get_elem? s.log_fds (level_of severity) else some (2 ∷ [])

-- `LogMessageFatal::~LogMessageFatal`: where the message goes, and the function that is called then.
pub delete_fatal : Sinks → Option (List ℕ) × FailureFunction
unfolding generate_log_message
delete_fatal s = (generate_log_message s fatal, s.failure_function)
