-- ===== src/Utils/Init/Start.antt =====
-- `init_main` of src/utils/Util.cpp and `print_version` of src/utils/Version.cpp: what a program does first.
-- The command line and the flags are arguments, and so are the time, the environment's log directory
-- and what `open` answers.
use ccml.Base.{
  ℕ, ◌%◌, ◌^◌, Bool, true, false, List, [], ◌∷◌, ◌++◌, Option, length, ◌==◌, if◌then◌else◌,
}
use ccml.Utils.Logging.{Logged, cc_check, cc_log, info, ◌>>=◌, ◌>>◌, quiet}
use ccml.Utils.Logging.Sinks.{Sinks, Initialized, ready, exited, undefined, initialize_log_fds}
use ccml.Utils.Str.{Text}
use ccml.Utils.Init.{Sort, Registry, run_init_functions}

-- The flags that are read.
pub record StartFlags : Type 0 where
  pub seed : ℕ
  pub version : Bool

-- The variables of the other parts that change; `srand_seed` is also that of `ThreadLocalRand`.
pub record Program : Type 0 where
  pub sinks : Sinks
  pub registry : Registry
  pub command_line : Text
  pub srand_seed : ℕ

-- `init_main` returns, ends the program with a status, or is undefined.
pub data Start : Type 0 where
  returned : Logged Program → Start
  ended : ℕ → Start
  broken : Start

-- The loop that joins the arguments, each with a space behind it.
pub command_line_of : List Text → Text
command_line_of [] = []
command_line_of (arg ∷ args) = arg ++ (32 ∷ command_line_of args)

-- The seed: the time in seconds, as an `unsigned`, if the flag is 0.
pub seeded : ℕ → ℕ → Logged ℕ
seeded seed time =
    if seed == 0 then cc_log info "Util.cpp" 85 >> quiet (time % 2 ^ 32) else quiet seed

module _ (sort : Sort) (open_file : Text → Option ℕ) (log_dir : Option Text) (time : ℕ) where
  -- The last two calls; `print_version` ends the program if the flag is set.
  pub versioned : Bool → Logged Program → Start
  versioned true before = ended 0
  versioned false before = returned (
      before >>= λ p. run_init_functions sort p.registry >>= λ g. quiet (record p { registry = g }))

  -- `init_main` behind `initialize_logging`, which ends the program with -1 if a file does not open.
  pub logging_ready : StartFlags → List Text → Registry → Logged (Unit {0}) → Initialized → Start
  unfolding versioned seeded command_line_of
  logging_ready flags argv g before (ready s) = versioned flags.version (
      before
      >> cc_log info "Util.cpp" 73
      >> (seeded flags.seed time >>= λ seed. quiet (record {
        sinks = s;
        registry = g;
        command_line = command_line_of argv;
        srand_seed = seed;
      })))
  logging_ready flags argv g before exited = ended 255
  logging_ready flags argv g before undefined = broken

  -- `init_main`; there is always an `argv[0]`.
  pub init_main : StartFlags → Text → List Text → Sinks → Registry → Start
  unfolding logging_ready
  init_main flags argv0 args s g =
      logging_ready flags (argv0 ∷ args) g (cc_check (length (argv0 ∷ args) == 1) "Util.cpp" 63)
        (initialize_log_fds open_file log_dir argv0 s)
