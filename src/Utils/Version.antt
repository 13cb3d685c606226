-- ===== src/Utils/Version.antt =====
-- src/utils/Version.cpp. The version is set by the build, `with_gpu` is `is_gpu()`.
use ccml.Base.{ℕ, Bool, true, false, Option, none, some}
use ccml.Utils.Str.{Text}

-- What `print_version(os)` writes: the version and the flag.
pub print_version_to : Text → Bool → Text × Bool
print_version_to version with_gpu = (version, with_gpu)

-- `print_version`: what is written, and the status that the program exits with; `none` goes on.
pub print_version : Bool → Text → Bool → Option ((Text × Bool) × ℕ)
unfolding print_version_to
print_version true version with_gpu = some (print_version_to version with_gpu, 0)
print_version false version with_gpu = none
