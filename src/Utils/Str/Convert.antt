-- ===== src/Utils/Str/Convert.antt =====
-- The conversions of src/utils/StringUtils.h. What formatted input does with a text is a parameter:
-- the value (an indeterminate one if it stores none), and whether the stream is then at its end and has
-- failed.
use ccml.Base.{Bool, ◌&&◌, not}
use ccml.Utils.Logging.{Logged, cc_check, ◌>>◌, quiet}
use ccml.Utils.Str.{Text}

pub record Extracted (T : Type 0) : Type 0 where
  pub value : T
  pub eof : Bool
  pub fail : Bool

module _ {T : Type 0} (extract : Text → Extracted T) where
  -- `to_with_status`: the value, and `*ok`.
  pub to_with_status : Text → T × Bool
  to_with_status s = let v = extract s in (v.value, v.eof && not v.fail)

  -- `to`
  pub to : Text → Logged T
  unfolding to_with_status
  to s = let (v, ok) = to_with_status s in cc_check ok "StringUtils.h" 44 >> quiet v
