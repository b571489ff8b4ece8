-- ===== src/Device/Report.antt =====
-- The messages that report an error code of the executor.
use thespian.Prelude.{List, [], ◌∷◌}
use thespian.Prelude.Int.{ℤ}
use thespian.Cbor.Result.{Bytes}
use thespian.Cbor.Buffer.{push_int, push_string}
use thespian.Actor.Messages.{array}

-- An `error_code` that is set: its value and its message.
pub record ErrorCode : Type 0 where
  pub value : ℤ
  pub message : Bytes

-- `array(parms..., ec.value(), ec.message())`
abbrev pub error_parts : ErrorCode → List Bytes
error_parts e = push_int e.value ∷ push_string e.message ∷ []

-- `array(device, tag, what, parms...)`, as `owner_.send` builds it.
unfoldable pub report : Bytes → Bytes → Bytes → List Bytes → Bytes
report device tag what parms =
    array (push_string device ∷ push_string tag ∷ push_string what ∷ parms)

unfoldable pub report_error : Bytes → Bytes → Bytes → ErrorCode → Bytes
unfolding report
report_error device tag what e = report device tag what (error_parts e)
