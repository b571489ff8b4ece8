-- ===== src/Actor/Messages.antt =====
-- The messages that the runtime itself makes and looks for (src/instance.cpp).
use thespian.Prelude.{ℕ, Bool, true, false, List, [], ◌∷◌, ◌++◌, none, some, length, bytes_eq}
use thespian.Prelude.Text.{codes}
use thespian.Cbor.Result.{
  Bytes, Error, too_short, invalid_integer_type, invalid_float_type, expected_array_or_map,
  expected_array, expected_map, unsupported_type_tag, unsupported_type_unknown,
  unsupported_simple_value, Result, ok, ◌>>=◌,
}
use thespian.Cbor.Buffer.{push_string, push_uint, push_null, array_header}
use thespian.Cbor.Kind.{Kind}
use thespian.Cbor.Match.{Matched, is, str, last, next, match_message}

-- `array(parms...)` of parameters that are given by what `push` appends for them.
unfoldable pub concat : List Bytes → Bytes
concat [] = []
concat (p ∷ ps) = p ++ concat ps

-- With no parameter `cbor::array()` is a null.
unfoldable pub array : List Bytes → Bytes
unfolding concat
array [] = push_null
array (p ∷ ps) = array_header (length (p ∷ ps)) ++ concat (p ∷ ps)

abbrev pub text : Bytes → Bytes
text = push_string

unfoldable pub exit_message : Bytes → List Bytes → Bytes
unfolding array
exit_message e parms = array (text (codes "exit") ∷ text e ∷ parms)

unfoldable pub link_msg : Bytes
unfolding array
link_msg = array (text (codes "link") ∷ [])

unfoldable pub is_link_msg : Bytes → Bool
unfolding link_msg
is_link_msg m = bytes_eq m link_msg

unfoldable pub exit_normal_msg : Bytes
unfolding exit_message
exit_normal_msg = exit_message (codes "normal") []

unfoldable pub exit_noreceive_msg : Bytes
unfolding exit_message
exit_noreceive_msg = exit_message (codes "noreceive") []

unfoldable pub null_value : Bytes
null_value = push_null

abbrev pub is_match : Matched → Bool
is_match none = false
is_match (some xs) = true

-- `m("exit", any, more)`, which throws where `m` is no array.
unfoldable pub is_exit_msg : Bytes → Result Bool
is_exit_msg m = do
  r ← match_message (next (str (codes "exit")) (next (is Kind.any) (last (is Kind.more)))) m
  ok (is_match r)

-- `m("exit", more)`
unfoldable pub is_any_exit : Bytes → Result Bool
is_any_exit m = do
  r ← match_message (next (str (codes "exit")) (last (is Kind.more))) m
  ok (is_match r)

-- `ref_m(id, name)`
unfoldable pub ref_m : ℕ → Bytes → Bytes
unfolding array
ref_m id name = array (text (codes "PID") ∷ push_uint id ∷ text name ∷ [])

-- The `what()` of a `domain_error` of the codec.
unfoldable pub what : Error → Bytes
what too_short = codes "cbor message too short"
what invalid_integer_type = codes "cbor invalid integer type"
what invalid_float_type = codes "cbor invalid float type"
what expected_array_or_map = codes "cbor unexpected type (expected array or map)"
what expected_array = codes "cbor unexpected type (expected array)"
what expected_map = codes "cbor unexpected type (expected map)"
what unsupported_type_tag = codes "cbor unsupported type tag"
what unsupported_type_unknown = codes "cbor unsupported type unknown"
what unsupported_simple_value = codes "cbor unsupported simple value"
