-- ===== src/Common/Results.antt =====
-- How a Go function with an error result ends: a value, an error, or a panic.
use byterpc.Common.Strings.{Text}

-- The error values that the code tells apart; `errors.New` elsewhere is `message`.
pub data Error : Type 0 where
  eof unexpected_eof : Error
  shutdown client_conn_closing : Error
  addr_list_empty addr_does_not_exist no_available_address : Error
  invalid_invoke_point no_target_provided unsupported_registration_type : Error
  unsupported_operation : Error
  invalid_service_name method_must_be_exported service_already_defined : Error
  server_can_not_decode_request : Error
  method_must_have_three_parameters method_args_must_be_exported : Error
  method_second_arg_must_be_pointer method_return_value_must_be_an_error : Error
  server_error : Text → Error
  message : Text → Error

pub data Result {ℓ} (A : Type ℓ) : Type ℓ where
  ok : A → Result A
  err : Error → Result A
  panic : Result A
