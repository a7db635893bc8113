-- ===== src/Utils.antt =====
-- utils.go: the texts of errors, the list of errors as one error, and invoke points.
pub mod Split
pub mod Errors
pub mod Host
mod Tests
use byterpc.Common.{
  ℕ, suc, ◌+◌, ◌≡◌, List, [], ◌∷◌, ◌++◌, Option, none, some, if◌then◌else◌, ◌==◌, Text, codes,
  Error, eof, unexpected_eof, shutdown, client_conn_closing, addr_list_empty, addr_does_not_exist,
  no_available_address, invalid_invoke_point, no_target_provided, unsupported_registration_type,
  unsupported_operation, invalid_service_name, method_must_be_exported, service_already_defined,
  server_can_not_decode_request, method_must_have_three_parameters, method_args_must_be_exported,
  method_second_arg_must_be_pointer, method_return_value_must_be_an_error, server_error, message,
  Result, ok, err, panic, length,
}
use mathlib.Core.List.{reverse}

-- `err.Error()` for the errors that the code declares, and the two of package io that it tests for.
unfoldable pub error_text : Error → Text
error_text eof = codes "EOF"
error_text unexpected_eof = codes "unexpected EOF"
error_text shutdown = codes "connection is shut down"
error_text client_conn_closing = codes "balancer is closed"
error_text addr_list_empty = codes "addr list is emtpy"
error_text addr_does_not_exist = codes "addr does not exist"
error_text no_available_address = codes "no available address"
error_text invalid_invoke_point = codes "invalid invoke-point, must be: PSM:ServiceName.MethodName"
error_text no_target_provided = codes "no target provided"
error_text unsupported_registration_type = codes "unsupported registration type"
error_text unsupported_operation = codes "unsuppported operation"
error_text invalid_service_name = codes "invalid service name, can't be empty"
error_text method_must_be_exported = codes "method must be exported for registration"
error_text service_already_defined = codes "service already defined in this server."
error_text server_can_not_decode_request = codes "server cannot decode request"
error_text method_must_have_three_parameters =
    codes "method to be exported must has 2 parameters and 1 error return value"
error_text method_args_must_be_exported = codes "method's args must be exported"
error_text method_second_arg_must_be_pointer = codes "method's second args must be pointer"
error_text method_return_value_must_be_an_error = codes "method's return value must be an error"
error_text (server_error s) = s
error_text (message s) = s

-- `strings.Trim(s, " ")`.
abbrev pub trim_left : Text → Text
trim_left [] = []
trim_left (c ∷ s) = let rest = trim_left s in if c == b' ' then rest else c ∷ s

abbrev pub trim : Text → Text
trim s = reverse (trim_left (reverse (trim_left s)))

-- The text that the loop of `WrapArrayErrs` builds: each error on a line of its own.
unfoldable pub error_lines : List Error → Text
error_lines [] = []
error_lines (e ∷ es) = error_text e ++ (10 ∷ error_lines es)

unfoldable pub wrap_array_errs : List Error → Option Error
wrap_array_errs es =
    if length (trim (error_lines es)) == 0 then none else some (message (error_lines es))

-- `strings.Split(s, sep)` at a separator of one byte.
abbrev pub push : ℕ → List Text → List Text
push c [] = (c ∷ []) ∷ []
push c (w ∷ ws) = (c ∷ w) ∷ ws

unfoldable pub split : ℕ → Text → List Text
split sep [] = [] ∷ []
split sep (c ∷ s) = let rest = split sep s in if c == sep then [] ∷ rest else push c rest

-- `sp[0]` of a split.
abbrev pub first_part : List Text → Result Text
first_part [] = panic
first_part (w ∷ ws) = ok w

abbrev pub path_of : Text → Result Text → Result Text
path_of psm (ok name) = ok (codes "/" ++ (psm ++ (codes "/" ++ name)))
path_of psm (err e) = err e
path_of psm panic = panic

abbrev pub two_parts : List Text → Result Text
two_parts [] = err invalid_invoke_point
two_parts (psm ∷ []) = err invalid_invoke_point
two_parts (psm ∷ rest ∷ []) = path_of psm (first_part (split b'.' rest))
two_parts (psm ∷ rest ∷ more ∷ others) = err invalid_invoke_point

unfoldable pub transform_invoke_point_to_path : Text → Result Text
transform_invoke_point_to_path invoke_point = two_parts (split b':' invoke_point)
