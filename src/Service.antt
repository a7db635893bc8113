-- ===== src/Service.antt =====
-- service.go: the screening of the methods of a receiver. A reflected type is its chain of pointers
-- to a type with a name and a package path; `unicode.IsUpper` of a name's first letter is an
-- argument.
pub mod Suitable
pub mod Screening
pub mod Tests
use byterpc.Common.{
  ℕ, Bool, true, false, ◌&&◌, ◌||◌, not, List, [], ◌∷◌, Option, none, some, if◌then◌else◌, ◌==◌,
  length, Text, codes, same, Dict, insert, text_eq, Error, method_must_have_three_parameters,
  method_args_must_be_exported, method_second_arg_must_be_pointer,
  method_return_value_must_be_an_error, Result, ok, err, panic,
}

pub data GoType : Type 0 where
  named : Text → Text → GoType
  pointer : GoType → GoType

-- `reflect.Method`, with the types of its parameters, the receiver first, and of its results.
pub record ReflectMethod : Type 0 where
  pub name : Text
  pub pkg_path : Text
  pub ins : List GoType
  pub outs : List GoType

-- `numCalls` is a counter that nothing reads.
pub record Method : Type 0 where
  pub method : ReflectMethod
  pub arg_type : GoType
  pub reply_type : GoType

pub record Service : Type 0 where
  pub name : Text
  pub methods : Dict Text Method

-- A nil map of metadata reads as an empty one.
pub record Endpoint : Type 0 where
  pub psm : Text
  pub address : Text
  pub service_name : Text
  pub path : Text
  pub meta_data : Dict Text Text

-- `Endpoint{}`
abbrev pub zero_endpoint : Endpoint
zero_endpoint = record { psm = []; address = []; service_name = []; path = []; meta_data = [] }

-- `Endpoint.Data`: only the metadata is marshalled.
abbrev pub endpoint_data : (Dict Text Text → Text) → Endpoint → Text
endpoint_data marshal e = marshal e.meta_data

abbrev pub is_pointer : GoType → Bool
is_pointer (named n p) = false
is_pointer (pointer t) = true

-- `returnType == typeOfError`
abbrev pub is_type_of_error : GoType → Bool
is_type_of_error (named n p) = same n (codes "error") && same p []
is_type_of_error (pointer t) = false

module _ (is_exported : Text → Bool) where
  unfoldable pub is_exported_or_builtin_type : GoType → Bool
  is_exported_or_builtin_type (named n p) = is_exported n || same p []
  is_exported_or_builtin_type (pointer t) = is_exported_or_builtin_type t

  -- The tests on the types of a method, in the order of the code.
  abbrev pub check_outs : List GoType → Option Error
  check_outs [] = some method_return_value_must_be_an_error
  check_outs (t ∷ []) =
      if is_type_of_error t then none else some method_return_value_must_be_an_error
  check_outs (t ∷ u ∷ ts) = some method_return_value_must_be_an_error

  abbrev pub check_types : GoType → GoType → List GoType → Option Error
  check_types arg_type reply_type outs =
      if not (is_exported_or_builtin_type arg_type)
      then some method_args_must_be_exported
      else if not (is_pointer reply_type)
      then some method_second_arg_must_be_pointer
      else if not (is_exported_or_builtin_type reply_type)
      then some method_args_must_be_exported
      else check_outs outs

  -- The method that is entered in the map, or the error of the first test that fails.
  abbrev pub screen : ReflectMethod → List GoType → Result Method
  screen m [] = err method_must_have_three_parameters
  screen m (r ∷ []) = err method_must_have_three_parameters
  screen m (r ∷ a ∷ []) = err method_must_have_three_parameters
  screen m (r ∷ a ∷ p ∷ []) = elim (check_types a p m.outs) [
    | none ↦ ok (record { method = m; arg_type = a; reply_type = p })
    | some e ↦ err e
  ]
  screen m (r ∷ a ∷ p ∷ q ∷ ts) = err method_must_have_three_parameters

  unfoldable pub register_loop :
      Bool → Dict Text Method → List ReflectMethod → Result (Dict Text Method)
  unfolding is_exported_or_builtin_type
  register_loop skip_error methods [] = ok methods
  register_loop skip_error methods (m ∷ ms) =
      if not (same m.pkg_path [])
      then register_loop skip_error methods ms
      else elim (screen m m.ins) [
        | ok entry ↦ register_loop skip_error (insert m.name entry methods) ms
        | err e ↦ if skip_error then register_loop skip_error methods ms else err e
        | panic ↦ panic
      ]

  unfoldable pub register_methods : Bool → List ReflectMethod → Result (Dict Text Method)
  unfolding register_loop
  register_methods skip_error ms = register_loop skip_error [] ms
