-- ===== src/Service/Tests.antt =====
-- A receiver with a good method, a hidden one and a bad one.
use byterpc.Common.{
  ◌≡◌, ◌⊎◌, refl, Bool, true, false, [], ◌∷◌, none, leb, ◌&&◌, Text, codes, Dict, lookup, text_eq,
  Error, method_second_arg_must_be_pointer, ok, err,
}
use byterpc.Service.{GoType, named, pointer, ReflectMethod, Method, register_methods}
use byterpc.Service.Suitable.{last_entry, AllSuitable}
use byterpc.Service.Screening.{register_methods_lem}

abbrev pub upper_case : Text → Bool
upper_case [] = false
upper_case (c ∷ s) = leb 65 c && leb c 90

abbrev arith_type : GoType
arith_type = named (codes "Args") (codes "main")

abbrev error_type : GoType
error_type = named (codes "error") []

abbrev pub multiply : ReflectMethod
multiply = record {
  name = codes "Multiply";
  pkg_path = [];
  ins = pointer arith_type ∷ arith_type ∷ pointer (named (codes "int") []) ∷ [];
  outs = error_type ∷ [];
}

abbrev hidden : ReflectMethod
hidden = record multiply { name = codes "hidden"; pkg_path = codes "main" }

abbrev no_pointer : ReflectMethod
no_pointer = record multiply {
  name = codes "NoPointer";
  ins = pointer arith_type ∷ arith_type ∷ arith_type ∷ [];
}

refused :
    register_methods upper_case false (multiply ∷ no_pointer ∷ [])
    ≡ err method_second_arg_must_be_pointer
unfolding register_methods
refused = refl

register_methods_lem_example :
    (t : Dict Text Method) × (register_methods upper_case true (multiply ∷ hidden ∷ []) ≡ ok t)
    × ((n : Text) → lookup n t ≡ last_entry upper_case n none (multiply ∷ hidden ∷ []))
    × ((AllSuitable upper_case (multiply ∷ hidden ∷ [])
          × (register_methods upper_case false (multiply ∷ hidden ∷ []) ≡ ok t))
        ⊎ ((¬ AllSuitable upper_case (multiply ∷ hidden ∷ []))
            × ((e : Error) × (register_methods upper_case false (multiply ∷ hidden ∷ []) ≡ err e))))
register_methods_lem_example = register_methods_lem upper_case (multiply ∷ hidden ∷ [])
