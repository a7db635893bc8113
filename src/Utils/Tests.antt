-- ===== src/Utils/Tests.antt =====
-- The cases of utils_test.go, and the theorems at concrete inputs.
use byterpc.Common.{
  ◌≡◌, refl, [], ◌∷◌, ◌++◌, some, codes, ok, err, message, eof, invalid_invoke_point,
}
use byterpc.Utils.{error_text, error_lines, wrap_array_errs, split, transform_invoke_point_to_path}
use byterpc.Utils.Errors.{wrap_array_errs_cons}

wrap_three_errors :
    wrap_array_errs
      (message (codes "error 1") ∷ message (codes "error 2") ∷ message (codes "error 3") ∷ [])
    ≡ some
        (message (codes "error 1" ++ (10 ∷ codes "error 2" ++ (10 ∷ codes "error 3" ++ (10 ∷ [])))))
unfolding wrap_array_errs error_lines error_text
wrap_three_errors = refl

right_transform :
    transform_invoke_point_to_path (codes "a.b.c:FooService.BarMethod")
    ≡ ok (codes "/a.b.c/FooService")
unfolding transform_invoke_point_to_path split
right_transform = refl

illegal_transform :
    transform_invoke_point_to_path (codes "a.b.c.FooService.BarMethod") ≡ err invalid_invoke_point
unfolding transform_invoke_point_to_path split
illegal_transform = refl

wrap_array_errs_cons_example :
    wrap_array_errs (message [] ∷ eof ∷ []) ≡ some (message (error_lines (message [] ∷ eof ∷ [])))
wrap_array_errs_cons_example = wrap_array_errs_cons (message []) (eof ∷ [])
