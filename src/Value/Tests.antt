-- ===== src/Value/Tests.antt =====
-- Runs of the value operations.
use base_nexs.Common.{◌≡◌, ◌↔◌, refl, true, false, ◌==◌, []}
use base_nexs.Value.{null_str, null_ptr, str, err, val_equal, val_is_truthy}
use base_nexs.Value.Equal.{val_equal_iff}

val_equal_iff_example : (val_equal (λ f g. f == g) null_str (str []) ≡ true) ↔ (null_str ≡ str [])
val_equal_iff_example = val_equal_iff (λ f g. f == g) null_str (str []) tt

both_null : val_equal (λ f g. f == g) null_ptr null_ptr ≡ true
unfolding val_equal
both_null = refl

null_is_not_empty : val_equal (λ f g. f == g) null_str (str []) ≡ false
unfolding val_equal
null_is_not_empty = refl

error_is_false : val_is_truthy (λ f. true) (err 1 []) ≡ false
unfolding val_is_truthy
error_is_false = refl

errors_differ : val_equal (λ f g. f == g) (err 1 []) (err 1 []) ≡ false
unfolding val_equal
errors_differ = refl
