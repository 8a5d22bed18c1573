-- ===== src/Rule/Errors/Tests.antt =====
-- Comparisons of validation results (pkg/rule_engine/type.go).
use co_scout.Prelude.{◌≡◌, refl, true, false, some, none, [], ◌∷◌, codes}
use co_scout.Rule.Errors.{
  ValidationError, ValidationResult, condition_section, compare_validation_result,
}

abbrev empty_conditions : ValidationError
empty_conditions = record {
  location = some (record { error_section = condition_section; item_index = 0 });
  unexpected_version = none;
  syntax_error = false;
  empty_section = true;
}

abbrev bad_version : ValidationError
bad_version = record {
  location = none;
  unexpected_version = some (codes "VERSION_2" ∷ []);
  syntax_error = false;
  empty_section = false;
}

abbrev failed_with : ValidationError → ValidationResult
failed_with e = record { success = false; errors = e ∷ [] }

told_apart :
    compare_validation_result (failed_with empty_conditions) (failed_with bad_version) ≡ false
unfolding compare_validation_result
told_apart = refl
