-- ===== src/Rule/Errors.antt =====
-- Validation errors and their comparison: pkg/rule_engine/type.go. A pointer to an empty struct is
-- whether it is there.
mod Tests
use co_scout.Prelude.{
  ℕ, ◌≡◌, ◌↔◌, refl, ap, Bool, true, false, not, ◌&&◌, List, [], ◌∷◌, Option, none, some, ◌==◌,
  if◌then◌else◌, length, Text, text_eq, text_eq_iff, is_some, arith,
}

pub data ErrorSection : Type 0 where
  condition_section action_section : ErrorSection

pub record Location : Type 0 where
  pub error_section : ErrorSection
  pub item_index : ℕ

pub record ValidationError : Type 0 where
  pub location : Option Location
  pub unexpected_version : Option (List Text)
  pub syntax_error : Bool
  pub empty_section : Bool

pub record ValidationResult : Type 0 where
  pub success : Bool
  pub errors : List ValidationError

same_bool : Bool → Bool → Bool
same_bool true b = b
same_bool false b = not b

section_eq : ErrorSection → ErrorSection → Bool
section_eq condition_section condition_section = true
section_eq action_section action_section = true
section_eq _ _ = false

unfoldable pub location_equal : Location → Location → Bool
unfolding section_eq
location_equal l other =
    section_eq l.error_section other.error_section && l.item_index == other.item_index

-- The loop of `sliceEqual`, behind its test of the lengths.
slice_loop : List Text → List Text → Bool
slice_loop [] bs = true
slice_loop (a ∷ xs) [] = false
slice_loop (a ∷ xs) (b ∷ bs) = if text_eq a b then slice_loop xs bs else false

unfoldable pub slice_equal : List Text → List Text → Bool
unfolding slice_loop
slice_equal a b = if length a == length b then slice_loop a b else false

locations_equal : Option Location → Option Location → Bool
unfolding location_equal
locations_equal none none = true
locations_equal (some l) (some other) = location_equal l other
locations_equal none (some other) = false
locations_equal (some l) none = false

versions_equal : Option (List Text) → Option (List Text) → Bool
unfolding slice_equal
versions_equal none none = true
versions_equal (some a) (some b) = slice_equal a b
versions_equal none (some b) = false
versions_equal (some a) none = false

unfoldable pub error_equal : ValidationError → ValidationError → Bool
unfolding locations_equal versions_equal same_bool
error_equal e other =
    if not (locations_equal e.location other.location)
    then false
    else if not (versions_equal e.unexpected_version other.unexpected_version)
    then false
    else if not (same_bool e.syntax_error other.syntax_error)
    then false
    else same_bool e.empty_section other.empty_section

-- The loop over the errors, behind the test of their number.
errors_loop : List ValidationError → List ValidationError → Bool
unfolding error_equal
errors_loop [] ds = true
errors_loop (e ∷ es) [] = false
errors_loop (e ∷ es) (d ∷ ds) = if not (error_equal e d) then false else errors_loop es ds

unfoldable pub compare_validation_result : ValidationResult → ValidationResult → Bool
unfolding errors_loop same_bool
compare_validation_result r1 r2 =
    if not (same_bool r1.success r2.success)
    then false
    else if length r1.errors == length r2.errors
    then errors_loop r1.errors r2.errors
    else false

slice_equal_iff : (a b : List Text) → (slice_equal a b ≡ true) ↔ (a ≡ b)
unfolding slice_equal
slice_equal_iff [] [] = ground arith
slice_equal_iff [] (y ∷ b) = ground arith
slice_equal_iff (x ∷ a) [] = ground arith
slice_equal_iff (x ∷ a) (y ∷ b) = ground (arith, text_eq_iff x y, slice_equal_iff a b)

locations_equal_iff : (l k : Option Location) → (locations_equal l k ≡ true) ↔ (l ≡ k)
unfolding locations_equal
locations_equal_iff none none = ground arith
locations_equal_iff none (some k) = ground arith
locations_equal_iff (some l) none = ground arith
locations_equal_iff (some l) (some k) = ground arith

versions_equal_iff : (l k : Option (List Text)) → (versions_equal l k ≡ true) ↔ (l ≡ k)
unfolding versions_equal
versions_equal_iff none none = ground arith
versions_equal_iff none (some k) = ground arith
versions_equal_iff (some l) none = ground arith
versions_equal_iff (some l) (some k) = ground (arith, slice_equal_iff l k)

-- Two errors compare equal exactly if they are the same.
pub error_equal_iff : (e d : ValidationError) → (error_equal e d ≡ true) ↔ (e ≡ d)
unfolding error_equal
error_equal_iff e d = ground (
  arith,
  locations_equal_iff e.location d.location,
  versions_equal_iff e.unexpected_version d.unexpected_version,
)

errors_equal_iff :
    (es ds : List ValidationError)
    → ((length es == length ds && errors_loop es ds) ≡ true) ↔ (es ≡ ds)
unfolding errors_loop
errors_equal_iff [] [] = ground arith
errors_equal_iff [] (d ∷ ds) = ground arith
errors_equal_iff (e ∷ es) [] = ground arith
errors_equal_iff (e ∷ es) (d ∷ ds) = ground (arith, error_equal_iff e d, errors_equal_iff es ds)

-- Two results compare equal exactly if they are the same.
pub compare_validation_result_iff :
    (r1 r2 : ValidationResult) → (compare_validation_result r1 r2 ≡ true) ↔ (r1 ≡ r2)
unfolding compare_validation_result
compare_validation_result_iff r1 r2 = ground (arith, errors_equal_iff r1.errors r2.errors)
