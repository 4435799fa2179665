-- ===== src/Api.antt =====
-- The bodies of requests: the decorators that the DTOs of apps/api carry, and the values that their
-- classes declare. A property that is not there is `undefined`, here `none`.
pub mod Bodies
pub mod Handlers
pub mod Types
pub mod Admitted
pub mod Requests
pub mod Decorators
mod Examples
use ai_task_orchestrator.Base.{
  ℕ, ◌≤◌, ◌≡◌, ◌≢◌, String, Bool, true, false, List, [], ◌∷◌, Option, none, some, includes, length,
  if◌then◌else◌, ◌==◌, ◌⊎◌,
}
use ai_task_orchestrator.Base.Given.{Given, missing, is_null, given}
use ai_task_orchestrator.Base.Json.{Json, Items, Fields}

abbrev pub to_list : Items → List Json
to_list Items.nil = []
to_list (Items.cons j js) = j ∷ to_list js

abbrev pub All : (Json → Type 0) → List Json → Type 0
All P [] = Unit {0}
All P (j ∷ js) = P j × All P js

-- The decorators of class-validator that the DTOs use, with what its documentation says that a value
-- is which they accept.
pub record Validator : Type 0 where
  pub is_not_empty : Option Json → Bool
  pub is_string : Option Json → Bool
  pub is_object : Option Json → Bool
  pub is_int : Option Json → Bool
  pub is_array : Option Json → Bool
  pub is_strings : Option Json → Bool
  pub is_enum : List String → Option Json → Bool
  pub min : ℕ → Option Json → Bool
  pub max : ℕ → Option Json → Bool
  pub array_min_size : ℕ → Option Json → Bool
  pub validate_nested : (Fields → Bool) → Option Json → Bool
  -- `@IsOptional()`: the other decorators of the property are ignored.
  pub is_optional : Option Json → Bool
  pub is_not_empty_law : (x : Option Json) → is_not_empty x ≡ true → x ≢ some (Json.str "")
  pub is_string_law :
      (x : Option Json) → is_string x ≡ true → (s : String) × (x ≡ some (Json.str s))
  pub is_object_law :
      (x : Option Json) → is_object x ≡ true → (o : Fields) × (x ≡ some (Json.obj o))
  pub is_int_law : (x : Option Json) → is_int x ≡ true → (n : ℕ) × (x ≡ some (Json.num n))
  pub is_array_law : (x : Option Json) → is_array x ≡ true → (js : Items) × (x ≡ some (Json.arr js))
  pub is_strings_law :
      (js : Items)
      → is_strings (some (Json.arr js)) ≡ true
      → All (λ j. (s : String) × (j ≡ Json.str s)) (to_list js)
  pub is_enum_law :
      (names : List String) (x : Option Json)
      → is_enum names x ≡ true
      → (s : String) × (x ≡ some (Json.str s)) × (includes s names ≡ true)
  pub min_law : (m n : ℕ) → min m (some (Json.num n)) ≡ true → m ≤ n
  pub max_law : (m n : ℕ) → max m (some (Json.num n)) ≡ true → n ≤ m
  pub array_min_size_law :
      (m : ℕ) (js : Items) → array_min_size m (some (Json.arr js)) ≡ true → m ≤ length (to_list js)
  -- Of the elements of an array the objects are checked. Nothing is said of other elements.
  pub validate_nested_law :
      (check : Fields → Bool) (js : Items)
      → validate_nested check (some (Json.arr js)) ≡ true
      → All (λ j. (o : Fields) → j ≡ Json.obj o → check o ≡ true) (to_list js)
  pub is_optional_law : (x : Option Json) → is_optional x ≡ true → (x ≡ none) ⊎ (x ≡ some Json.null)

abbrev pub both : {A B : Type 0} → Option A → Option B → Option (A × B)
both (some a) (some b) = some (a, b)
both _ _ = none

abbrev pub convert : {A B : Type 0} → (A → B) → Option A → Option B
convert f none = none
convert f (some a) = some (f a)

abbrev pub as_string : Option Json → Option String
as_string (some (Json.str s)) = some s
as_string _ = none

abbrev pub as_fields : Option Json → Option Fields
as_fields (some (Json.obj o)) = some o
as_fields _ = none

abbrev pub as_number : Option Json → Option ℕ
as_number (some (Json.num n)) = some n
as_number _ = none

abbrev pub as_given : {A : Type 0} → (Option Json → Option A) → Option Json → Option (Given A)
as_given read none = some missing
as_given read (some Json.null) = some is_null
as_given read x = convert given (read x)

-- The elements of an array are objects, not null or arrays themselves.
abbrev pub AreObjects : Option Json → Type 0
AreObjects (some (Json.arr js)) = All (λ j. (o : Fields) × (j ≡ Json.obj o)) (to_list js)
AreObjects _ = Unit {0}

-- All items, or none.
abbrev pub collect : {A : Type 0} → (Json → Option A) → Items → Option (List A)
collect read Items.nil = some []
collect read (Items.cons j js) = convert (λ (a, l). a ∷ l) (both (read j) (collect read js))

abbrev pub as_list : {A : Type 0} → (Json → Option A) → Option Json → Option (List A)
as_list read (some (Json.arr js)) = collect read js
as_list read _ = none
