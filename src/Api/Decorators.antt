-- ===== src/Api/Decorators.antt =====
-- A reading of the decorators of class-validator that meets the laws: it shows that they can be met, and
-- it runs the examples.
use ai_task_orchestrator.Base.{
  ℕ, ◌≤◌, ◌≡◌, ◌≢◌, refl, String, Bool, true, false, not, List, Option, none, some, includes,
  length, leb, ◌==◌, ◌&&◌, ◌⊎◌, inl, inr, arith,
}
use ai_task_orchestrator.Base.Json.{Json, Items, Fields}
use ai_task_orchestrator.Api.{Validator, to_list, All}

abbrev not_empty : Option Json → Bool
not_empty none = false
not_empty (some Json.null) = false
not_empty (some (Json.str s)) = not (s == "")
not_empty _ = true

abbrev string : Option Json → Bool
string (some (Json.str s)) = true
string _ = false

abbrev object : Option Json → Bool
object (some (Json.obj o)) = true
object _ = false

abbrev int : Option Json → Bool
int (some (Json.num n)) = true
int _ = false

abbrev array : Option Json → Bool
array (some (Json.arr js)) = true
array _ = false

abbrev all : (Json → Bool) → Items → Bool
all check Items.nil = true
all check (Items.cons j js) = check j && all check js

abbrev each : (Json → Bool) → Option Json → Bool
each check (some (Json.arr js)) = all check js
each check _ = false

abbrev size : Option Json → ℕ
size (some (Json.arr js)) = length (to_list js)
size _ = 0

abbrev text : Json → Bool
text (Json.str s) = true
text _ = false

abbrev nested : (Fields → Bool) → Json → Bool
nested check (Json.obj o) = check o
nested check Json.null = true
nested check _ = false

abbrev enum : List String → Option Json → Bool
enum names (some (Json.str s)) = includes s names
enum names _ = false

abbrev number : (ℕ → Bool) → Option Json → Bool
number check (some (Json.num n)) = check n
number check _ = false

abbrev optional_value : Option Json → Bool
optional_value none = true
optional_value (some Json.null) = true
optional_value _ = false

pub all_law :
    (check : Json → Bool) (P : Json → Type 0) (js : Items)
    → ((j : Json) → check j ≡ true → P j)
    → all check js ≡ true
    → All P (to_list js)
all_law check P Items.nil holds h = tt
all_law check P (Items.cons j js) holds h =
    (holds j (ground arith), all_law check P js holds (ground arith))

pub not_empty_law : (x : Option Json) → not_empty x ≡ true → x ≢ some (Json.str "")
not_empty_law x h = λ e. absurd (cc (rw e at h))

pub string_law : (x : Option Json) → string x ≡ true → (s : String) × (x ≡ some (Json.str s))
string_law (some (Json.str s)) h = (s, refl)
string_law none h = cc
string_law (some Json.null) h = cc
string_law (some (Json.bool b)) h = cc
string_law (some (Json.num n)) h = cc
string_law (some (Json.arr js)) h = cc
string_law (some (Json.obj o)) h = cc

pub object_law : (x : Option Json) → object x ≡ true → (o : Fields) × (x ≡ some (Json.obj o))
object_law (some (Json.obj o)) h = (o, refl)
object_law none h = cc
object_law (some Json.null) h = cc
object_law (some (Json.bool b)) h = cc
object_law (some (Json.num n)) h = cc
object_law (some (Json.arr js)) h = cc
object_law (some (Json.str s)) h = cc

pub int_law : (x : Option Json) → int x ≡ true → (n : ℕ) × (x ≡ some (Json.num n))
int_law (some (Json.num n)) h = (n, refl)
int_law none h = cc
int_law (some Json.null) h = cc
int_law (some (Json.bool b)) h = cc
int_law (some (Json.obj o)) h = cc
int_law (some (Json.arr js)) h = cc
int_law (some (Json.str s)) h = cc

pub array_law : (x : Option Json) → array x ≡ true → (js : Items) × (x ≡ some (Json.arr js))
array_law (some (Json.arr js)) h = (js, refl)
array_law none h = cc
array_law (some Json.null) h = cc
array_law (some (Json.bool b)) h = cc
array_law (some (Json.obj o)) h = cc
array_law (some (Json.num n)) h = cc
array_law (some (Json.str s)) h = cc

pub text_law : (j : Json) → text j ≡ true → (s : String) × (j ≡ Json.str s)
text_law (Json.str s) h = (s, refl)
text_law Json.null h = cc
text_law (Json.bool b) h = cc
text_law (Json.obj o) h = cc
text_law (Json.num n) h = cc
text_law (Json.arr js) h = cc

pub nested_law :
    (check : Fields → Bool) (j : Json)
    → nested check j ≡ true
    → (o : Fields) → j ≡ Json.obj o
    → check o ≡ true
nested_law check j h o e = rw e at h

pub enum_law :
    (names : List String) (x : Option Json)
    → enum names x ≡ true
    → (s : String) × (x ≡ some (Json.str s)) × (includes s names ≡ true)
enum_law names (some (Json.str s)) h = (s, refl, h)
enum_law names none h = cc
enum_law names (some Json.null) h = cc
enum_law names (some (Json.bool b)) h = cc
enum_law names (some (Json.obj o)) h = cc
enum_law names (some (Json.num n)) h = cc
enum_law names (some (Json.arr js)) h = cc

pub optional_law : (x : Option Json) → optional_value x ≡ true → (x ≡ none) ⊎ (x ≡ some Json.null)
optional_law none h = inl refl
optional_law (some Json.null) h = inr refl
optional_law (some (Json.str s)) h = cc
optional_law (some (Json.bool b)) h = cc
optional_law (some (Json.obj o)) h = cc
optional_law (some (Json.num n)) h = cc
optional_law (some (Json.arr js)) h = cc

pub min_law : (m n : ℕ) → number (leb m) (some (Json.num n)) ≡ true → m ≤ n
min_law m n h = ground (arith, h)

pub max_law : (m n : ℕ) → number (λ x. leb x m) (some (Json.num n)) ≡ true → n ≤ m
max_law m n h = ground (arith, h)

pub size_law :
    (m : ℕ) (js : Items) → leb m (size (some (Json.arr js))) ≡ true → m ≤ length (to_list js)
size_law m js h = ground (arith, h)

abbrev pub decorators : Validator
decorators = record {
  is_not_empty = not_empty;
  is_string = string;
  is_object = object;
  is_int = int;
  is_array = array;
  is_strings = each text;
  is_enum = enum;
  min = λ m. number (leb m);
  max = λ m. number (λ n. leb n m);
  array_min_size = λ m x. leb m (size x);
  validate_nested = λ check. each (nested check);
  is_optional = optional_value;
  is_not_empty_law = not_empty_law;
  is_string_law = string_law;
  is_object_law = object_law;
  is_int_law = int_law;
  is_array_law = array_law;
  is_strings_law = λ js h. all_law text (λ j. (s : String) × (j ≡ Json.str s)) js text_law h;
  is_enum_law = enum_law;
  min_law = min_law;
  max_law = max_law;
  array_min_size_law = size_law;
  validate_nested_law = λ check js h.
      all_law (nested check) (λ j. (o : Fields) → j ≡ Json.obj o → check o ≡ true) js
        (nested_law check) h;
  is_optional_law = optional_law;
}
