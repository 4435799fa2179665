-- ===== src/Api/Types.antt =====
-- What a body that passes the decorators is.
use ai_task_orchestrator.Base.Given.{Given, given, is_null, missing, to_option}
use ai_task_orchestrator.Base.{
  ℕ, suc, ◌≤◌, ◌≡◌, ◌≢◌, refl, ap, ◌∙◌, String, Bool, true, false, List, [], ◌∷◌, Option, none,
  some, includes, length, ◌==◌, ◌&&◌, inl, inr, arith, Bool-cases, get_or,
}
use ai_task_orchestrator.Base.Json.{Json, Items, Fields}
use ai_task_orchestrator.Queue.{
  TaskPriority, critical, high, normal, low, TaskType, simple, code, complex,
}
use ai_task_orchestrator.Api.{
  Validator, to_list, All, AreObjects, as_string, as_fields, as_number, as_given, as_list, collect,
}
use ai_task_orchestrator.Api.Bodies.{
  to_priority, to_task_type, as_priority, as_task_type, priorities, task_types, object_of, optional,
  text_check, object_check, check_list,
}

pub split : (a b : Bool) → a && b ≡ true → (a ≡ true) × (b ≡ true)
split true b h = (refl, h)
split false b h = cc

to_priority-returns :
    (s : String) → includes s priorities ≡ true → (p : TaskPriority) × (to_priority s ≡ some p)
to_priority-returns s h = elim (Bool-cases ("critical" == s)) [
  | inl e ↦ (critical, rw e refl)
  | inr a ↦ elim (Bool-cases ("high" == s)) [
    | inl e ↦ (high, rw (a, e) refl)
    | inr b ↦ elim (Bool-cases ("normal" == s)) [
      | inl e ↦ (normal, rw (a, b, e) refl)
      | inr c ↦ elim (Bool-cases ("low" == s)) [
        | inl e ↦ (low, rw (a, b, c, e) refl)
        | inr d ↦ absurd (ground (arith, h, a, b, c, d))
      ]
    ]
  ]
]

to_task_type-returns :
    (s : String) → includes s task_types ≡ true → (t : TaskType) × (to_task_type s ≡ some t)
to_task_type-returns s h = elim (Bool-cases ("simple" == s)) [
  | inl e ↦ (simple, rw e refl)
  | inr a ↦ elim (Bool-cases ("code" == s)) [
    | inl e ↦ (code, rw (a, e) refl)
    | inr b ↦ elim (Bool-cases ("complex" == s)) [
      | inl e ↦ (complex, rw (a, b, e) refl)
      | inr c ↦ absurd (ground (arith, h, a, b, c))
    ]
  ]
]

abbrev Reads : {A : Type 0} → (Option Json → Option A) → Option Json → Type 0
Reads {A} read x = (a : A) × (read x ≡ some a)

as_given-Reads :
    {A : Type 0} (read : Option Json → Option A) (x : Option Json)
    → Reads read x
    → Reads (as_given read) x
as_given-Reads read none h = (missing, refl)
as_given-Reads read (some Json.null) h = (is_null, refl)
as_given-Reads read (some (Json.bool b)) (a, e) = (given a, rw e refl)
as_given-Reads read (some (Json.num b)) (a, e) = (given a, rw e refl)
as_given-Reads read (some (Json.str b)) (a, e) = (given a, rw e refl)
as_given-Reads read (some (Json.arr b)) (a, e) = (given a, rw e refl)
as_given-Reads read (some (Json.obj b)) (a, e) = (given a, rw e refl)

All-both :
    (check : Fields → Bool) (l : List Json)
    → All (λ j. (o : Fields) × (j ≡ Json.obj o)) l
    → All (λ j. (o : Fields) → j ≡ Json.obj o → check o ≡ true) l
    → All (λ j. (o : Fields) × (j ≡ Json.obj o) × (check o ≡ true)) l
All-both check [] h k = tt
All-both check (j ∷ js) ((o, e), h) (k, ks) = ((o, e, k o e), All-both check js h ks)

module _ (v : Validator) where
  optional-Reads :
      {A : Type 0} (read : Option Json → Option A) (check : Option Json → Bool) (x : Option Json)
      → (check x ≡ true → Reads read x)
      → optional v check x ≡ true
      → Reads (as_given read) x
  optional-Reads read check x holds h = elim (Bool-cases (v.is_optional x)) [
    | inl t ↦ elim (v.is_optional_law x t) [
      | inl e ↦ rw e (missing, refl)
      | inr e ↦ rw e (is_null, refl)
    ]
    | inr f ↦ as_given-Reads read x (holds (rw f at h))
  ]

  pub text-Reads :
      (x : Option Json) → text_check v x ≡ true → (s : String) × (as_string x ≡ some s) × (s ≢ "")
  text-Reads x h =
      let (full, is) = split (v.is_not_empty x) (v.is_string x) h in
      let (s, e) = v.is_string_law x is in
      (s, rw e refl, λ k. v.is_not_empty_law x full (e ∙ ap (λ w. some (Json.str w)) k))

  pub object-Reads : (x : Option Json) → object_check v x ≡ true → Reads as_fields x
  object-Reads x h =
      let (o, e) = v.is_object_law x (split (v.is_not_empty x) (v.is_object x) h).1 in
      (o, rw e refl)

  string-Reads : (x : Option Json) → v.is_string x ≡ true → Reads as_string x
  string-Reads x h = let (s, e) = v.is_string_law x h in (s, rw e refl)

  priority-Reads : (x : Option Json) → v.is_enum priorities x ≡ true → Reads as_priority x
  priority-Reads x h =
      let (s, e, known) = v.is_enum_law priorities x h in
      let (p, k) = to_priority-returns s known in (p, rw (e, k) refl)

  task_type-Reads : (x : Option Json) → v.is_enum task_types x ≡ true → Reads as_task_type x
  task_type-Reads x h =
      let (s, e, known) = v.is_enum_law task_types x h in
      let (t, k) = to_task_type-returns s known in (t, rw (e, k) refl)

  collect-Reads :
      {A : Type 0} (read : Json → Option A) (P : Json → Type 0) (js : Items)
      → ((j : Json) → P j → (a : A) × (read j ≡ some a))
      → All P (to_list js)
      → (l : List A) × (collect read js ≡ some l) × (length l ≡ length (to_list js))
  collect-Reads read P Items.nil holds all = ([], refl, refl)
  collect-Reads read P (Items.cons j js) holds (h, hs) =
      let (a, e) = holds j h in
      let (l, k, n) = collect-Reads read P js holds hs in (a ∷ l, rw (e, k) refl, ap suc n)

  pub list-Reads :
      {A : Type 0} (read : Fields → Option A) (check : Fields → Bool) (least : ℕ) (x : Option Json)
      → ((o : Fields) → check o ≡ true → (a : A) × (read o ≡ some a))
      → AreObjects x
      → check_list v least check x ≡ true
      → (l : List A) × (as_list (object_of read) x ≡ some l) × (least ≤ length l)
  list-Reads read check least x holds objects h =
      let (is, rest) = split (v.is_array x) _ h in
      let (long, each) = split (v.array_min_size least x) (v.validate_nested check x) rest in
      let (js, e) = v.is_array_law x is in
      let (l, k, n) =
        collect-Reads (object_of read) (λ j. (o : Fields) × (j ≡ Json.obj o) × (check o ≡ true)) js
          (λ j (o, k, c). rw k (holds o c))
          (All-both check (to_list js) (rw e at objects)
            (v.validate_nested_law check js (rw e at each))) in
      (l, rw e k, omega (arith, n, v.array_min_size_law least js (rw e at long)))

  strings-Reads :
      (x : Option Json)
      → v.is_array x && v.is_strings x ≡ true
      → Reads (as_list (λ j. as_string (some j))) x
  strings-Reads x h =
      let (is, each) = split (v.is_array x) (v.is_strings x) h in
      let (js, e) = v.is_array_law x is in
      let (l, k, n) =
        collect-Reads (λ j. as_string (some j)) (λ j. (s : String) × (j ≡ Json.str s)) js
          (λ j (s, k). (s, rw k refl)) (v.is_strings_law js (rw e at each)) in
      (l, rw e k)

  pub given_priority-Reads :
      (x : Option Json)
      → optional v (v.is_enum priorities) x ≡ true
      → Reads (as_given as_priority) x
  given_priority-Reads x h =
      optional-Reads as_priority (v.is_enum priorities) x (priority-Reads x) h

  pub given_task_type-Reads :
      (x : Option Json)
      → optional v (v.is_enum task_types) x ≡ true
      → Reads (as_given as_task_type) x
  given_task_type-Reads x h =
      optional-Reads as_task_type (v.is_enum task_types) x (task_type-Reads x) h

  pub given_string-Reads :
      (x : Option Json) → optional v v.is_string x ≡ true → Reads (as_given as_string) x
  given_string-Reads x h = optional-Reads as_string v.is_string x (string-Reads x) h

  pub given_strings-Reads :
      (x : Option Json)
      → optional v (λ y. v.is_array y && v.is_strings y) x ≡ true
      → Reads (as_given (as_list (λ j. as_string (some j)))) x
  given_strings-Reads x h =
      optional-Reads (as_list (λ j. as_string (some j))) (λ y. v.is_array y && v.is_strings y) x
        (strings-Reads x) h

  pub given_number-Reads :
      (least most : ℕ) (x : Option Json)
      → optional v (λ y. v.is_int y && (v.min least y && v.max most y)) x ≡ true
      → (n : Given ℕ) × (as_given as_number x ≡ some n)
        × ((d : ℕ)
            → least ≤ d
            → d ≤ most
            → (least ≤ get_or (to_option n) d) × (get_or (to_option n) d ≤ most))
  given_number-Reads least most x h = elim (Bool-cases (v.is_optional x)) [
    | inl t ↦ elim (v.is_optional_law x t) [
      | inl e ↦ rw e (missing, refl, λ d k l. (k, l))
      | inr e ↦ rw e (is_null, refl, λ d k l. (k, l))
    ]
    | inr f ↦
        let (int, range) = split (v.is_int x) _ (rw f at h) in
        let (above, below) = split (v.min least x) (v.max most x) range in
        let (n, e) = v.is_int_law x int in
        rw e (
          given n,
          refl,
          λ d _ _. (v.min_law least n (rw e at above), v.max_law most n (rw e at below)),
        )
  ]
