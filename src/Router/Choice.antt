-- ===== src/Router/Choice.antt =====
-- Which model a task is sent to.
use mathlib.Core.Option.{some-injective}
use ai_task_orchestrator.Base.{
  ◌≡◌, refl, sym, ap, ◌∙◌, ◌≢◌, eq_cases, Option-cases, ◌⊎◌, inl, inr, String, true, List, [], ◌∷◌,
  Option, none, some, is_some, ◌==◌, Bool-cases, arith,
}
use ai_task_orchestrator.Queue.{TaskType}
use ai_task_orchestrator.Models.{Clients, get_model, get_default_model}
use ai_task_orchestrator.Router.{
  is_available, first_available, resolve, explicit, candidates, or_else, default_id,
}

is_available-registered :
    (c : Clients) (id : String) → is_available c id ≡ true → is_some (get_model id) ≡ true
unfolding is_available
is_available-registered c id h = ground arith

first_available-is_available :
    (c : Clients) (ids : List String) (id : String)
    → first_available c ids ≡ some id
    → is_available c id ≡ true
unfolding first_available
first_available-is_available c [] id h = absurd (cc)
first_available-is_available c (x ∷ xs) id h = elim (Bool-cases (is_available c x)) [
  | inl t ↦ ap (is_available c) (some-injective id x (sym h ∙ rw t)) ∙ t
  | inr f ↦ first_available-is_available c xs id (rw f at h)
]

default_lem : (c : Clients) → is_available c "llama3.2" ≡ true
unfolding is_available
default_lem c = refl

-- What is returned, and why.
abbrev pub IsRouted : Clients → Option String → Option String → Type 0
IsRouted c model result =
    (id : String) × (result ≡ some id)
    × (is_some (get_model id) ≡ true)
    × ((is_available c id ≡ true) ⊎ (model ≡ some id))

route_lem :
    (c : Clients) (model : Option String) (ids : List String)
    → IsRouted c model (or_else (first_available c ids) (some "llama3.2"))
route_lem c model ids = elim (Option-cases (first_available c ids)) [
  | inl e ↦
      ("llama3.2", rw e, is_available-registered c "llama3.2" (default_lem c), inl (default_lem c))
  | inr (id, e) ↦
      let ready = first_available-is_available c ids id e in
      (id, rw e, is_available-registered c id ready, inl ready)
]

explicit_lem :
    (c : Clients) (model : String) (ids : List String)
    → IsRouted c
        (some model)
        (or_else (explicit (some model)) (or_else (first_available c ids) (some "llama3.2")))
explicit_lem c model ids = elim (Bool-cases (model == "")) [
  | inl blank ↦ rw blank (route_lem c (some model) ids)
  | inr named ↦ elim (Bool-cases (is_some (get_model model))) [
    | inl known ↦ rw (named, known) (model, refl, known, inr refl)
    | inr unknown ↦ rw (named, unknown) (route_lem c (some model) ids)
  ]
]

default_id_lem : default_id get_default_model ≡ some "llama3.2"
unfolding get_default_model
default_id_lem = refl

-- `resolve` always returns a model of the registry, so `LlmService.call` never meets an unknown
-- model; and the provider of the model has a client, unless the task named that model itself.
pub resolve-IsRouted :
    (c : Clients) (model : Option String) (t : Option TaskType)
    → IsRouted c model (resolve c model t)
resolve-IsRouted c none t = unfold resolve in rw default_id_lem (route_lem c none (candidates t))
resolve-IsRouted c (some model) t =
    unfold resolve in rw default_id_lem (explicit_lem c model (candidates t))

-- A known model that a task names is taken, whatever the type of the task and the clients.
pub resolve-known :
    (c : Clients) (model : String) (t : Option TaskType)
    → is_some (get_model model) ≡ true
    → model ≢ ""
    → resolve c (some model) t ≡ some model
resolve-known c model t known ne =
    unfold resolve in
    elim (eq_cases model "") [ inl (b, e) ↦ absurd (ne e) | inr (f, _) ↦ rw (f, known) refl ]

-- A name that the registry does not know is as if no model were named.
pub resolve-unknown :
    (c : Clients) (model : String) (t : Option TaskType)
    → get_model model ≡ none
    → resolve c (some model) t ≡ resolve c none t
resolve-unknown c model t unknown =
    unfold resolve in
    elim (Bool-cases (model == "")) [ inl b ↦ rw b refl | inr f ↦ rw (f, unknown) refl ]
