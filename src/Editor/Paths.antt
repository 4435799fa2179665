-- ===== src/Editor/Paths.antt =====
-- Edges, paths, and what the maps of the validation hold.
use mathlib.Core.List.{append-nil, append_assoc}
use ai_task_orchestrator.Base.{
  ◌+◌, ◌<◌, ◌≡◌, refl, sym, ap, ◌∙◌, String, List, [], ◌∷◌, ◌++◌, arith, none, get_or, count,
  count-append, ◌==◌, eq_cases, if◌then◌else◌, inl, inr, Option-cases, subst,
}
use ai_task_orchestrator.Base.Dict
use ai_task_orchestrator.Base.Dict.{Dict, get-set, get_or-set}
use ai_task_orchestrator.Editor.{Edge, push_at, adjacency, dependencies}

-- Where the edges from `u` lead, and where those to `v` come from.
abbrev pub targets : List Edge → String → List String
targets [] u = []
targets (e ∷ es) u = (if e.source == u then e.target ∷ [] else []) ++ targets es u

abbrev pub sources : List Edge → String → List String
sources [] v = []
sources (e ∷ es) v = (if e.target == v then e.source ∷ [] else []) ++ sources es v

-- There is an edge from `u` to `v`.
abbrev pub Joins : List Edge → String → String → Type 0
Joins es u v = 0 < count v (targets es u)

pub data Leads (es : List Edge) : String → String → Type 0 where
  here : (u : String) → Leads es u u
  along : (u v w : String) → Joins es u v → Leads es v w → Leads es u w

pub Leads-trans : {es : List Edge} {u v w : String} → Leads es u v → Leads es v w → Leads es u w
Leads-trans (here u) q = q
Leads-trans (along u x v j p) q = along u x _ j (Leads-trans p q)

-- The map once the key is there.
abbrev opened : Dict (List String) → String → Dict (List String)
opened m k = if Dict.has m k then m else Dict.set m k []

get_or-opened :
    (m : Dict (List String)) (k j : String)
    → get_or (Dict.get (opened m k) j) [] ≡ get_or (Dict.get m j) []
unfolding Dict.has
get_or-opened m k j = elim (Option-cases (Dict.get m k)) [
  | inl e ↦ rw e (
      get_or-set m k j [] [] ∙ elim (eq_cases k j) [
        | inl (t, p) ↦ rw t (sym (ap (λ o. get_or o []) (subst (λ x. Dict.get m x ≡ none) p e)))
        | inr (f, ne) ↦ rw f refl
      ])
  | inr (l, e) ↦ rw e refl
]

get_or-push_at :
    (m : Dict (List String)) (k j v : String)
    → get_or (Dict.get (push_at m k v) j) []
      ≡ get_or (Dict.get m j) [] ++ (if k == j then v ∷ [] else [])
unfolding push_at Dict.has
get_or-push_at m k j v =
    get_or-set (opened m k) k j (get_or (Dict.get (opened m k) k) [] ++ v ∷ []) []
    ∙ elim (eq_cases k j) [
      | inl (t, e) ↦
          rw t (ap (λ l. l ++ v ∷ []) (get_or-opened m k k ∙ ap (λ x. get_or (Dict.get m x) []) e))
      | inr (f, ne) ↦ rw f (get_or-opened m k j ∙ sym (append-nil (get_or (Dict.get m j) [])))
    ]

pub adjacency-targets :
    (m : Dict (List String)) (es : List Edge) (u : String)
    → get_or (Dict.get (adjacency m es) u) [] ≡ get_or (Dict.get m u) [] ++ targets es u
unfolding adjacency
adjacency-targets m [] u = sym (append-nil (get_or (Dict.get m u) []))
adjacency-targets m (e ∷ es) u =
    adjacency-targets (push_at m e.source e.target) es u
    ∙ ap (λ l. l ++ targets es u) (get_or-push_at m e.source u e.target)
    ∙ append_assoc (get_or (Dict.get m u) []) (if e.source == u then e.target ∷ [] else [])
        (targets es u)

pub dependencies-sources :
    (m : Dict (List String)) (es : List Edge) (v : String)
    → get_or (Dict.get (dependencies m es) v) [] ≡ get_or (Dict.get m v) [] ++ sources es v
unfolding dependencies
dependencies-sources m [] v = sym (append-nil (get_or (Dict.get m v) []))
dependencies-sources m (e ∷ es) v =
    dependencies-sources (push_at m e.target e.source) es v
    ∙ ap (λ l. l ++ sources es v) (get_or-push_at m e.target v e.source)
    ∙ append_assoc (get_or (Dict.get m v) []) (if e.target == v then e.source ∷ [] else [])
        (sources es v)

-- Both views count the same edges.
pub count-sources :
    (es : List Edge) (u v : String) → count u (sources es v) ≡ count v (targets es u)
count-sources [] u v = refl
count-sources (e ∷ es) u v = ground (arith, count-sources es u v)

pub count-targets_append :
    (es fs : List Edge) (u v : String)
    → count v (targets (es ++ fs) u) ≡ count v (targets es u) + count v (targets fs u)
count-targets_append [] fs u v = omega arith
count-targets_append (e ∷ es) fs u v = omega (
  arith,
  count-targets_append es fs u v,
  count-append v (if e.source == u then e.target ∷ [] else []) (targets (es ++ fs) u),
  count-append v (if e.source == u then e.target ∷ [] else []) (targets es u),
)
