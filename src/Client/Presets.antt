-- ===== src/Client/Presets.antt =====
-- apps/web/src/pages/Workflows.tsx: the DAGs that the buttons of the page send.
use ai_task_orchestrator.Base.{
  ℕ, zero, suc, ◌+◌, ◌≤◌, ◌<◌, ◌≡◌, ◌≢◌, refl, ap, sym, subst, ◌∙◌, String, List, [], ◌∷◌, ◌++◌,
  map, none, some, count, count-append, includes-true_iff, IsDistinct, if◌then◌else◌, ◌==◌, eq_iff,
  eq_refl, arith, ◌⊎◌, inl, inr, eq_cases, positive_cases, Bool-cases,
}
use ai_task_orchestrator.Base.Json.{Json, Fields, end, field}
use ai_task_orchestrator.Base.Result.{ok}
use ai_task_orchestrator.Jobs.{Effect}
use ai_task_orchestrator.Workflow.{DagNodeInput, DagMeta, ids, deps_of}
use ai_task_orchestrator.Workflow.Store.{Redis}
use ai_task_orchestrator.Workflow.Sort.Outcome.{IsRanked, IsClosed}
use ai_task_orchestrator.Workflow.Sort.Correct.{topological_layers-returns}
use ai_task_orchestrator.Workflows.{create_dag, normal}
use ai_task_orchestrator.Workflows.Lifecycle.{create_dag-accepts}

abbrev node : String → List String → Fields → DagNodeInput
node id ds payload = record {
  id = id;
  payload = payload;
  depends_on = some ds;
  task_type = none;
  model = none;
}

abbrev root_node : String → Fields → DagNodeInput
root_node id payload = record {
  id = id;
  payload = payload;
  depends_on = none;
  task_type = none;
  model = none;
}

abbrev text_payload : String → Fields
text_payload s = field "text" (Json.str s) end

abbrev pub diamond_nodes : List DagNodeInput
diamond_nodes =
    root_node "A" (text_payload "root")
    ∷ node "B" ("A" ∷ []) (text_payload "left")
    ∷ node "C" ("A" ∷ []) (text_payload "right")
    ∷ node "D" ("B" ∷ "C" ∷ []) (text_payload "join")
    ∷ []

-- `label i` is the text `M${i}`.
module _ (label : ℕ → String) where
  -- `Array.from({ length: width }, …)`, from the index on.
  unfoldable pub labels : (index width : ℕ) → List String
  labels index zero = []
  labels index (suc width) = label index ∷ labels (suc index) width

  abbrev pub mid_node : String → DagNodeInput
  mid_node id = node id ("root" ∷ []) (field "i" (Json.str id) end)

  unfoldable pub fan_nodes : (width : ℕ) → List DagNodeInput
  unfolding labels
  fan_nodes width =
      let mids = labels 0 width in
      root_node "root" (text_payload "start")
      ∷ (map mid_node mids ++ node "sink" mids (text_payload "collect") ∷ [])

  abbrev tail : (mids ms : List String) → List DagNodeInput
  tail mids ms = map normal (map mid_node ms ++ node "sink" mids (text_payload "collect") ∷ [])

  -- The edges of a fan whose nodes in the middle are `mids`.
  tail_edges :
      (mids ms : List String) (u v : String)
      → count u (deps_of (tail mids ms) v)
        ≡ (if "root" == u then count v ms else 0) + (if "sink" == v then count u mids else 0)
  tail_edges mids [] u v = ground (arith, count-append u (if "sink" == v then mids else []) [])
  tail_edges mids (m ∷ ms) u v = ground (
    arith,
    tail_edges mids ms u v,
    count-append u (if m == v then "root" ∷ [] else []) (deps_of (tail mids ms) v),
  )

  ids-tail : (mids ms : List String) → ids (tail mids ms) ≡ ms ++ "sink" ∷ []
  ids-tail mids [] = refl
  ids-tail mids (m ∷ ms) = ap (λ l. m ∷ l) (ids-tail mids ms)

  -- The labels differ from each other and from the two other ids.
  abbrev pub AreLabels : (width : ℕ) → Type 0
  AreLabels width =
      ((m n : ℕ) → m < width → n < width → label m ≡ label n → m ≡ n)
      × ((n : ℕ) → n < width → (label n ≢ "root") × (label n ≢ "sink"))

  label_index :
      (index width : ℕ) (x : String)
      → 0 < count x (labels index width)
      → (n : ℕ) × (index ≤ n) × (n < index + width) × (x ≡ label n)
  unfolding labels
  label_index index zero x h = absurd (omega (arith, h))
  label_index index (suc width) x h = elim (eq_cases (label index) x) [
    | inl (t, e) ↦ (index, omega arith, omega arith, sym e)
    | inr (f, _) ↦
        let (n, k, l, e) = label_index (suc index) width x (omega (arith, rw f at h)) in
        (n, omega (arith, k), omega (arith, l), e)
  ]

  labels-IsDistinct :
      (total index width : ℕ)
      → index + width ≤ total
      → AreLabels total
      → IsDistinct (labels index width)
  unfolding labels
  labels-IsDistinct total index zero h are x = omega arith
  labels-IsDistinct total index (suc width) h are x = elim (eq_cases (label index) x) [
    | inl (t, e) ↦ elim (positive_cases (count x (labels (suc index) width))) [
      | inl none_left ↦ rw t (omega (arith, none_left))
      | inr more ↦
          let (n, k, l, e') = label_index (suc index) width x more in
          let same = are.0 index n (omega (arith, h)) (omega (arith, h, l)) (e ∙ e') in
          absurd (omega (arith, k, same))
    ]
    | inr (f, _) ↦
        rw f (omega (arith, labels-IsDistinct total (suc index) width (omega (arith, h)) are x))
  ]

  -- The rank of a node of the fan: the root, the middle, the sink.
  abbrev rank : String → ℕ
  rank x = if "root" == x then 0 else if "sink" == x then 2 else 1

  module _ (width : ℕ) (are : AreLabels width) where
    abbrev mids : List String
    mids = labels 0 width

    abbrev fan : List DagNodeInput
    fan = normal (root_node "root" (text_payload "start")) ∷ tail mids mids

    middle : (x : String) → 0 < count x mids → rank x ≡ 1
    middle x h =
        let (n, _, k, e) = label_index 0 width x h in
        let (a, b) = are.1 n (omega (arith, k)) in
        elim (eq_cases "root" x) [
          | inl (_, is) ↦ absurd (a (sym (is ∙ e)))
          | inr (f, _) ↦ elim (eq_cases "sink" x) [
            | inl (_, is) ↦ absurd (b (sym (is ∙ e)))
            | inr (g, _) ↦ rw (f, g) refl
          ]
        ]

    fan_edges :
        (u v : String)
        → count u (deps_of fan v)
          ≡ (if "root" == u then count v mids else 0) + (if "sink" == v then count u mids else 0)
    fan_edges u v = elim (Bool-cases ("root" == v)) [
      | inl t ↦ rw t (tail_edges mids mids u v)
      | inr f ↦ rw f (tail_edges mids mids u v)
    ]

    fan_edge :
        (u v : String)
        → 0 < count u (deps_of fan v)
        → ((u ≡ "root") × (0 < count v mids)) ⊎ ((v ≡ "sink") × (0 < count u mids))
    fan_edge u v h =
        let h' : 0
            < (if "root" == u then count v mids else 0)
              + (if "sink" == v then count u mids else 0) =
          omega (arith, h, fan_edges u v) in
        elim (eq_cases "sink" v) [
          | inr (f, _) ↦ elim (eq_cases "root" u) [
            | inr (g, _) ↦ absurd (omega (arith, rw (f, g) at h'))
            | inl (t, e) ↦ inl (sym e, omega (arith, rw (f, t) at h'))
          ]
          | inl (t, e) ↦ elim (positive_cases (count u mids)) [
            | inr more ↦ inr (sym e, more)
            | inl nothing ↦ elim (eq_cases "root" u) [
              | inr (g, _) ↦ absurd (omega (arith, rw (t, g) at h', nothing))
              | inl (k, is) ↦ inl (sym is, omega (arith, rw (t, k) at h', nothing))
            ]
          ]
        ]

    fan-IsRanked : IsRanked rank fan
    fan-IsRanked u v h = elim (fan_edge u v h) [
      | inl (e, k) ↦ omega (arith, ap rank e, middle v k)
      | inr (e, k) ↦ omega (arith, ap rank e, middle u k)
    ]

    ids_count :
        (x : String)
        → count x (ids fan)
          ≡ (if "root" == x then 1 else 0) + (count x mids + (if "sink" == x then 1 else 0))
    ids_count x =
        ap (λ l. (if "root" == x then 1 else 0) + count x l) (ids-tail mids mids)
        ∙ ap (λ n. (if "root" == x then 1 else 0) + n) (count-append x mids ("sink" ∷ []))
        ∙ omega arith

    fan-IsClosed : IsClosed fan
    fan-IsClosed u v h = (includes-true_iff u (ids fan)).1 (elim (fan_edge u v h) [
      | inl (e, k) ↦
          subst (λ w. 0 < count w (ids fan)) (sym e)
            (ground (arith, ids_count "root", eq_refl "root"))
      | inr (e, k) ↦ omega (arith, ids_count u, k)
    ])

    fan-IsDistinct : IsDistinct (ids fan)
    fan-IsDistinct x = elim (positive_cases (count x mids)) [
      | inr more ↦
          ground
            (arith, middle x more, ids_count x, labels-IsDistinct width 0 width (omega arith) are x)
      | inl nothing ↦
          ground
            (arith, nothing, ids_count x, eq_iff "root" x, eq_iff "sink" x, eq_iff "root" "sink")
    ]

  -- Whatever the width, the button for a fan sends a DAG that the API creates.
  pub fan_nodes-created :
      (width : ℕ) (r : Redis) (uuid : DagNodeInput → String) (dag created_at : String) (s : r.Store)
      → AreLabels width
      → (t : r.Store) × (first : List Effect) × (m : DagMeta) × (create_dag r uuid dag created_at
            "demo" none s
            (fan_nodes width)
          ≡ ok ((t, first), m))
  unfolding fan_nodes
  fan_nodes-created width r uuid dag created_at s are =
      let (layers, e) =
        topological_layers-returns (normal (root_node "root" (text_payload "start")))
          (tail (labels 0 width) (labels 0 width)) rank (fan-IsDistinct width are)
          (fan-IsClosed width are) (fan-IsRanked width are) in
      create_dag-accepts r uuid dag created_at "demo" none s (fan_nodes width) layers e
