-- ===== src/Editor/Edits.antt =====
-- What the edits of the page do to its nodes and edges.
use ai_task_orchestrator.Base.{
  positive_cases, ◌≡◌, refl, sym, ap, ◌∙◌, subst, String, true, List, [], ◌∷◌, ◌++◌, arith, count,
  includes, includes-true_iff, ◌==◌, eq_iff, eq_cases, Bool-cases, if◌then◌else◌, inl, inr, ◌⊎◌,
}
use ai_task_orchestrator.Editor.{
  Edge, EditorNode, Patch, payload, task_type, patched, patch_at, without_nodes, without_ends,
}
use ai_task_orchestrator.Editor.Paths.{
  targets, Joins, Leads, here, along, Leads-trans, count-targets_append,
}
use ai_task_orchestrator.Editor.Checks.{IsAcyclic, Leads-mono, node_ids, IsBetween}

module _ (es : List Edge) (e : Edge) where
  -- A joined pair was joined before, or the new edge joins it.
  Joins-snoc :
      {u v : String} → Joins (es ++ e ∷ []) u v → Joins es u v ⊎ (e.source ≡ u) × (e.target ≡ v)
  Joins-snoc {u} {v} j = elim (positive_cases (count v (targets es u))) [
    | inl absent ↦ inr (
        ground (
          arith,
          absent,
          j,
          count-targets_append es (e ∷ []) u v,
          eq_iff e.source u,
          eq_iff e.target v,
        ))
    | inr there ↦ inl there
  ]

  -- A path uses the new edge or not.
  Leads-snoc :
      {u v : String}
      → Leads (es ++ e ∷ []) u v
      → Leads es u v ⊎ Leads es u e.source × Leads es e.target v
  Leads-snoc (here u) = inl (here u)
  Leads-snoc (along u x v j p) = elim (Joins-snoc j) [
    | inl k ↦ elim (Leads-snoc p) [
      | inl q ↦ inl (along u x v k q)
      | inr (q, q') ↦ inr (along u x e.source k q, q')
    ]
    | inr (f, g) ↦
        let from = subst (Leads es u) (sym f) (here u) in
        elim (Leads-snoc p) [
          | inl q ↦ inr (from, subst (λ w. Leads es w v) (sym g) q)
          | inr (_, q') ↦ inr (from, q')
        ]
  ]

  pub IsAcyclic-snoc : IsAcyclic es → ¬ Leads es e.target e.source → IsAcyclic (es ++ e ∷ [])
  IsAcyclic-snoc acyclic apart u v j p = elim (Joins-snoc j) [
    | inl k ↦ elim (Leads-snoc p) [
      | inl q ↦ acyclic u v k q
      | inr (q, q') ↦ apart (Leads-trans q' (along u v e.source k q))
    ]
    | inr (f, g) ↦ apart (
        subst (λ w. Leads es w e.source) (sym g)
          (elim (Leads-snoc p) [ inl q ↦ subst (Leads es v) (sym f) q | inr (q, _) ↦ q ]))
  ]

  pub IsBetween-snoc :
      (known : List String)
      → IsBetween es known
      → includes e.source known ≡ true
      → includes e.target known ≡ true
      → IsBetween (es ++ e ∷ []) known
  IsBetween-snoc known between s t u v j = elim (Joins-snoc j) [
    | inl k ↦ between u v k
    | inr (f, g) ↦
        (subst (λ w. includes w known ≡ true) f s, subst (λ w. includes w known ≡ true) g t)
  ]

pub IsAcyclic-mono :
    {es fs : List Edge}
    → ((u v : String) → Joins fs u v → Joins es u v)
    → IsAcyclic es
    → IsAcyclic fs
IsAcyclic-mono h acyclic u v j p = acyclic u v (h u v j) (Leads-mono h p)

module _ (deleted : List String) where
  pub count-without_ends :
      (es : List Edge) (u v : String)
      → count v (targets (without_ends deleted es) u) ≡ (
          if includes u deleted
          then 0
          else if includes v deleted
          then 0
          else count v (targets es u))
  count-without_ends [] u v = ground arith
  count-without_ends (e ∷ es) u v = elim (eq_cases e.source u) [
    | inl (f, p) ↦ elim (eq_cases e.target v) [
      | inl (g, q) ↦ ground (
        arith,
        f,
        g,
        ap (λ w. includes w deleted) p,
        ap (λ w. includes w deleted) q,
        count-without_ends es u v,
      )
      | inr (g, q) ↦ ground (arith, f, g, count-without_ends es u v)
    ]
    | inr (f, p) ↦ ground (arith, f, count-without_ends es u v)
  ]

  pub count-without_nodes :
      (ns : List EditorNode) (x : String)
      → count x (node_ids (without_nodes deleted ns))
        ≡ (if includes x deleted then 0 else count x (node_ids ns))
  count-without_nodes [] x = ground arith
  count-without_nodes (n ∷ ns) x = elim (eq_cases n.id x) [
    | inl (f, p) ↦ ground (arith, f, ap (λ w. includes w deleted) p, count-without_nodes ns x)
    | inr (f, p) ↦ ground (arith, f, count-without_nodes ns x)
  ]

  pub IsBetween-without :
      (ns : List EditorNode) (es : List Edge)
      → IsBetween es (node_ids ns)
      → IsBetween (without_ends deleted es) (node_ids (without_nodes deleted ns))
  IsBetween-without ns es between u v j = ground (
    arith,
    j,
    count-without_ends es u v,
    between u v,
    count-without_nodes ns u,
    count-without_nodes ns v,
    includes-true_iff u (node_ids (without_nodes deleted ns)),
    includes-true_iff v (node_ids (without_nodes deleted ns)),
    includes-true_iff u (node_ids ns),
    includes-true_iff v (node_ids ns),
  )

id-patched : (p : Patch) (n : EditorNode) → (patched p n).id ≡ n.id
id-patched (payload f) n = refl
id-patched (task_type t) n = refl

pub node_ids-patch_at :
    (p : Patch) (id : String) (ns : List EditorNode) → node_ids (patch_at p id ns) ≡ node_ids ns
node_ids-patch_at p id [] = refl
node_ids-patch_at p id (n ∷ ns) = elim (Bool-cases (n.id == id)) [
  | inl t ↦ rw t (
      ap (λ x. x ∷ node_ids (patch_at p id ns)) (id-patched p n)
      ∙ ap (λ l. n.id ∷ l) (node_ids-patch_at p id ns))
  | inr f ↦ rw f (ap (λ l. n.id ∷ l) (node_ids-patch_at p id ns))
]

pub node_ids-append : (ns ms : List EditorNode) → node_ids (ns ++ ms) ≡ node_ids ns ++ node_ids ms
node_ids-append [] ms = refl
node_ids-append (n ∷ ns) ms = ap (λ l. n.id ∷ l) (node_ids-append ns ms)
