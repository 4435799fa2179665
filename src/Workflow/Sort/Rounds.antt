-- ===== src/Workflow/Sort/Rounds.antt =====
-- The `while` loop of `topologicalLayers`: what the in-degrees and the next frontier are after
-- each of its loops.
use ai_task_orchestrator.Base.{
  ℕ, suc, ◌+◌, ◌≤◌, ◌<◌, ◌≡◌, sym, ap, ◌∙◌, subst, String, Bool, true, false, ◌&&◌, List, [], ◌∷◌,
  ◌++◌, arith, ℤ, pos, pred, is_zero, pred-pos-suc, includes, count, missing, count-append,
  missing-snoc, inl, inr, ◌==◌, eq_refl, eq_cases, if◌then◌else◌, Bool-cases,
}
use mathlib.Core.List.{append-nil, append_assoc}
use ai_task_orchestrator.Base.Dict.{set}
use ai_task_orchestrator.Workflow.{DagNodeInput, ids, deps_of}
use ai_task_orchestrator.Workflow.Sort.{
  Graph, Degrees, degree, children, release_children, release_frontier,
}
use ai_task_orchestrator.Workflow.Sort.Graphs.{degree-set, IsGraphOf}

-- 1 for a known node whose counter stands at zero.
abbrev pub flag : Bool → ℤ → ℕ
flag known d = if known && is_zero d then 1 else 0

-- Each known text is counted once as soon as its counter is zero, and never before.
pub flag_step :
    (known : Bool) (m before : ℕ)
    → known ≡ true
    → before ≡ flag known (pos (suc m))
    → before + (if is_zero (pos m) then 1 else 0) ≡ flag known (pos m)
unfolding is_zero
flag_step known m before k h = ground arith

module _ (known : String → Bool) (need placed : String → ℕ) where
  pub release_children_lem :
      (deg : Degrees) (next cs : List String)
      → ((v : String) → degree deg v ≡ pos (need v + count v cs))
      → ((v : String) → placed v + count v next ≡ flag (known v) (degree deg v))
      → ((v : String) → 0 < count v cs → known v ≡ true)
      → ((v : String) → degree (release_children deg next cs).0 v ≡ pos (need v))
        × ((v : String)
            → placed v + count v (release_children deg next cs).1
              ≡ flag (known v) (degree (release_children deg next cs).0 v))
  unfolding release_children
  release_children_lem deg next [] hd hp hk = (λ v. hd v ∙ ap pos (omega arith), hp)
  release_children_lem deg next (c ∷ cs) hd hp hk =
      release_children_lem (set deg c d) (if is_zero d then next ++ c ∷ [] else next) cs deg'
        placed' (λ v h. hk v (ground arith))
    where
      d : ℤ
      d = pred (degree deg c)

      at_c : degree deg c ≡ pos (suc (need c + count c cs))
      at_c = hd c ∙ ap pos (ground (arith, eq_refl c))

      d_lem : d ≡ pos (need c + count c cs)
      d_lem = ap pred at_c ∙ pred-pos-suc _

      deg' : (v : String) → degree (set deg c d) v ≡ pos (need v + count v cs)
      deg' v = elim (eq_cases c v) [
        | inl (t, e) ↦
            rw (degree-set deg c v d, t) (d_lem ∙ ap (λ (w : String). pos (need w + count w cs)) e)
        | inr (f, ne) ↦ rw (degree-set deg c v d, f) (hd v ∙ ap pos (ground arith))
      ]

      placed_c :
          placed c + count c (if is_zero d then next ++ c ∷ [] else next)
          ≡ flag (known c) (degree (set deg c d) c)
      placed_c =
          rw (degree-set deg c c d, eq_refl c, d_lem)
            (ground (
              arith,
              flag_step (known c) (need c + count c cs) (placed c + count c next)
                  (hk c (ground (arith, eq_refl c))) (hp c ∙ ap (flag (known c)) at_c),
              count-append c next (c ∷ []),
              eq_refl c,
            ))

      placed' :
          (v : String)
          → placed v + count v (if is_zero d then next ++ c ∷ [] else next)
            ≡ flag (known v) (degree (set deg c d) v)
      placed' v = elim (eq_cases c v) [
        | inl (t, e) ↦
            subst
              (λ w.
                placed w + count w (if is_zero d then next ++ c ∷ [] else next)
                ≡ flag (known w) (degree (set deg c d) w))
              e placed_c
        | inr (f, ne) ↦
            rw (degree-set deg c v d, f) (ground (arith, hp v, count-append v next (c ∷ [])))
      ]

-- Only known nodes have dependencies.
pub known_of_dep :
    (nodes : List DagNodeInput) (u v : String)
    → 0 < count u (deps_of nodes v)
    → includes v (ids nodes) ≡ true
known_of_dep [] u v h = absurd (omega arith)
known_of_dep (n ∷ ns) u v h = elim (Bool-cases (n.id == v)) [
  | inl t ↦ rw t
  | inr f ↦ rw f (known_of_dep ns u v (rw f at h))
]

pub flag_le_one : (known : Bool) (d : ℤ) → flag known d ≤ 1
flag_le_one true d = elim (Bool-cases (is_zero d)) [
  | inl t ↦ rw t (omega arith)
  | inr f ↦ rw f (omega arith)
]
flag_le_one false d = omega arith

module _ (nodes : List DagNodeInput) (g : Graph) (is_graph : IsGraphOf nodes g) where
  abbrev pub is_known : String → Bool
  is_known v = includes v (ids nodes)

  -- `done` is placed, `next` is the frontier in the making, and the counters count what is missing.
  pub record Inv (done frontier next : List String) (deg : Degrees) : Type 0 where
    pub counters : (v : String) → degree deg v ≡ pos (missing done (deps_of nodes v))
    pub placed :
        (v : String)
        → count v done + count v frontier + count v next ≡ flag (is_known v) (degree deg v)

  pub release_frontier-Inv :
      (done frontier next : List String) (deg : Degrees)
      → Inv done frontier next deg
      → Inv
          (done ++ frontier)
          []
          (release_frontier g.adjacency deg next frontier).1
          (release_frontier g.adjacency deg next frontier).0
  unfolding release_frontier
  release_frontier-Inv done [] next deg inv = record {
    counters = λ v. rw (append-nil done) (inv.counters v);
    placed = λ v. rw (append-nil done) (inv.placed v);
  }
  release_frontier-Inv done (u ∷ rest) next deg inv = rw (← append_assoc done (u ∷ []) rest) (
      release_frontier-Inv (done ++ u ∷ []) rest
        (release_children deg next (children g.adjacency u)).1
        (release_children deg next (children g.adjacency u)).0
        (record { counters = counters; placed = placed }))
    where
      absent : count u done ≡ 0
      absent = ground (arith, inv.placed u, flag_le_one (is_known u) (degree deg u), eq_refl u)

      after : String → ℕ
      after v = missing (done ++ u ∷ []) (deps_of nodes v)

      both :
          ((v : String)
            → degree (release_children deg next (children g.adjacency u)).0 v ≡ pos (after v))
          × ((v : String)
              → (count v (done ++ u ∷ []) + count v rest)
                  + count v (release_children deg next (children g.adjacency u)).1
                ≡ flag
                    (is_known v)
                    (degree (release_children deg next (children g.adjacency u)).0 v))
      both =
          release_children_lem is_known after (λ v. count v (done ++ u ∷ []) + count v rest) deg
            next (children g.adjacency u)
            (λ v.
              inv.counters v
              ∙ ap pos (
                  missing-snoc u done (deps_of nodes v) absent
                  ∙ ap (λ (k : ℕ). after v + k) (sym (is_graph.edges u v))))
            (λ v. ground (arith, inv.placed v, count-append v done (u ∷ [])))
            (λ v h. known_of_dep nodes u v (ground (arith, is_graph.edges u v)))

      counters :
          (v : String)
          → degree (release_children deg next (children g.adjacency u)).0 v ≡ pos (after v)
      counters = both.0

      placed :
          (v : String)
          → count v (done ++ u ∷ [])
              + count v rest
              + count v (release_children deg next (children g.adjacency u)).1
            ≡ flag (is_known v) (degree (release_children deg next (children g.adjacency u)).0 v)
      placed = both.1
