-- ===== src/Editor/Search.antt =====
-- `wouldCreateCycle` decides whether the new edge would close a cycle.
use ai_task_orchestrator.Base.{
  positive_cases, ℕ, zero, suc, ◌+◌, ◌≤◌, ◌<◌, ◌≡◌, refl, sym, subst, String, Bool, true, false,
  List, [], ◌∷◌, ◌++◌, arith, Option, some, count, count-append, includes, includes-true_iff,
  includes-false_iff, ◌==◌, eq_iff, eq_refl, eq_cases, Bool-cases, if◌then◌else◌, inl, inr, ◌⊎◌,
  length, length-append,
}
use ai_task_orchestrator.Base.Dict
use ai_task_orchestrator.Base.Dict.{Dict}
use ai_task_orchestrator.Editor.{Edge, adjacency, explore, would_create_cycle, reverse}
use ai_task_orchestrator.Editor.Paths.{targets, Joins, Leads, here, along, adjacency-targets}

count-reverse : (x : String) (xs : List String) → count x (reverse xs) ≡ count x xs
count-reverse x [] = refl
count-reverse x (y ∷ xs) = omega (arith, count-reverse x xs, count-append x (reverse xs) (y ∷ []))

length-reverse : (xs : List String) → length (reverse xs) ≡ length xs
length-reverse [] = refl
length-reverse (y ∷ xs) = omega (arith, length-reverse xs, length-append (reverse xs) (y ∷ []))

-- The edges from nodes that are not in `seen`.
abbrev unseen : List String → List Edge → ℕ
unseen seen [] = 0
unseen seen (e ∷ es) = (if includes e.source seen then 0 else 1) + unseen seen es

unseen-nil : (es : List Edge) → unseen [] es ≡ length es
unseen-nil [] = refl
unseen-nil (e ∷ es) = omega (arith, unseen-nil es)

unseen-cons :
    (x : String) (seen : List String) (es : List Edge)
    → includes x seen ≡ false
    → unseen (x ∷ seen) es + length (targets es x) ≡ unseen seen es
unseen-cons x seen [] h = refl
unseen-cons x seen (e ∷ es) h =
    let ih = unseen-cons x seen es h in
    let more = length-append (if e.source == x then e.target ∷ [] else []) (targets es x) in
    elim (eq_cases x e.source) [
      | inl (t, p) ↦
          let same : includes e.source seen ≡ false = subst (λ w. includes w seen ≡ false) p h in
          ground (arith, ih, more, (eq_iff e.source x).1 (sym p), same, t)
      | inr (f, ne) ↦ ground (arith, ih, more, eq_iff e.source x, eq_iff x e.source, f)
    ]

known_of :
    (seen : List String) (cur v : String)
    → includes cur seen ≡ true
    → (cur == v) ≡ true
    → 0 < count v seen
known_of seen cur v t e =
    (includes-true_iff v seen).0 (subst (λ w. includes w seen ≡ true) ((eq_iff cur v).0 e) t)

module _ (es : List Edge) (source : String) where
  -- What is known when the loop stands at `seen` and `stack`: no node that was seen is the source,
  -- and each edge from one leads to a node that was seen or waits.
  abbrev Inv : List String → List String → Type 0
  Inv seen stack =
      (includes source seen ≡ false)
      × ((u v : String) → includes u seen ≡ true → Joins es u v → 0 < count v seen + count v stack)

  -- The answer of the loop: a path to the source, or a closed set without it that holds the stack.
  abbrev Answers : List String → List String → Option Bool → Type 0
  Answers seen stack result =
      (result ≡ some true) × ((u : String) × (0 < count u stack) × Leads es u source)
      ⊎ (result ≡ some false)
        × ((closed : List String) × Inv closed []
            × ((v : String) → 0 < count v seen + count v stack → 0 < count v closed))

  Inv-skip :
      (seen : List String) (cur : String) (stack : List String)
      → includes cur seen ≡ true
      → Inv seen (cur ∷ stack)
      → Inv seen stack
  Inv-skip seen cur stack t inv =
      (inv.0, λ u v k j. ground (arith, inv.1 u v k j, known_of seen cur v t))

  Inv-deeper :
      (seen : List String) (cur : String) (stack : List String)
      → (cur == source) ≡ false
      → Inv seen (cur ∷ stack)
      → Inv (cur ∷ seen) (reverse (targets es cur) ++ stack)
  Inv-deeper seen cur stack f inv = (
    ground (arith, inv.0),
    λ u v k j. elim (eq_cases cur u) [
      | inl (t, e) ↦
          let from : Joins es cur v = subst (λ w. Joins es w v) (sym e) j in
          omega (
            arith,
            count-append v (reverse (targets es cur)) stack,
            count-reverse v (targets es cur),
          )
      | inr (g, ne) ↦ omega (
        arith,
        inv.1 u v (ground (arith, g, k)) j,
        count-append v (reverse (targets es cur)) stack,
      )
    ],
  )

  skipped :
      (seen : List String) (cur : String) (stack : List String)
      → includes cur seen ≡ true
      → (result : Option Bool) → Answers seen stack result
      → Answers seen (cur ∷ stack) result
  skipped seen cur stack t result (inl (e, (u, k, p))) = inl (e, (u, omega arith, p))
  skipped seen cur stack t result (inr (e, (closed, inv, holds))) =
      inr (e, (closed, inv, λ v k. holds v (ground (arith, known_of seen cur v t))))

  deepened :
      (seen : List String) (cur : String) (stack : List String) (result : Option Bool)
      → Answers (cur ∷ seen) (reverse (targets es cur) ++ stack) result
      → Answers seen (cur ∷ stack) result
  deepened seen cur stack result (inl (e, (u, k, p))) = inl (e, found)
    where
      found : (w : String) × (0 < count w (cur ∷ stack)) × Leads es w source
      found = elim (positive_cases (count u (targets es cur))) [
        | inl none_there ↦ (
          u,
          omega (
            arith,
            none_there,
            count-append u (reverse (targets es cur)) stack,
            count-reverse u (targets es cur),
          ),
          p,
        )
        | inr some_there ↦ (cur, ground (arith, eq_refl cur), along cur u source some_there p)
      ]
  deepened seen cur stack result (inr (e, (closed, inv, holds))) = inr (
    e,
    (closed, inv, λ v k. holds v (omega (arith, count-append v (reverse (targets es cur)) stack))),
  )

  explore-Answers :
      (fuel : ℕ) (seen stack : List String)
      → Inv seen stack
      → unseen seen es + length stack ≤ fuel
      → Answers seen stack (explore fuel (adjacency [] es) source seen stack)
  unfolding explore Dict.get
  explore-Answers fuel seen [] inv h = inr (refl, (seen, inv, λ v k. omega arith))
  explore-Answers zero seen (cur ∷ stack) inv h = absurd (omega arith)
  explore-Answers (suc fuel) seen (cur ∷ stack) inv h = elim (eq_cases cur source) [
    | inl (t, e) ↦
        rw t (inl (refl, (cur, ground (arith, eq_refl cur), subst (Leads es cur) e (here cur))))
    | inr (f, ne) ↦ elim (Bool-cases (includes cur seen)) [
      | inl t ↦
          rw (f, t)
            (skipped seen cur stack t _
              (explore-Answers fuel seen stack (Inv-skip seen cur stack t inv) (omega arith)))
      | inr g ↦
          rw (f, g, adjacency-targets [] es cur)
            (deepened seen cur stack _ (
              explore-Answers fuel (cur ∷ seen) (reverse (targets es cur) ++ stack)
                (Inv-deeper seen cur stack f inv)
                (omega (
                  arith,
                  unseen-cons cur seen es g,
                  length-append (reverse (targets es cur)) stack,
                  length-reverse (targets es cur),
                ))))
    ]
  ]

  -- A path does not leave a closed set.
  closed_lem :
      {u w : String} (closed : List String)
      → Inv closed []
      → Leads es u w
      → 0 < count u closed
      → 0 < count w closed
  closed_lem closed inv (here u) k = k
  closed_lem closed inv (along u v w j p) k =
      closed_lem closed inv p (omega (arith, inv.1 u v ((includes-true_iff u closed).1 k) j))

-- `wouldCreateCycle` returns, and its answer is `true` exactly if the edges hold a path from the
-- target back to the source, an edge from a node to itself included.
pub would_create_cycle-decides :
    (es : List Edge) (source target : String)
    → (would_create_cycle es source target ≡ some true) × Leads es target source
      ⊎ (would_create_cycle es source target ≡ some false) × ¬ Leads es target source
unfolding would_create_cycle
would_create_cycle-decides es source target = elim (eq_cases source target) [
  | inl (t, e) ↦ rw t (inl (refl, subst (Leads es target) (sym e) (here target)))
  | inr (f, ne) ↦ rw f (
      answer (
        explore-Answers es source (suc (length es)) [] (target ∷ []) (refl, λ u v k j. absurd (cc))
          (omega (arith, unseen-nil es))))
]
  where
    answer :
        {result : Option Bool}
        → Answers es source [] (target ∷ []) result
        → (result ≡ some true) × Leads es target source
          ⊎ (result ≡ some false) × ¬ Leads es target source
    answer (inl (e, (u, k, p))) =
        inl (e, subst (λ w. Leads es w source) (ground (arith, k, eq_iff target u)) p)
    answer (inr (e, (closed, inv, holds))) = inr (
      e,
      λ p. omega (
        arith,
        closed_lem es source closed inv p (holds target (ground (arith, eq_refl target))),
        (includes-false_iff source closed).0 inv.0,
      ),
    )
