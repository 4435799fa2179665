-- ===== src/Workflow/Coordinator/Countdown.antt =====
-- The loop of `markCompleteAndFindReady` over the dependents of a node.
use ai_task_orchestrator.Base.{
  ℕ, zero, suc, ◌+◌, ◌<◌, ◌≡◌, refl, sym, ap, ◌∙◌, subst, ◌≢◌, String, true, false, ◌&&◌, List, [],
  ◌∷◌, ◌++◌, arith, count, inl, inr, ◌==◌, eq_refl, eq_cases, if◌then◌else◌, Bool-cases, some, pos,
  is_zero, pred-pos-suc, eqb, ltb,
}
use ai_task_orchestrator.Workflow.{DagNodeInput, ids, ready}
use ai_task_orchestrator.Workflow.Store.{
  Redis, Hash, nodes, statuses, remaining, entry, number, status, get-set_remaining,
}
use ai_task_orchestrator.Workflow.Coordinator.{
  as_node, get_node, count_down, make_ready, find_ready,
}

pub is_zero-pos : (n : ℕ) → is_zero (pos n) ≡ eqb n 0
unfolding is_zero
is_zero-pos zero = refl
is_zero-pos (suc n) = ground arith

pub count-ids_snoc :
    (v : String) (n : DagNodeInput) (found : List DagNodeInput)
    → count v (ids (found ++ n ∷ [])) ≡ count v (ids found) + (if n.id == v then 1 else 0)
count-ids_snoc v n [] = omega arith
count-ids_snoc v n (m ∷ found) = omega (arith, count-ids_snoc v n found)

-- A node is found when its last occurrence brings its counter to zero.
found_step :
    (need : String → ℕ) (c : String) (cs : List String) (n : DagNodeInput)
    (found : List DagNodeInput)
    → n.id ≡ c
    → (v : String)
    → count v (ids (if eqb (need c + count c cs) 0 then found ++ n ∷ [] else found))
        + (if ltb 0 (count v cs) && eqb (need v) 0 then 1 else 0)
      ≡ count v (ids found) + (if ltb 0 (count v (c ∷ cs)) && eqb (need v) 0 then 1 else 0)
found_step need c cs n found named v = elim (eq_cases c v) [
  | inl (t, e) ↦
      let same = ap need e in
      let same_count = ap (λ (w : String). count w cs) e in
      let fresh = count-ids_snoc v n found in
      let hit : (n.id == v) ≡ true = ap (λ (w : String). w == v) named ∙ t in ground arith
  | inr (f, ne) ↦
      let fresh = count-ids_snoc v n found in
      let miss : (n.id == v) ≡ false = ap (λ (w : String). w == v) named ∙ f in ground arith
]

module _ (r : Redis) (dag : String) where
  open r use {Store, get, set, decr, get-set_self, get-set_ne, decr_number}

  -- Every hash but the statuses reads as before.
  abbrev pub KeepsRecords : Store → Store → Type 0
  KeepsRecords s t =
      (h : Hash) → h ≢ statuses → (x : String) → get t (entry h dag x) ≡ get s (entry h dag x)

  -- One DECR of a counter that stands above zero.
  record Counted (s : Store) (c : String) (k : ℕ) (n : DagNodeInput) (found : List DagNodeInput)
      (after : Store × List DagNodeInput) : Type 0 where
    counters :
        (v : String)
        → get after.0 (remaining dag v)
          ≡ (if c == v then some (number (pos k)) else get s (remaining dag v))
    records : KeepsRecords s after.0
    found_lem : after.1 ≡ (if eqb k 0 then found ++ n ∷ [] else found)

  count_down_lem :
      (s : Store) (c : String) (k : ℕ) (n : DagNodeInput) (found : List DagNodeInput)
      → get s (remaining dag c) ≡ some (number (pos (suc k)))
      → get_node r s dag c ≡ some n
      → count_down r s dag c found ≡ (
          let t = set s (remaining dag c) (number (pos k)) in
          if eqb k 0
          then (set t (entry statuses dag c) (status ready), found ++ n ∷ [])
          else (t, found))
  unfolding count_down
  count_down_lem s c k n found h node =
      let t = set s (remaining dag c) (number (pos k)) in
      let node' =
        ap as_node (get-set_ne s (remaining dag c) (entry nodes dag c) (number (pos k)) (λ e. cc))
        ∙ node in
      rw (decr_number s (remaining dag c) (pos (suc k)) h, pred-pos-suc k, is_zero-pos k)
        (elim (Bool-cases (eqb k 0)) [
          | inl yes' ↦ rw yes' (rw (node', make_ready))
          | inr no' ↦ rw no' refl
        ])

  count_down-Counted :
      (s : Store) (c : String) (k : ℕ) (n : DagNodeInput) (found : List DagNodeInput)
      → get s (remaining dag c) ≡ some (number (pos (suc k)))
      → get_node r s dag c ≡ some n
      → Counted s c k n found (count_down r s dag c found)
  count_down-Counted s c k n found h node =
      subst (Counted s c k n found) (sym (count_down_lem s c k n found h node))
        (elim (Bool-cases (eqb k 0)) [
          | inl t ↦ rw t (record {
            counters = λ v.
                get-set_ne (set s (remaining dag c) (number (pos k))) (entry statuses dag c)
                  (remaining dag v) (status ready) (λ e. cc)
                ∙ get-set_remaining r dag s c v (number (pos k));
            records = λ hash ne x.
                get-set_ne (set s (remaining dag c) (number (pos k))) (entry statuses dag c)
                  (entry hash dag x) (status ready) (λ e. ne (cc))
                ∙ get-set_ne s (remaining dag c) (entry hash dag x) (number (pos k)) (λ e. cc);
            found_lem = ground arith;
          })
          | inr f ↦ rw f (record {
            counters = λ v. get-set_remaining r dag s c v (number (pos k));
            records = λ hash ne x.
                get-set_ne s (remaining dag c) (entry hash dag x) (number (pos k)) (λ e. cc);
            found_lem = ground arith;
          })
        ])

  abbrev pub HasNode : Store → String → Type 0
  HasNode s v = (n : DagNodeInput) × (get_node r s dag v ≡ some n) × (n.id ≡ v)

  -- After the loop over `cs`, where `need` is what the counters come to.
  pub record CountedDown (need : String → ℕ) (s : Store) (cs : List String)
      (found : List DagNodeInput) (after : Store × List DagNodeInput) : Type 0 where
    pub counters :
        (v : String)
        → get after.0 (remaining dag v)
          ≡ (if ltb 0 (count v cs) then some (number (pos (need v))) else get s (remaining dag v))
    pub records : KeepsRecords s after.0
    pub found_count :
        (v : String)
        → count v (ids after.1)
          ≡ count v (ids found) + (if ltb 0 (count v cs) && eqb (need v) 0 then 1 else 0)

  pub HasNode-keep : (s t : Store) (v : String) → KeepsRecords s t → HasNode s v → HasNode t v
  unfolding get_node
  HasNode-keep s t v keep (n, p, e) = (n, ap as_node (keep nodes (λ q. cc) v) ∙ p, e)

  module _ (need : String → ℕ) (s : Store) (c : String) (cs : List String) where
    left_step :
        ((v : String)
          → 0 < count v (c ∷ cs)
          → get s (remaining dag v) ≡ some (number (pos (need v + count v (c ∷ cs)))))
        → (v : String) → 0 < count v cs
        → (if c == v then some (number (pos (need c + count c cs))) else get s (remaining dag v))
          ≡ some (number (pos (need v + count v cs)))
    left_step left v h = elim (eq_cases c v) [
      | inl (t, e) ↦ rw t (ap (λ (w : String). some (number (pos (need w + count w cs)))) e)
      | inr (f, ne) ↦
          rw f (left v (omega arith) ∙ ap (λ (m : ℕ). some (number (pos m))) (ground arith))
    ]

  counters_step :
      (need : String → ℕ) (s t : Store) (c : String) (cs : List String) (v : String)
      → get t (remaining dag v)
        ≡ (if c == v then some (number (pos (need c + count c cs))) else get s (remaining dag v))
      → (if ltb 0 (count v cs) then some (number (pos (need v))) else get t (remaining dag v)) ≡ (
          if ltb 0 (count v (c ∷ cs))
          then some (number (pos (need v)))
          else get s (remaining dag v))
  counters_step need s t c cs v h = elim (eq_cases c v) [
    | inl (hit, e) ↦
        let same = ap need e in
        let same_count = ap (λ (w : String). count w cs) e in
        elim (Bool-cases (ltb 0 (count v cs))) [
          | inl more ↦ ground arith
          | inr last ↦
              let down : need c + count c cs ≡ need v = ground arith in
              let value = ap (λ (m : ℕ). some (number (pos m))) down in
              let more : ltb 0 (count v (c ∷ cs)) ≡ true = ground arith in
              rw (last, more) (h ∙ rw hit value)
        ]
    | inr (miss, ne) ↦ ground arith
  ]

  pub find_ready-CountedDown :
      (need : String → ℕ) (s : Store) (cs : List String) (found : List DagNodeInput)
      → ((v : String) → 0 < count v cs → HasNode s v)
      → ((v : String)
          → 0 < count v cs
          → get s (remaining dag v) ≡ some (number (pos (need v + count v cs))))
      → CountedDown need s cs found (find_ready r s dag cs found)
  unfolding find_ready
  find_ready-CountedDown need s [] found known left = record {
    counters = λ v. refl;
    records = λ h ne x. refl;
    found_count = λ v. omega arith;
  }
  find_ready-CountedDown need s (c ∷ cs) found known left =
      let (n, p, e) = known c (ground (arith, eq_refl c)) in
      let k = need c + count c cs in
      let one =
        count_down-Counted s c k n found
          (left c (ground (arith, eq_refl c))
            ∙ ap (λ (m : ℕ). some (number (pos m))) (ground (arith, eq_refl c)))
          p in
      let s' = (count_down r s dag c found).0 in
      let rest =
        find_ready-CountedDown need s' cs (count_down r s dag c found).1
          (λ v h. HasNode-keep s s' v one.records (known v (omega arith)))
          (λ v h. one.counters v ∙ left_step need s c cs left v h) in
      record {
        counters = λ v. rest.counters v ∙ counters_step need s s' c cs v (one.counters v);
        records = λ h ne x. rest.records h ne x ∙ one.records h ne x;
        found_count = λ v.
            rest.found_count v
            ∙ ap (λ (m : ℕ). m + (if ltb 0 (count v cs) && eqb (need v) 0 then 1 else 0))
                (ap (λ l. count v (ids l)) one.found_lem)
            ∙ found_step need c cs n found e v;
      }
