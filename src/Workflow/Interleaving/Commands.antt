-- ===== src/Workflow/Interleaving/Commands.antt =====
-- What one command does to the counters and to what its call has found.
use ai_task_orchestrator.Base.{
  ℕ, suc, ◌+◌, ◌≤◌, ◌<◌, ◌≡◌, ◌≢◌, refl, sym, ap, ◌∙◌, String, true, ◌&&◌, List, [], ◌∷◌, ◌++◌,
  arith, includes, count, inl, inr, ◌==◌, eq_refl, eq_cases, if◌then◌else◌, Bool-cases, some, pos,
  pred-pos-suc, eqb, ltb, length, get_or, includes-false_iff,
}
use ai_task_orchestrator.Base.Json.{Json}
use ai_task_orchestrator.Workflow.{DagNodeInput, ids, deps_of}
use ai_task_orchestrator.Workflow.Store.{
  Redis, Hash, dependents, results, statuses, remaining, entry, number, names_json,
  get-set_remaining,
}
use ai_task_orchestrator.Workflow.Coordinator.{as_names, ttl_seconds}
use ai_task_orchestrator.Workflow.Coordinator.Countdown.{HasNode, is_zero-pos, count-ids_snoc}
use ai_task_orchestrator.Workflow.Coordinator.Persist.{deps_of-absent}
use ai_task_orchestrator.Workflow.Interleaving.{
  Point, storing, expiring, completing, fetching, counting, looking_up, marking, returned, advance,
}

-- The nodes that a call has found, one that it looks up or marks included.
abbrev pub found_at : Point → String → ℕ
found_at storing v = 0
found_at expiring v = 0
found_at completing v = 0
found_at fetching v = 0
found_at (counting left found) v = count v (ids found)
found_at (looking_up dep left found) v = (if dep == v then 1 else 0) + count v (ids found)
found_at (marking dep n left found) v = (if n.id == v then 1 else 0) + count v (ids found)
found_at (returned found) v = count v (ids found)

module _ (r : Redis) (dag : String) (ns : List DagNodeInput) where
  open r use {Store, get, set, decr, expire, get-set_self, get-set_ne, decr_number, get-expire}

  -- How often a call will still count down the node `v`.
  abbrev pub pending : String → Point → String → ℕ
  pending u storing v = count u (deps_of ns v)
  pending u expiring v = count u (deps_of ns v)
  pending u completing v = count u (deps_of ns v)
  pending u fetching v = count u (deps_of ns v)
  pending u (counting left found) v = count v left
  pending u (looking_up dep left found) v = count v left
  pending u (marking dep n left found) v = count v left
  pending u (returned found) v = 0

  -- 1 if `v` depends on something and its counter is `n`, a zero.
  abbrev pub due : String → ℕ → ℕ
  due v n = if ltb 0 (length (deps_of ns v)) && eqb n 0 then 1 else 0

  -- What `persist` has stored of the nodes.
  pub record Records (s : Store) : Type 0 where
    pub list :
        (u : String)
        → includes u (ids ns) ≡ true
        → (l : List String) × (get s (entry dependents dag u) ≡ some (names_json l))
          × ((v : String) → count v l ≡ count u (deps_of ns v))
    pub node : (v : String) → includes v (ids ns) ≡ true → HasNode r dag s v

  -- The counters of the nodes, where `m` is what all other calls leave of them.
  abbrev pub Counts : Store → (m : String → ℕ) → String → Point → Type 0
  Counts s m u p =
      (v : String)
      → includes v (ids ns) ≡ true
      → get s (remaining dag v) ≡ some (number (pos (m v + pending u p v)))

  pub record Advanced (s : Store) (m : String → ℕ) (u : String) (p : Point) (after : Store × Point)
      : Type 0 where
    pub left : Counts after.0 m u after.1
    pub records :
        (h : Hash)
        → h ≢ statuses
        → h ≢ results
        → (x : String) → get after.0 (entry h dag x) ≡ get s (entry h dag x)
    pub fewer : (v : String) → pending u after.1 v ≤ pending u p v
    pub found_lem :
        (v : String)
        → found_at after.1 v + due v (m v + pending u p v)
          ≡ found_at p v + due v (m v + pending u after.1 v)

  -- A write that touches neither a counter nor the nodes.
  quiet :
      (s t : Store) (m : String → ℕ) (u : String) (p q : Point)
      → Counts s m u p
      → ((v : String) → get t (remaining dag v) ≡ get s (remaining dag v))
      → ((h : Hash)
          → h ≢ statuses
          → h ≢ results
          → (x : String) → get t (entry h dag x) ≡ get s (entry h dag x))
      → ((v : String) → pending u q v ≡ pending u p v)
      → ((v : String) → found_at q v ≡ found_at p v)
      → Advanced s m u p (t, q)
  quiet s t m u p q c same keep same_pending same_found = record {
    left = λ v k.
        same v ∙ c v k ∙ ap (λ (n : ℕ). some (number (pos (m v + n)))) (sym (same_pending v));
    records = keep;
    fewer = λ v. omega (arith, same_pending v);
    found_lem = λ v. rw (same_pending v, same_found v) refl;
  }

  -- A node that depends on something is known.
  pub known_of_length : (v : String) → 0 < length (deps_of ns v) → includes v (ids ns) ≡ true
  known_of_length v h = elim (Bool-cases (includes v (ids ns))) [
    | inl t ↦ t
    | inr f ↦
        let none_there : deps_of ns v ≡ [] =
          deps_of-absent ns v ((includes-false_iff v (ids ns)).0 f) in
        absurd (omega (arith, ap length none_there))
  ]

  -- The counter of `d` stands at `k` behind the DECR.
  abbrev pub after_decr : (s : Store) (d : String) (k : ℕ) → Store
  after_decr s d k = set s (remaining dag d) (number (pos k))

  count_lem :
      (s : Store) (m : String → ℕ) (u d : String) (ds : List String) (found : List DagNodeInput)
      → 0 < length (deps_of ns d)
      → Counts s m u (counting (d ∷ ds) found)
      → (q : Point) → ((v : String) → pending u q v ≡ count v ds)
      → ((v : String)
          → found_at q v
            ≡ count v (ids found)
              + (if eqb (m d + count d ds) 0 then (if d == v then 1 else 0) else 0))
      → Advanced s m u (counting (d ∷ ds) found) (after_decr s d (m d + count d ds), q)
  count_lem s m u d ds found h c q same_pending new_found = record {
    left = λ v k.
        get-set_remaining r dag s d v (number (pos (m d + count d ds))) ∙ elim (eq_cases d v) [
          | inl (t, e) ↦
              rw (t, same_pending v) (ap (λ (w : String). some (number (pos (m w + count w ds)))) e)
          | inr (f, ne) ↦
              rw (f, same_pending v)
                (c v k ∙ ap (λ (n : ℕ). some (number (pos n))) (ground (arith, f)))
        ];
    records = λ hash _ _ x. get-set_ne s (remaining dag d) (entry hash dag x) _ (λ e. cc);
    fewer = λ v. ground (arith, same_pending v);
    found_lem = λ v. elim (eq_cases d v) [
      | inl (t, e) ↦ ground (
        arith,
        t,
        h,
        same_pending v,
        new_found v,
        ap (λ (w : String). m w + count w ds) e,
        ap m e,
        ap (λ (w : String). length (deps_of ns w)) e,
      )
      | inr (f, ne) ↦ ground (arith, f, same_pending v, new_found v)
    ];
  }

  pub decr_lem :
      (s : Store) (m : String → ℕ) (u d : String) (ds : List String) (found : List DagNodeInput)
      → 0 < length (deps_of ns d)
      → Counts s m u (counting (d ∷ ds) found)
      → decr s (remaining dag d) ≡ (after_decr s d (m d + count d ds), pos (m d + count d ds))
  decr_lem s m u d ds found h c =
      let k = m d + count d ds in
      let up : get s (remaining dag d) ≡ some (number (pos (suc k))) =
        c d (known_of_length d h)
        ∙ ap (λ (n : ℕ). some (number (pos n))) (ground (arith, eq_refl d)) in
      decr_number s (remaining dag d) (pos (suc k)) up
      ∙ ap (λ z. (set s (remaining dag d) (number z), z)) (pred-pos-suc k)

  -- One command of a call whose nodes are known.
  pub advance-Advanced :
      (s : Store) (m : String → ℕ) (u : String) (result : Json) (p : Point)
      → Records s
      → includes u (ids ns) ≡ true
      → ((v : String) → 0 < pending u p v → 0 < length (deps_of ns v))
      → ((v : String) → 0 < found_at p v → includes v (ids ns) ≡ true)
      → Counts s m u p
      → Advanced s m u p (advance r dag s u result p)
  unfolding advance
  advance-Advanced s m u result storing rec known listed good c =
      quiet s _ m u storing expiring c
        (λ v. get-set_ne s (entry results dag u) (remaining dag v) _ (λ e. cc))
        (λ h _ ne x. get-set_ne s (entry results dag u) (entry h dag x) _ (λ e. ne (cc)))
        (λ v. refl) (λ v. refl)
  advance-Advanced s m u result expiring rec known listed good c =
      quiet s _ m u expiring completing c
        (λ v. get-expire s results dag ttl_seconds (remaining dag v))
        (λ h _ _ x. get-expire s results dag ttl_seconds (entry h dag x)) (λ v. refl) (λ v. refl)
  advance-Advanced s m u result completing rec known listed good c =
      quiet s _ m u completing fetching c
        (λ v. get-set_ne s (entry statuses dag u) (remaining dag v) _ (λ e. cc))
        (λ h ne _ x. get-set_ne s (entry statuses dag u) (entry h dag x) _ (λ e. ne (cc)))
        (λ v. refl) (λ v. refl)
  advance-Advanced s m u result fetching rec known listed good c =
      let (l, there, same) = rec.list u known in
      let names = ap (λ o. get_or (as_names o) []) there in
      rw names
        (quiet s s m u fetching (counting l []) c (λ v. refl) (λ h _ _ x. refl) same (λ v. refl))
  advance-Advanced s m u result (counting [] found) rec known listed good c =
      quiet s s m u (counting [] found) (returned found) c (λ v. refl) (λ h _ _ x. refl) (λ v. refl)
        (λ v. refl)
  advance-Advanced s m u result (counting (d ∷ ds) found) rec known listed good c =
      let h = listed d (ground (arith, eq_refl d)) in
      rw (decr_lem s m u d ds found h c, is_zero-pos (m d + count d ds))
        (elim (Bool-cases (eqb (m d + count d ds) 0)) [
          | inl t ↦ rw t (
              count_lem s m u d ds found h c (looking_up d ds found) (λ v. refl)
                (λ v. ground (arith, t)))
          | inr f ↦ rw f (
              count_lem s m u d ds found h c (counting ds found) (λ v. refl)
                (λ v. ground (arith, f)))
        ])
  advance-Advanced s m u result (looking_up d ds found) rec known listed good c =
      let (n, there, named) = rec.node d (good d (ground (arith, eq_refl d))) in
      rw (there, advance)
        (quiet s s m u (looking_up d ds found) (marking d n ds found) c (λ v. refl)
          (λ h _ _ x. refl) (λ v. refl) (λ v. rw named refl))
  advance-Advanced s m u result (marking d n ds found) rec known listed good c =
      quiet s _ m u (marking d n ds found) (counting ds (found ++ n ∷ [])) c
        (λ v. get-set_ne s (entry statuses dag d) (remaining dag v) _ (λ e. cc))
        (λ h ne _ x. get-set_ne s (entry statuses dag d) (entry h dag x) _ (λ e. ne (cc)))
        (λ v. refl) (λ v. omega (arith, count-ids_snoc v n found))
  advance-Advanced s m u result (returned found) rec known listed good c =
      quiet s s m u (returned found) (returned found) c (λ v. refl) (λ h _ _ x. refl) (λ v. refl)
        (λ v. refl)
