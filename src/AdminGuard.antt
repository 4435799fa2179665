-- ===== src/AdminGuard.antt =====
-- apps/api/src/admin/admin-token.guard.ts.
mod Examples
use ai_task_orchestrator.Base.{
  ℕ, ◌≡◌, ◌≢◌, ◌↔◌, refl, sym, ap, ◌∙◌, subst, String, Bool, true, false, Option, none, some,
  get_or, eqb, ◌&&◌, ◌==◌, eq_iff, eq_cases, Bool-cases, if◌then◌else◌, inl, inr, arith,
}
use ai_task_orchestrator.Base.Result.{Result, ok, err}

pub data GuardError : Type 0 where
  forbidden unauthorized : GuardError

-- What Node does for the guard: the bytes of a text in a buffer, and a comparison of buffers of one
-- length.
pub record Node : Type 1 where
  pub Buffer : Type 0
  pub from : String → Buffer
  pub byte_length : Buffer → ℕ
  pub timing_safe_equal : Buffer → Buffer → Bool
  pub from-injective : (s t : String) → from s ≡ from t → s ≡ t
  pub timing_safe_equal_iff :
      (a b : Buffer) → byte_length a ≡ byte_length b → (timing_safe_equal a b ≡ true) ↔ (a ≡ b)

module _ (node : Node) where
  abbrev tokens_match : (provided expected : String) → Bool
  tokens_match provided expected =
      let a = node.from provided in
      let b = node.from expected in
      eqb (node.byte_length a) (node.byte_length b) && node.timing_safe_equal a b

  abbrev check_token : (expected provided : String) → Result GuardError Bool
  check_token expected provided =
      if expected == ""
      then err forbidden
      else if tokens_match provided expected
      then ok true
      else err unauthorized

  -- `canActivate`, on the configured token and the header.
  unfoldable pub can_activate : (expected provided : Option String) → Result GuardError Bool
  can_activate none provided = err forbidden
  can_activate (some expected) provided = check_token expected (get_or provided "")

  present : (o : Option String) (x : String) → x ≢ "" → get_or o "" ≡ x → o ≡ some x
  present none x ne e = absurd (ne (sym e))
  present (some y) x ne e = ap some e

  tokens_match_iff :
      (provided expected : String) → (tokens_match provided expected ≡ true) ↔ (provided ≡ expected)
  tokens_match_iff provided expected =
      let a = node.from provided in
      let b = node.from expected in
      (
        λ h.
            node.from-injective provided expected
              ((node.timing_safe_equal_iff a b (ground (arith, h))).0 (ground (arith, h))),
        λ e.
            let same = ap node.from e in
            ground (
              arith,
              ap node.byte_length same,
              (node.timing_safe_equal_iff a b (ap node.byte_length same)).1 same,
            ),
      )

  -- The guard admits a request exactly if a token is configured that is not empty, and the header is
  -- this token. Without such a token every request is forbidden.
  pub can_activate-admits :
      (expected provided : Option String)
      → (can_activate expected provided ≡ ok true)
        ↔ ((token : String) × (token ≢ "") × (expected ≡ some token) × (provided ≡ some token))
  unfolding can_activate
  can_activate-admits none provided = (λ h. cc, λ (token, _, e, _). cc)
  can_activate-admits (some expected) provided = elim (eq_cases expected "") [
    | inl (t, e) ↦
        rw t (λ h. cc, λ (token, ne, same, _). absurd (ne (ap (λ o. get_or o "") (sym same) ∙ e)))
    | inr (f, ne) ↦ elim (Bool-cases (tokens_match (get_or provided "") expected)) [
      | inl t ↦
          let same = (tokens_match_iff (get_or provided "") expected).0 t in
          rw (f, t) (λ _. (expected, ne, refl, present provided expected ne same), λ _. refl)
      | inr g ↦
          rw (f, g)
            (
              λ h. cc,
              λ (token, _, same, there). absurd (
                  cc ((tokens_match_iff (get_or provided "") expected).1 (given token same there))),
            )
    ]
  ]
    where
      given :
          (token : String)
          → ◌≡◌ {A = Option String} (some expected) (some token)
          → provided ≡ some token
          → get_or provided "" ≡ expected
      given token same there = ap (λ o. get_or o "") (there ∙ sym same)
