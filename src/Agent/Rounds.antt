-- ===== src/Agent/Rounds.antt =====
-- How often a result is sent.
use it_asset_inventory.Agent.Retry.{
  delivered, accepted, attempts, submit_result_with_retry, Reply, Delivery, gave_up,
}
use it_asset_inventory.Base.{
  ℕ, zero, suc, ◌+◌, ◌≤◌, ◌<◌, String, ◌≡◌, refl, ap, subst, ◌⊎◌, inl, inr, none, some, arith, ◌==◌,
  Bool-cases, Option-cases,
}

-- The replies from one request on and before another are no successes.
abbrev pub Fail : (ℕ → Reply) → ℕ → ℕ → Type 0
Fail reply a b = (m : ℕ) → a ≤ m → m < b → accepted (reply m) ≡ none

Fail-first :
    (reply : ℕ → Reply) (a b : ℕ)
    → accepted (reply a) ≡ none
    → Fail reply (a + 1) b
    → Fail reply a b
Fail-first reply a b n later m l u = elim (Bool-cases (m == a)) [
  | inl e ↦ let same : a ≡ m = ground arith in subst (λ k. accepted (reply k) ≡ none) same n
  | inr e ↦ later m (ground arith) u
]

-- The first success among the rounds that are left, or none.
abbrev pub Delivers : (ℕ → Reply) → ℕ → ℕ → Delivery → Type 0
Delivers reply a b d =
    ((d ≡ gave_up b) × Fail reply a b)
    ⊎ ((k : ℕ) × (body : String) × (a ≤ k)
        × (k < b)
        × (accepted (reply k) ≡ some body)
        × Fail reply a k
        × (d ≡ delivered body (k + 1)))

attempts-Delivers :
    (reply : ℕ → Reply) (left sent b : ℕ)
    → sent + left ≡ b
    → Delivers reply sent b (attempts reply left sent)
unfolding attempts
attempts-Delivers reply zero sent b e =
    let same : sent ≡ b = omega arith in
    inl (ap (λ n. gave_up n) same, λ m l u. absurd (omega arith))
attempts-Delivers reply (suc left) sent b e = elim (Option-cases (accepted (reply sent))) [
  | inr (body, n) ↦ inr (
    sent,
    body,
    omega arith,
    omega arith,
    n,
    λ m l u. absurd (omega arith),
    rw (n, attempts) refl,
  )
  | inl n ↦ elim (attempts-Delivers reply left (sent + 1) b (omega arith)) [
    | inl (g, f) ↦ inl (rw (n, attempts) g, Fail-first reply sent b n f)
    | inr (k, body, l, u, s, f, g) ↦
        inr (k, body, omega arith, u, s, Fail-first reply sent k n f, rw (n, attempts) g)
  ]
]

-- A result is sent at most three times: it is delivered by the first of the three requests that succeeds, and none
-- is sent after it; and it is given up exactly after three failures.
pub submit_result-Delivers :
    (reply : ℕ → Reply) → Delivers reply 0 3 (submit_result_with_retry reply)
submit_result-Delivers reply = attempts-Delivers reply 3 0 3 refl
