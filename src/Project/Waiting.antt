-- ===== src/Project/Waiting.antt =====
-- client.cc: how long a client waits for the port of the server that it has started.
use ced.Base.{
  ℕ, zero, suc, ◌+◌, ◌≤◌, ◌<◌, ltb, ◌==◌, ◌≡◌, refl, sym, subst, Bool, true, false, Bool-cases, inl,
  inr, ◌⊎◌, arith,
}
use ced.Outcome.{Outcome, ok, fault}
use ced.Avl.Balance.{fib, fib_le}
use ced.Project.Client.{wait_for_port}

-- The waits are Fibonacci numbers, and the one before look 17 would be the first above 2000.
short : (n : ℕ) → n < 16 → ltb 2000 (fib (suc (suc n))) ≡ false
short n p =
    let b : fib (suc (suc n)) ≤ 1597 = fib_le (suc (suc n)) 17 (omega arith) in ground (arith, b)

long : (n : ℕ) → n ≡ 16 → ltb 2000 (fib (suc (suc n))) ≡ true
long n e = subst (λ k. ltb 2000 (fib (suc (suc k))) ≡ true) (sym e) refl

module _ (port_exists : ℕ → Bool) where
  -- From look `n` on: the port is found at a look, after so many milliseconds, or it is never there and
  -- the client throws.
  abbrev pub Waited : ℕ → Outcome ℕ → Type 0
  Waited n r =
      ((m : ℕ) × (slept : ℕ) × (n ≤ m)
        × (m < 17)
        × (port_exists m ≡ true)
        × (r ≡ ok slept)
        × (slept + 2 ≡ fib (suc (suc (suc m))))
        × (slept ≤ 4179))
      ⊎ ((r ≡ fault) × ((m : ℕ) → n ≤ m → m < 17 → port_exists m ≡ false))

  from_next : (n : ℕ) (r : Outcome ℕ) → port_exists n ≡ false → Waited (suc n) r → Waited n r
  from_next n r f (inl (m, slept, p, q, t, e, sum, most)) =
      inl (m, slept, omega arith, q, t, e, sum, most)
  from_next n r f (inr (e, h)) = inr (
    e,
    λ m u v. elim (Bool-cases (n == m)) [
      | inl t ↦ let same : n ≡ m = ground (arith, t) in subst (λ k. port_exists k ≡ false) same f
      | inr t ↦ h m (ground (arith, t, u)) v
    ],
  )

  looks :
      (rounds n slept : ℕ)
      → 17 ≤ n + rounds
      → n < 17
      → slept + 2 ≡ fib (suc (suc (suc n)))
      → Waited n (wait_for_port rounds port_exists n (fib (suc (suc n))) (fib (suc n)) slept)
  unfolding wait_for_port
  looks zero n slept e p q = absurd (omega arith)
  looks (suc rounds) n slept e p q = elim (Bool-cases (port_exists n)) [
    | inl t ↦
        let most : fib (suc (suc (suc n))) ≤ 4181 = fib_le (suc (suc (suc n))) 19 (omega arith) in
        inl (n, slept, omega arith, p, t, rw t refl, q, omega (arith, most))
    | inr f ↦ elim (Bool-cases (ltb n 16)) [
      | inl l ↦
          let rest =
            looks rounds (suc n) (slept + fib (suc (suc n))) (omega arith) (ground (arith, l))
              (omega (arith, q)) in
          rw f (rw (short n (ground (arith, l))) (from_next n _ f rest))
      | inr l ↦
          let last : n ≡ 16 = ground (arith, l, p) in
          inr (
            rw f (rw (long n last) refl),
            λ m u v. let same : n ≡ m = omega arith in subst (λ k. port_exists k ≡ false) same f,
          )
    ]
  ]

-- The wait for the port, with fuel for 17 looks: either the port is there at one of the looks m from 0
-- to 16, after fib (m + 3) less 2 milliseconds of sleep, which are at most 4179, or it is there at none
-- of them and the client throws.
pub wait_for_port_lem :
    (fuel : ℕ) (port_exists : ℕ → Bool)
    → 17 ≤ fuel
    → Waited port_exists 0 (wait_for_port fuel port_exists 0 1 1 0)
wait_for_port_lem fuel port_exists h = looks port_exists fuel 0 0 (omega arith) (omega arith) refl
