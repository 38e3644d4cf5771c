-- ===== src/Workers/Shares.antt =====
-- The shares of perWorkerRequests, in internal/workload/tcp/tcp.go and internal/workload/udp/udp.go.
mod Tests
use native.Mathlib.Nat.{
  mod-lt, mod-eq_of_lt, suc-mod, mod_self, mod-add-div', div-eq_of_lt, div_self, add-mul-div_right,
  zero-mod, zero-div,
}
use sing_box_inbound_bench.Base.{
  ℕ, zero, suc, ◌+◌, ◌*◌, ◌/◌, ◌%◌, ◌≤◌, ◌<◌, min, Bool, true, false, ◌==◌, ltb, if◌then◌else◌,
  if-true, if-false, ◌≡◌, refl, ap, sym, ◌∙◌, ◌⊎◌, inl, inr, arith,
}
use sing_box_inbound_bench.Workers

-- The sum of the first `k` values of a function.
unfoldable pub sum_below : (ℕ → ℕ) → ℕ → ℕ
sum_below f zero = 0
sum_below f (suc k) = sum_below f k + f k

-- The number of the indices below `n` that are dealt to worker `i`, when index by index goes round.
unfoldable pub dealt : ℕ → ℕ → ℕ → ℕ
dealt workers i zero = 0
dealt workers i (suc n) = if n % workers == i then suc (dealt workers i n) else dealt workers i n

-- The early return for no requests is the general case.
pub share_eq :
    (total workers i : ℕ)
    → Workers.per_worker_requests total workers i
      ≡ (if ltb i (total % workers) then total / workers + 1 else total / workers)
unfolding Workers.per_worker_requests
share_eq zero workers i =
    let none_left : ltb i (zero % workers) ≡ false = ground (arith, zero-mod workers) in
    sym (if-false _ _ _ none_left ∙ zero-div workers)
share_eq (suc n) workers i =
    let some_left : (suc n == 0) ≡ false = ground arith in if-false _ _ _ some_left

share-sum :
    (total workers k : ℕ)
    → sum_below (Workers.per_worker_requests total workers) k
      ≡ k * (total / workers) + min k (total % workers)
unfolding sum_below
share-sum total workers zero = omega arith
share-sum total workers (suc k) =
    ground (arith, share-sum total workers k, share_eq total workers k)

-- The shares of all workers add up to the requests, and two shares differ by one at most, the
-- larger of them before the smaller.
pub shares_fair :
    (total workers : ℕ)
    → 0 < workers
    → (sum_below (Workers.per_worker_requests total workers) workers ≡ total)
      × ((i j : ℕ)
          → i ≤ j
          → (Workers.per_worker_requests total workers j
              ≤ Workers.per_worker_requests total workers i)
            × (Workers.per_worker_requests total workers i
                ≤ Workers.per_worker_requests total workers j + 1))
shares_fair total workers some_worker = (
  omega (
    arith,
    share-sum total workers workers,
    mod-add-div' total workers,
    mod-lt total some_worker,
  ),
  λ i j le. ground (arith, share_eq total workers i, share_eq total workers j),
)

module _ (workers : ℕ) (some_worker : 0 < workers) where
  suc-div :
      (n : ℕ)
      → ((suc n / workers ≡ n / workers) × (suc n % workers ≡ suc (n % workers)))
        ⊎ ((suc n / workers ≡ suc (n / workers))
            × (suc n % workers ≡ 0)
            × (suc (n % workers) ≡ workers))
  suc-div n = elim next [
    | inl below ↦ inl (
      ap (λ m. m / workers) regrouped
          ∙ add-mul-div_right (suc (n % workers)) (n / workers) some_worker
          ∙ ap (λ q. q + n / workers) (div-eq_of_lt below)
          ∙ omega arith,
      suc-mod n workers ∙ mod-eq_of_lt below,
    )
    | inr full ↦ inr (
      ap (λ m. m / workers) regrouped
          ∙ add-mul-div_right (suc (n % workers)) (n / workers) some_worker
          ∙ ap (λ q. q + n / workers) (ap (λ m. m / workers) full ∙ div_self some_worker)
          ∙ omega arith,
      suc-mod n workers ∙ ap (λ m. m % workers) full ∙ mod_self workers,
      full,
    )
  ]
    where
      regrouped : suc n ≡ suc (n % workers) + n / workers * workers
      regrouped = omega (arith, mod-add-div' n workers)

      next : (suc (n % workers) < workers) ⊎ (suc (n % workers) ≡ workers)
      next = omega (arith, mod-lt n some_worker)

  -- The packets that the sending loop deals to a flow, index by index, are as many as the flow's
  -- share, which sizes its tables.
  pub dealt-share :
      (total i : ℕ)
      → i < workers
      → dealt workers i total ≡ Workers.per_worker_requests total workers i
  unfolding dealt Workers.per_worker_requests
  dealt-share zero i h = refl
  dealt-share (suc n) i h = elim (suc-div n) [
    | inl (q, r) ↦ ground (
      arith,
      dealt-share n i h,
      share_eq n workers i,
      share_eq (suc n) workers i,
      mod-lt n some_worker,
    )
    | inr (q, r, full) ↦ ground (
      arith,
      dealt-share n i h,
      share_eq n workers i,
      share_eq (suc n) workers i,
      mod-lt n some_worker,
    )
  ]

-- Of fewer requests than workers, a worker whose number is not below the requests has a share of
-- zero, which its loop takes for no limit: it goes on after any number of rounds.
pub starved-goes_on :
    (total workers i : ℕ)
    → 0 < total
    → total ≤ i
    → i < workers
    → (k : ℕ) → Workers.goes_on (Workers.per_worker_requests total workers i) k ≡ true
starved-goes_on total workers i some_request above below k =
    let few : total < workers = omega arith in
    ground (arith, share_eq total workers i, div-eq_of_lt few, mod-eq_of_lt few)
