-- ===== src/Integ/Retry/Trials.antt =====
-- When retry succeeds: which trials it makes, and from which state each of them starts.
use exoscale_csi_driver.Base.{
  ℕ, zero, suc, ◌≤◌, ◌≡◌, refl, ◌∙◌, ◌↔◌, arith, ℤ, Error, Action, pure, handle-ok_elim, ok, err,
}
use exoscale_csi_driver.Integ.Retry.{rounds, pause, retry_rounds, retry}

module _ {S : Type 0} (sleep : ℤ → S → S) (trial : Action S (Unit {0})) where
  -- The state that trial number `k` starts from, counted from 0, if all trials before it have failed
  -- with an error.
  abbrev pub Reaches : ℤ → ℕ → S → S → Type 0
  Reaches interval zero s t = s ≡ t
  Reaches interval (suc k) s t =
      (e : Error) × (s₁ : S) × (trial s ≡ (err e, s₁)) × Reaches interval k (sleep interval s₁) t

  -- One of the trials up to number `n` succeeds, and those before it fail with an error.
  abbrev pub SucceedsBy : ℕ → ℤ → S → S → Type 0
  SucceedsBy n interval s s' =
      (k : ℕ) × (k ≤ n) × (t : S) × Reaches interval k s t × (trial t ≡ (ok tt, s'))

  retry_rounds-SucceedsBy :
      (n : ℕ) (interval : ℤ) (s : S) {s' : S}
      → retry_rounds sleep trial n interval s ≡ (ok tt, s')
      → SucceedsBy n interval s s'
  unfolding retry_rounds
  retry_rounds-SucceedsBy zero interval s h = (0, omega arith, s, refl, h)
  retry_rounds-SucceedsBy (suc n) interval s {s'} h =
      handle-ok_elim trial (λ _ t. retry_rounds sleep trial n interval (sleep interval t)) pure s h
        (λ u s₁ done h₁. (0, omega arith, s, refl, done ∙ h₁))
        (λ e s₁ failed h₁.
          let rest = retry_rounds-SucceedsBy n interval (sleep interval s₁) h₁ in
          (suc rest.0, omega (arith, rest.1), rest.2, (e, s₁, failed, rest.3), rest.4))

  retry_rounds-of_Reaches :
      (n k : ℕ) (interval : ℤ) (s t : S) {s' : S}
      → k ≤ n
      → Reaches interval k s t
      → trial t ≡ (ok tt, s')
      → retry_rounds sleep trial n interval s ≡ (ok tt, s')
  unfolding retry_rounds
  retry_rounds-of_Reaches zero zero interval s t b e h = rw e h
  retry_rounds-of_Reaches zero (suc k) interval s t b r h = absurd (omega arith)
  retry_rounds-of_Reaches (suc n) zero interval s t b e h = rw (e, h)
  retry_rounds-of_Reaches (suc n) (suc k) interval s t b r h =
      rw r.2 (retry_rounds-of_Reaches n k interval (sleep interval r.1) t (omega arith) r.3 h)

  -- retry returns nil exactly when one of its trials does and those before it fail with an error; the
  -- trials number 0 to `nRetries - 1`, with 20 in the place of an `nRetries` of 0, and at least one.
  pub retry-ok_iff :
      (n_retries interval : ℤ) (s : S) {s' : S}
      → (retry sleep trial n_retries interval s ≡ (ok tt, s'))
        ↔ SucceedsBy (rounds n_retries) (pause interval) s s'
  unfolding retry
  retry-ok_iff n_retries interval s = (
    retry_rounds-SucceedsBy (rounds n_retries) (pause interval) s,
    λ w. retry_rounds-of_Reaches (rounds n_retries) w.0 (pause interval) s w.2 w.1 w.3 w.4,
  )
