-- ===== src/Integ/Retry/Pauses.antt =====
-- retry ends: how many trials and pauses it makes at most, by counters that run along.
use exoscale_csi_driver.Base.{
  ℕ, zero, suc, ◌+◌, ◌≤◌, ◌≡◌, ◌≢◌, ◌⊎◌, inl, inr, refl, arith, ℤ, pos, negsuc, pos_part, neg_part,
  wrap64, ◌==◌, if◌then◌else◌, Error, Result, Action, pure, proceed, ok, err, panic,
}
use exoscale_csi_driver.Integ.Retry.{rounds, pause, retry_rounds, retry}

pub record Counted (S : Type 0) : Type 0 where
  pub inner : S
  pub trials : ℕ
  pub pauses : ℕ

module _ {S : Type 0} where
  abbrev pub start : S → Counted S
  start s = record { inner = s; trials = 0; pauses = 0 }

  abbrev pub counted_trial : Action S (Unit {0}) → Action (Counted S) (Unit {0})
  counted_trial trial c =
      ((trial c.inner).0, record c { inner = (trial c.inner).1; trials = c.trials + 1 })

  abbrev pub counted_sleep : (ℤ → S → S) → ℤ → Counted S → Counted S
  counted_sleep sleep d c = record c { inner = sleep d c.inner; pauses = c.pauses + 1 }

  -- Between 1 and n + 1 trials, and one pause less.
  abbrev pub Within : ℕ → Counted S → Counted S → Type 0
  Within n s t =
      (s.trials + 1 ≤ t.trials)
      × (t.trials ≤ s.trials + n + 1)
      × (t.pauses + s.trials + 1 ≡ s.pauses + t.trials)

  -- All n + 1 trials were made, or the result is no error.
  abbrev Full : ℕ → Counted S → Result (Unit {0}) → Counted S → Type 0
  Full n s r t = (t.trials ≡ s.trials + n + 1) ⊎ ((e : Error) → r ≢ err e)

-- How many trials `nRetries` means: itself, but 20 for 0, and one for a negative number.
abbrev pub allowed : ℤ → ℕ
allowed (pos n) = if n == 0 then 20 else n
allowed (negsuc n) = 1

-- An `int` from which one can be subtracted.
abbrev pub IsCount : ℤ → Type 0
IsCount n = (pos_part n ≤ 9223372036854775807) × (neg_part n ≤ 9223372036854775807)

rounds-allowed : (n : ℤ) → IsCount n → rounds n + 1 ≡ allowed n
unfolding rounds wrap64
rounds-allowed (pos n) small = ground arith
rounds-allowed (negsuc n) small = ground arith

module _ {S : Type 0} (sleep : ℤ → S → S) (trial : Action S (Unit {0})) where
  abbrev counted : ℕ → ℤ → Action (Counted S) (Unit {0})
  counted = retry_rounds (counted_sleep sleep) (counted_trial trial)

  abbrev Follows : ℕ → ℤ → Counted S → Type 0
  Follows n interval c =
      Within n c (counted n interval c).1
      × Full n c (counted n interval c).0 (counted n interval c).1
      × ((counted n interval c).0 ≡ (retry_rounds sleep trial n interval c.inner).0)
      × ((counted n interval c).1.inner ≡ (retry_rounds sleep trial n interval c.inner).1)

  retry_rounds-Follows : (n : ℕ) (interval : ℤ) (c : Counted S) → Follows n interval c
  unfolding retry_rounds
  retry_rounds-Follows zero interval c = (omega arith, inl (omega arith), refl, refl)
  retry_rounds-Follows (suc n) interval c =
      go (trial c.inner).0 (trial c.inner).1 (retry_rounds-Follows n interval)
    where
      failed : Counted S → Counted S
      failed d = counted_sleep sleep interval d

      go :
          (r : Result (Unit {0})) (t : S)
          → ((d : Counted S) → Follows n interval d)
          → let next : Counted S = record c { inner = t; trials = c.trials + 1 } in
            let with_counters =
              proceed {B = Unit {0}} pure
                (λ _ d. counted n interval (counted_sleep sleep interval d))
                r
                next in
            let without =
              proceed {B = Unit {0}} pure
                (λ _ s. retry_rounds sleep trial n interval (sleep interval s))
                r
                t in
            Within (suc n) c with_counters.1
            × Full (suc n) c with_counters.0 with_counters.1
            × (with_counters.0 ≡ without.0)
            × (with_counters.1.inner ≡ without.1)
      go (ok u) t rest = (omega arith, inr (λ e h. absurd (cc h)), refl, refl)
      go (err e) t rest =
          let next : Counted S = record c { inner = t; trials = c.trials + 1 } in
          let later = rest (counted_sleep sleep interval next) in
          (
            omega (arith, later.0),
            elim later.1 [ inl all ↦ inl (omega (arith, all)) | inr well ↦ inr well ],
            later.2,
            later.3,
          )
      go (panic p) t rest = (omega arith, inr (λ e h. absurd (cc h)), refl, refl)

  -- retry ends, for every `nRetries` but the least `int`: it makes at least one trial and at most as
  -- many as `nRetries` says, 20 for a 0 and one for a negative number, and one pause less than
  -- trials, whatever the trials do; when it returns an error, it has made all of them. The counters
  -- change neither its result nor the state behind it.
  pub retry_counts :
      (n_retries interval : ℤ) (s : S)
      → IsCount n_retries
      → let c = retry (counted_sleep sleep) (counted_trial trial) n_retries interval (start s) in
        (1 ≤ c.1.trials)
        × (c.1.trials ≤ allowed n_retries)
        × ((c.1.trials ≡ allowed n_retries) ⊎ ((e : Error) → c.0 ≢ err e))
        × (c.1.pauses + 1 ≡ c.1.trials)
        × (c.0 ≡ (retry sleep trial n_retries interval s).0)
        × (c.1.inner ≡ (retry sleep trial n_retries interval s).1)
  unfolding retry
  retry_counts n_retries interval s count =
      let along = retry_rounds-Follows (rounds n_retries) (pause interval) (start s) in
      let means = rounds-allowed n_retries count in
      (
        omega (arith, along.0),
        omega (arith, along.0, means),
        elim along.1 [ inl all ↦ inl (omega (arith, all, means)) | inr well ↦ inr well ],
        omega (arith, along.0),
        along.2,
        along.3,
      )
