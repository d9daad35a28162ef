-- ===== src/Integ/Retry.antt =====
-- retry of internal/integ/cluster/utils.go: trials with a pause between them.
pub mod Trials
pub mod Pauses
use exoscale_csi_driver.Base.{
  ℕ, zero, suc, if◌then◌else◌, pos_part, ◌-ℤ◌, eqb_ℤ, wrap64, ℤ, Action, pure, proceed, handle, pos,
}

-- 20 * time.Second
abbrev default_interval : ℤ
default_interval = pos 20000000000

-- How often the loop runs: `nRetries - 1` times, with 20 for a zero.
unfoldable pub rounds : ℤ → ℕ
unfolding wrap64
rounds n_retries =
    pos_part (wrap64 ((if eqb_ℤ n_retries (pos 0) then pos 20 else n_retries) -ℤ pos 1))

unfoldable pub pause : ℤ → ℤ
pause retry_interval = if eqb_ℤ retry_interval (pos 0) then default_interval else retry_interval

-- Over time.Sleep. The trial behind the loop is the last one.
module _ {S : Type 0} (sleep : ℤ → S → S) (trial : Action S (Unit {0})) where
  unfoldable pub retry_rounds : ℕ → ℤ → Action S (Unit {0})
  retry_rounds zero interval = trial
  retry_rounds (suc n) interval =
      handle trial (λ _ s. retry_rounds n interval (sleep interval s)) pure

  unfoldable pub retry : ℤ → ℤ → Action S (Unit {0})
  unfolding rounds pause
  retry n_retries retry_interval = retry_rounds (rounds n_retries) (pause retry_interval)
