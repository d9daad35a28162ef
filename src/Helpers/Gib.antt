-- ===== src/Helpers/Gib.antt =====
-- convertBytesToGiB and convertGiBToBytes at whole numbers of GiB.
use exoscale_csi_driver.Base.{ℕ, ◌*◌, ◌/◌, ◌%◌, ◌≡◌, true, arith, ◌*ℤ◌, eqb_ℤ, div_ℤ, mod_ℤ, pos}
use exoscale_csi_driver.Helpers.{gib}

pub exact : (n : ℕ) → n % 1073741824 ≡ 0 → n / 1073741824 * 1073741824 ≡ n
exact n h = omega arith

pub div_ℤ-pos : (n : ℕ) → div_ℤ (pos n) gib ≡ pos (n / 1073741824)
div_ℤ-pos n = ground arith

pub *ℤ-pos : (n : ℕ) → pos n *ℤ gib ≡ pos (n * 1073741824)
*ℤ-pos n = ground arith

pub mod_ℤ-pos : (n : ℕ) → eqb_ℤ (mod_ℤ (pos n) gib) (pos 0) ≡ true → n % 1073741824 ≡ 0
mod_ℤ-pos n h = ground arith
