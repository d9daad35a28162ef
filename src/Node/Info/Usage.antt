-- ===== src/Node/Info/Usage.antt =====
-- The figures of NodeGetVolumeStats.
use exoscale_csi_driver.Base.{ℕ, ◌-◌, ◌*◌, ◌%◌, ◌≤◌, ◌≡◌, arith, pos}
use native.Mathlib.Nat.{mul-le-mul_right}
use exoscale_csi_driver.Os.{Statfs}
use exoscale_csi_driver.Node.Info.{
  VolumeUsage, mul_u64, sub_u64, to_u64, to_i64, usage, disk_usage, inodes_usage,
}

-- The three figures, without wrap-around.
abbrev pub Balanced : ℕ → ℕ → VolumeUsage → Type 0
Balanced total free u =
    (u.total ≡ pos total) × (u.available ≡ pos free) × (u.used ≡ pos (total - free))

of_le-Balanced :
    (total free : ℕ)
    → free ≤ total
    → total ≤ 9223372036854775807
    → Balanced total free (usage total free)
unfolding usage sub_u64 to_i64
of_le-Balanced total free h small = ground arith

mod_small : (n : ℕ) → n ≤ 9223372036854775807 → n % 18446744073709551616 ≡ n
mod_small n h = omega arith

-- For a file system with no more free blocks and inodes than it has, and of at most 2^63 - 1 bytes
-- and inodes, the figures of NodeGetVolumeStats are the true ones: total and free bytes and
-- inodes, and their differences. No arithmetic of the code wraps around.
pub disk_usage-Balanced :
    (fs : Statfs) (block_size : ℕ)
    → fs.bsize ≡ pos block_size
    → fs.bfree ≤ fs.blocks
    → fs.ffree ≤ fs.files
    → fs.blocks * block_size ≤ 9223372036854775807
    → fs.files ≤ 9223372036854775807
    → Balanced (fs.blocks * block_size) (fs.bfree * block_size) (disk_usage fs)
      × Balanced fs.files fs.ffree (inodes_usage fs)
unfolding disk_usage inodes_usage mul_u64 to_u64
disk_usage-Balanced fs block_size e blocks files bytes inodes =
    let le : fs.bfree * block_size ≤ fs.blocks * block_size = mul-le-mul_right block_size blocks in
    (
      rw
          (
            e,
            mod_small (fs.blocks * block_size) bytes,
            mod_small (fs.bfree * block_size) (omega (arith, le, bytes)),
          )
          (of_le-Balanced (fs.blocks * block_size) (fs.bfree * block_size) le bytes),
      of_le-Balanced fs.files fs.ffree files inodes,
    )
