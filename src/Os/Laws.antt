-- ===== src/Os/Laws.antt =====
-- Documented behaviour of kmount.CleanupMountPoint (vendor/k8s.io/mount-utils), which unmounts the path
-- and deletes the directory, and of os.Stat, which changes nothing.
use exoscale_csi_driver.Base.{String, ◌≡◌, true, is_not_exist, Error, ok, err}
use exoscale_csi_driver.Os.{Os}

abbrev pub Gone : (O : Os) → String → O.State → Type 0
Gone O path w = (e : Error) × (O.stat path w ≡ (err e, w)) × (is_not_exist e ≡ true)

pub record CleanupLaws (O : Os) : Type 0 where
  pub cleanup-removes :
      (path : String) (w w' : O.State)
      → O.cleanup_mount_point path true w ≡ (ok tt, w')
      → Gone O path w'
  pub stat-keeps : (path : String) (w : O.State) → (O.stat path w).1 ≡ w
