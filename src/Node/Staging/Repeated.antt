-- ===== src/Node/Staging/Repeated.antt =====
-- NodeUnstageVolume, called again after it unmounted the staging path.
use exoscale_csi_driver.Base.{
  refl, sym, false, ap, ◌∙◌, inl, inr, str_eq, Bool-cases, pure, handle, handle-keeps, >>=-ok_elim,
  or_else-ok_elim, is_not_exist, String, ◌≡◌, true, Result, not_found, status, no_args, text_arg,
  ok, err,
}
use exoscale_csi_driver.Helpers.{get_exoscale_id}
use exoscale_csi_driver.Os.{Os}
use exoscale_csi_driver.Os.Laws.{Gone, CleanupLaws}
use exoscale_csi_driver.Disk.Utils.{get_device_path, is_shared_mounted, unmount}
use exoscale_csi_driver.Node.Staging.{
  UnstageRequest, unmount_failed, unstage_without_path, unstage_path, node_unstage_volume,
}

module _ (O : Os) (laws : CleanupLaws O) where
  -- Behind a staging path that is mounted, an unstaging that succeeds is the clean-up of the path.
  unstage_path-cleanup :
      (path id : String) (w : O.State) {w' : O.State}
      → is_shared_mounted O path "" w ≡ (ok true, w)
      → unstage_path O path id w ≡ (ok tt, w')
      → O.cleanup_mount_point path true w ≡ (ok tt, w')
  unfolding unstage_path unmount unstage_without_path
  unstage_path-cleanup path id w {w'} mounted h =
      let test = handle (O.stat path) (unstage_without_path id) (λ _. pure tt) in
      >>=-ok_elim test _ w h λ u w₁ there h₁.
        let same : w₁ ≡ w =
          sym (ap (λ p. p.1) there)
          ∙ handle-keeps (O.stat path) (unstage_without_path id) (λ _. pure tt) w
              (laws.stat-keeps path w)
              (λ e. elim (Bool-cases (is_not_exist e)) [ inl b ↦ rw b refl | inr b ↦ rw b refl ])
              (λ _. refl) in
        or_else-ok_elim (O.cleanup_mount_point path true) unmount_failed w
          (rw mounted at (rw same at h₁)) (λ cleaned. cleaned)

  first_run :
      (parse_uuid : String → Result String) (req : UnstageRequest) (zone id device : String)
      (w : O.State) {w' : O.State}
      → get_exoscale_id parse_uuid req.volume_id ≡ ok (zone, id)
      → get_device_path O id w ≡ (ok device, w)
      → str_eq req.staging_target_path "" ≡ false
      → node_unstage_volume O parse_uuid req w ≡ (ok tt, w')
      → unstage_path O req.staging_target_path id w ≡ (ok tt, w')
  unfolding node_unstage_volume unstage_path is_shared_mounted
  first_run parse_uuid req zone id device w read found given h =
      rw given (rw (read, given, found) at h)

  -- Over a system that meets CleanupLaws: when NodeUnstageVolume has succeeded while the device was
  -- found and the staging path was mounted, the staging path does not exist any more, and the same
  -- request, made again while the device is still found, fails with NotFound, since the code takes
  -- a staging path that does not exist for an error.
  pub node_unstage_volume_repeated :
      (parse_uuid : String → Result String) (req : UnstageRequest) (zone id device : String)
      (w : O.State) {w' : O.State}
      → get_exoscale_id parse_uuid req.volume_id ≡ ok (zone, id)
      → get_device_path O id w ≡ (ok device, w)
      → is_shared_mounted O req.staging_target_path "" w ≡ (ok true, w)
      → node_unstage_volume O parse_uuid req w ≡ (ok tt, w')
      → get_device_path O id w' ≡ (ok device, w')
      → Gone O req.staging_target_path w'
        × (node_unstage_volume O parse_uuid req w'
            ≡ (err (status not_found "volume %s not found on node" (text_arg id no_args)), w'))
  unfolding node_unstage_volume unstage_path unstage_without_path
  node_unstage_volume_repeated parse_uuid req zone id device w {w'} read found mounted h still =
      elim (Bool-cases (str_eq req.staging_target_path "")) [
        | inl empty ↦ absurd (cc (rw (read, empty) at h))
        | inr given ↦
            let cleaned =
              unstage_path-cleanup req.staging_target_path id w mounted
                (first_run parse_uuid req zone id device w read found given h) in
            let gone = laws.cleanup-removes req.staging_target_path w w' cleaned in
            (gone, rw (read, given, still, gone.1, gone.2))
      ]
