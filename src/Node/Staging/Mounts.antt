-- ===== src/Node/Staging/Mounts.antt =====
-- What NodeStageVolume and NodeUnstageVolume have done when they succeed.
use exoscale_csi_driver.Base.{
  String, ◌≡◌, subst, ap, ◌∙◌, ◌≢◌, inl, inr, true, false, Option, none, some, arith, str_eq_iff,
  Bool-cases, any, is_not_exist, Error, Result, pure, handle, or_else, handle-ok_elim, >>=-ok_elim,
  or_else-ok_elim, lift-ok_elim, invalid_argument, wrap, ok, err,
}
use exoscale_csi_driver.Csi.{
  AccessType, no_access_type, block, mount, MountVolume, VolumeCapability,
}
use exoscale_csi_driver.Helpers.{get_exoscale_id, validate_volume_capability}
use exoscale_csi_driver.Os.{Os}
use exoscale_csi_driver.Disk.Utils.{
  get_device_path, is_shared_mounted, is_block_device, format_and_mount, unmount, with_default_type,
}
use exoscale_csi_driver.Node.{require_path}
use exoscale_csi_driver.Node.Devices.{DeviceOf, found_device, FsType, with_default_type-FsType}
use exoscale_csi_driver.Node.Staging.{
  StageRequest, UnstageRequest, required_capability, already_staged, stage_mount, stage_device,
  stage_unless_mounted, stat_failed, stage_device_path, unstage_path, node_stage_volume,
  node_unstage_volume, format_failed, staging_check_failed, stage_refused, unstage_check_failed,
  unmount_failed, unstage_without_device, unstage_without_path,
}

pub required_capability-eq_ok :
    (message : String) (refused : Error → Error) (o : Option VolumeCapability)
    {c : VolumeCapability}
    → required_capability message refused o ≡ ok c
    → (o ≡ some c) × (validate_volume_capability o ≡ ok tt)
unfolding required_capability validate_volume_capability any
required_capability-eq_ok message refused none h = absurd (cc h)
required_capability-eq_ok message refused (some c) h = ground arith

module _ (O : Os) where
  -- What a staging that succeeded and ended in the state has done.
  pub data Staged (req : StageRequest) (device_path : String) : AccessType → O.State → Type 0 where
    -- A block volume is not mounted.
    as_block : (w : O.State) → Staged req device_path block w
    -- The volume was found mounted on the path, which is no block device.
    was_mounted :
        (a : AccessType) (w₁ w₂ w : O.State)
        → is_shared_mounted O req.staging_target_path device_path w₁ ≡ (ok true, w₂)
        → is_block_device O req.staging_target_path w₂ ≡ (ok false, w)
        → Staged req device_path a w
    -- The device was formatted, if need be, and mounted.
    now_mounted :
        (m : MountVolume) (fs_type : String) (w₁ w : O.State)
        → FsType m.fs_type fs_type
        → O.format_and_mount device_path req.staging_target_path fs_type m.mount_flags w₁
          ≡ (ok tt, w)
        → Staged req device_path (mount m) w

  already_staged-eq_ok :
      (path volume_id : String) (w : O.State) {w' : O.State}
      → already_staged O path volume_id w ≡ (ok tt, w')
      → is_block_device O path w ≡ (ok false, w')
  unfolding already_staged
  already_staged-eq_ok path volume_id w {w'} h =
      >>=-ok_elim (or_else (is_block_device O path) (stat_failed path)) _ w h λ b w₁ e h₁.
        or_else-ok_elim (is_block_device O path) (stat_failed path) w e λ k. elim (Bool-cases b) [
          | inl device ↦ absurd (cc (device, h₁))
          | inr other ↦
              k
              ∙ ap (λ t. (ok t, w₁)) other
              ∙ ap (λ t. (ok false, t)) (ap (λ p. p.1) (rw other at h₁))
        ]

  stage_mount-Staged :
      (req : StageRequest) (device_path : String) (a : AccessType) (w : O.State) {w' : O.State}
      → stage_mount O req.staging_target_path device_path a w ≡ (ok tt, w')
      → Staged req device_path a w'
  unfolding stage_mount format_and_mount
  stage_mount-Staged req device_path no_access_type w h = absurd (cc h)
  stage_mount-Staged req device_path block w h = absurd (cc h)
  stage_mount-Staged req device_path (mount m) w {w'} h =
      or_else-ok_elim
        (format_and_mount O req.staging_target_path device_path m.fs_type m.mount_flags)
        (format_failed req.staging_target_path device_path m) w h
        λ e.
          or_else-ok_elim
            (O.format_and_mount device_path req.staging_target_path (with_default_type m.fs_type)
              m.mount_flags)
            (wrap "failed to optionnaly format and mount: %w") w e
            λ k.
              now_mounted m (with_default_type m.fs_type) w w' (with_default_type-FsType m.fs_type)
                k

  stage_unless_mounted-Staged :
      (req : StageRequest) (volume_id device_path : String) (a : AccessType) (w : O.State)
      {w' : O.State}
      → stage_unless_mounted O req.staging_target_path volume_id device_path a w ≡ (ok tt, w')
      → Staged req device_path a w'
  unfolding stage_unless_mounted
  stage_unless_mounted-Staged req volume_id device_path a w {w'} h =
      let mounted = is_shared_mounted O req.staging_target_path device_path in
      let failed = staging_check_failed volume_id req.staging_target_path in
      >>=-ok_elim (or_else mounted failed) _ w h λ b w₁ e h₁.
        or_else-ok_elim mounted failed w e λ k. elim (Bool-cases b) [
          | inl there ↦
              was_mounted a w w₁ w' (k ∙ ap (λ t. (ok t, w₁)) there)
                (already_staged-eq_ok req.staging_target_path volume_id w₁ (rw there at h₁))
          | inr absent ↦ stage_mount-Staged req device_path a w₁ (rw absent at h₁)
        ]

  stage_device-Staged :
      (req : StageRequest) (volume_id device_path : String) (a : AccessType) (w : O.State)
      {w' : O.State}
      → stage_device O req.staging_target_path volume_id device_path a w ≡ (ok tt, w')
      → Staged req device_path a w'
  unfolding stage_device
  stage_device-Staged req volume_id device_path block w {w'} h = as_block w'
  stage_device-Staged req volume_id device_path no_access_type w h =
      stage_unless_mounted-Staged req volume_id device_path no_access_type w h
  stage_device-Staged req volume_id device_path (mount m) w h =
      stage_unless_mounted-Staged req volume_id device_path (mount m) w h

  -- When NodeStageVolume succeeds, the staging path is given, the capability is one that the driver
  -- supports, the device is the one that GetDevicePath has found for the request's volume, under its
  -- name below /dev/disk/by-id, and the volume is a block volume, which is not mounted, or the device was found mounted on the staging
  -- path, which is no block device, or the last call has formatted and mounted the device on the
  -- staging path, with the file system and the flags of the request, or ext4.
  pub node_stage_volume-Staged :
      (parse_uuid : String → Result String) (req : StageRequest) (w : O.State) {w' : O.State}
      → node_stage_volume O parse_uuid req w ≡ (ok tt, w')
      → (c : VolumeCapability) × (device_path : String) × (req.volume_capability ≡ some c)
        × (validate_volume_capability (some c) ≡ ok tt)
        × (req.staging_target_path ≢ "")
        × DeviceOf O parse_uuid req.volume_id device_path
        × Staged req device_path c.access_type w'
  unfolding node_stage_volume
  node_stage_volume-Staged parse_uuid req w {w'} h =
      >>=-ok_elim
        (require_path invalid_argument "stagingTargetPath not provided" req.staging_target_path) _ w
        h
        λ u w₁ path h₁.
          lift-ok_elim
            (required_capability "volumeCapability not provided" (stage_refused req.volume_id)
              req.volume_capability)
            _ w₁ h₁
            λ c capable h₂.
              lift-ok_elim (get_exoscale_id parse_uuid req.volume_id) _ w₁ h₂ λ x read h₃.
                >>=-ok_elim (stage_device_path O x.1) _ w₁ h₃ λ device_path w₂ device h₄.
                  let (e, valid) =
                    required_capability-eq_ok "volumeCapability not provided"
                      (stage_refused req.volume_id) req.volume_capability capable in
                  (
                    c,
                    device_path,
                    e,
                    subst (λ o. validate_volume_capability o ≡ ok tt) e valid,
                    λ empty.
                        absurd (cc (rw ((str_eq_iff req.staging_target_path "").1 empty) at path)),
                    unfold stage_device_path in
                        or_else-ok_elim (get_device_path O x.1) _ w₁ device
                          (λ got. found_device O parse_uuid req.volume_id x w₁ w₂ read got),
                    stage_device-Staged req x.1 device_path c.access_type w₂ h₄,
                  )

  -- What an unstaging that succeeded and ended in the state has done.
  pub data Unstaged (parse_uuid : String → Result String) (req : UnstageRequest)
      : O.State → Type 0 where
    -- The device of the volume is not there.
    no_device :
        (zone volume_id : String) (e : Error) (w₁ w : O.State)
        → get_exoscale_id parse_uuid req.volume_id ≡ ok (zone, volume_id)
        → get_device_path O volume_id w₁ ≡ (err e, w)
        → is_not_exist e ≡ true
        → Unstaged parse_uuid req w
    -- The device is there, and nothing is mounted on the path.
    not_mounted :
        (device_path : String) (w₁ w : O.State)
        → DeviceOf O parse_uuid req.volume_id device_path
        → is_shared_mounted O req.staging_target_path "" w₁ ≡ (ok false, w)
        → Unstaged parse_uuid req w
    -- The device is there, something was found mounted on the path, and the path was unmounted.
    now_unmounted :
        (device_path : String) (w₁ w₂ w : O.State)
        → DeviceOf O parse_uuid req.volume_id device_path
        → is_shared_mounted O req.staging_target_path "" w₁ ≡ (ok true, w₂)
        → O.cleanup_mount_point req.staging_target_path true w₂ ≡ (ok tt, w)
        → Unstaged parse_uuid req w

  unstage_path-Unstaged :
      (parse_uuid : String → Result String) (req : UnstageRequest) (volume_id device_path : String)
      (w : O.State) {w' : O.State}
      → DeviceOf O parse_uuid req.volume_id device_path
      → unstage_path O req.staging_target_path volume_id w ≡ (ok tt, w')
      → Unstaged parse_uuid req w'
  unfolding unstage_path unmount
  unstage_path-Unstaged parse_uuid req volume_id device_path w {w'} of h =
      let path = req.staging_target_path in
      let mounted = is_shared_mounted O path "" in
      >>=-ok_elim (handle (O.stat path) (unstage_without_path volume_id) (λ _. pure tt)) _ w h
        λ u w₁ there h₁. >>=-ok_elim (or_else mounted unstage_check_failed) _ w₁ h₁ λ b w₂ e h₂.
          or_else-ok_elim mounted unstage_check_failed w₁ e λ k. elim (Bool-cases b) [
            | inl on ↦
                or_else-ok_elim (O.cleanup_mount_point path true) unmount_failed w₂ (rw on at h₂)
                  λ q. now_unmounted device_path w₁ w₂ w' of (k ∙ ap (λ t. (ok t, w₂)) on) q
            | inr off ↦ not_mounted device_path w₁ w' of (
                k
                ∙ ap (λ t. (ok t, w₂)) off
                ∙ ap (λ t. (ok false, t)) (ap (λ p. p.1) (rw off at h₂)))
          ]

  -- When NodeUnstageVolume succeeds, the staging path is given, and GetDevicePath has said that the
  -- device of the request's volume is not there, or it has found the device, and nothing is mounted
  -- on the staging path, or something was and the last call has unmounted it.
  pub node_unstage_volume-Unstaged :
      (parse_uuid : String → Result String) (req : UnstageRequest) (w : O.State) {w' : O.State}
      → node_unstage_volume O parse_uuid req w ≡ (ok tt, w')
      → (req.staging_target_path ≢ "") × Unstaged parse_uuid req w'
  unfolding node_unstage_volume unstage_without_device
  node_unstage_volume-Unstaged parse_uuid req w {w'} h =
      lift-ok_elim (get_exoscale_id parse_uuid req.volume_id) _ w h λ x read h₁.
        >>=-ok_elim
          (require_path invalid_argument "stagingTargetPath not provided" req.staging_target_path) _
          w h₁
          λ u w₁ path h₂. (
            λ empty. absurd (cc (rw ((str_eq_iff req.staging_target_path "").1 empty) at path)),
            handle-ok_elim (get_device_path O x.1) (unstage_without_device x.1) _ w₁ h₂
                (λ device w₂ found h₃.
                  unstage_path-Unstaged parse_uuid req x.1 device w₂
                    (found_device O parse_uuid req.volume_id x w₁ w₂ read found) h₃)
                (λ e w₂ fails h₃. elim (Bool-cases (is_not_exist e)) [
                  | inl missing ↦
                      no_device x.0 x.1 e w₁ w' read
                        (fails ∙ ap (λ t. (err e, t)) (ap (λ p. p.1) (rw missing at h₃))) missing
                  | inr other ↦ absurd (cc (rw other at h₃))
                ]),
          )
