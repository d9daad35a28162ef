-- ===== src/Node/Publishing/Mounts.antt =====
-- What NodePublishVolume has done when it succeeds.
use exoscale_csi_driver.Base.{
  String, List, [], ◌∷◌, ◌++◌, refl, ◌≡◌, subst, ap, ◌∙◌, ◌⊎◌, inl, inr, Bool, true, false, ◌&&◌,
  some, if◌then◌else◌, Bool-cases, ℤ, Result, pure, or_else, handle-ok_elim, >>=-ok_elim,
  or_else-ok_elim, lift-ok_elim, pos, failed_precondition, invalid_argument, ok,
}
use exoscale_csi_driver.Csi.{AccessType, no_access_type, block, mount, VolumeCapability}
use exoscale_csi_driver.Helpers.{get_exoscale_id, validate_volume_capability}
use exoscale_csi_driver.Os.{Os}
use exoscale_csi_driver.Disk.Utils.{
  get_device_path, is_shared_mounted, mount_to_target, with_default_type,
}
use exoscale_csi_driver.Node.{require_path}
use exoscale_csi_driver.Node.Devices.{DeviceOf, found_device, FsType, with_default_type-FsType}
use exoscale_csi_driver.Node.Staging.{required_capability}
use exoscale_csi_driver.Node.Staging.Mounts.{required_capability-eq_ok}
use exoscale_csi_driver.Node.Publishing.{
  PublishRequest, create_failed, mount_failed, check_failed, capability_refused, device_missing,
  is_block, open_failed, close_and_fail, close_fd, mount_source, mount_type, mount_options,
  mount_flags, set_device_read_only, create_mount_point, publish_mount, publish_device,
  node_publish_volume,
}

-- The flags, with "bind", and with "ro" for a read-only request.
abbrev pub bound : List String → Bool → List String
bound flags true = flags ++ "bind" ∷ "ro" ∷ []
bound flags false = flags ++ "bind" ∷ []

-- The source, the type and the options of the bind mount that the request asks for: of the device for a
-- block volume, else of the staging path.
abbrev pub Asked : PublishRequest → String → AccessType → String → String → List String → Type 0
Asked req device_path block source fs_type options =
    (source ≡ device_path) × (fs_type ≡ "ext4") × (options ≡ bound [] req.read_only)
Asked req device_path (mount m) source fs_type options =
    (source ≡ req.staging_target_path)
    × FsType m.fs_type fs_type
    × (options ≡ bound m.mount_flags req.read_only)
Asked req device_path no_access_type source fs_type options =
    (source ≡ "") × (fs_type ≡ "ext4") × (options ≡ bound [] req.read_only)

bind-append :
    (flags behind : List String) → (flags ++ "bind" ∷ []) ++ behind ≡ flags ++ "bind" ∷ behind
bind-append [] behind = refl
bind-append (flag ∷ flags) behind = ap (λ fs. flag ∷ fs) (bind-append flags behind)

mount_options-bound :
    (a : AccessType) (read_only : Bool)
    → mount_options a read_only ≡ bound (mount_flags a) read_only
unfolding mount_options
mount_options-bound a true = bind-append (mount_flags a) ("ro" ∷ [])
mount_options-bound a false = bind-append (mount_flags a) []

mount-Asked :
    (req : PublishRequest) (device_path : String) (a : AccessType)
    → Asked req device_path a
        (mount_source device_path req.staging_target_path a)
        (with_default_type (mount_type a))
        (mount_options a req.read_only)
unfolding mount_source mount_type mount_flags
mount-Asked req device_path block = (refl, refl, mount_options-bound block req.read_only)
mount-Asked req device_path (mount m) =
    (refl, with_default_type-FsType m.fs_type, mount_options-bound (mount m) req.read_only)
mount-Asked req device_path no_access_type =
    (refl, refl, mount_options-bound no_access_type req.read_only)

module _ (O : Os) where
  -- A call has set the read-only flag of the device.
  abbrev pub MadeReadOnly : String → Type 0
  MadeReadOnly device_path =
      (fd : ℤ) × (w : O.State) × (w₁ : O.State) × (w₂ : O.State) × (O.openat device_path w
        ≡ (ok fd, w₁))
      × (O.blkroset fd (pos 1) w₁ ≡ (ok tt, w₂))

  -- A call has made a block device read-only, if the request is.
  abbrev pub Prepared : String → AccessType → Bool → Type 0
  Prepared device_path block true = MadeReadOnly device_path
  Prepared device_path block false = Unit
  Prepared device_path (mount m) read_only = Unit
  Prepared device_path no_access_type read_only = Unit

  -- The target is bind-mounted by the call that ended in the state, behind the call that makes a
  -- block device read-only, if the request is.
  abbrev pub Mounted : PublishRequest → String → AccessType → O.State → Type 0
  Mounted req device_path access_type w' =
      Prepared device_path access_type req.read_only
      × (source : String) × (fs_type : String) × (options : List String) × (w : O.State) × Asked req
          device_path access_type source fs_type options
      × (O.mount source req.target_path fs_type options w ≡ (ok tt, w'))

  set_device_read_only-MadeReadOnly :
      (device_path : String) (w : O.State) {w' : O.State}
      → set_device_read_only O device_path w ≡ (ok tt, w')
      → MadeReadOnly device_path
  unfolding set_device_read_only
  set_device_read_only-MadeReadOnly device_path w {w'} h =
      >>=-ok_elim (or_else (O.openat device_path) (open_failed device_path)) _ w h
        λ fd w₁ opened h₁.
          or_else-ok_elim (O.openat device_path) (open_failed device_path) w opened λ opens.
            handle-ok_elim (O.blkroset fd (pos 1)) (λ e. close_and_fail O device_path fd e)
              (λ _. close_fd O fd) w₁ h₁ (λ u w₂ sets h₂. (fd, w, w₁, w₂, opens, sets))
              (λ e w₂ failed h₂.
                >>=-ok_elim (close_fd O fd) _ w₂ h₂ λ v w₃ closed h₃. absurd (cc h₃))

  -- The call before the mount, if it is made.
  read_only_step :
      (a : AccessType) (read_only : Bool) (device_path : String) (w : O.State) {w' : O.State}
      → (if is_block a && read_only then set_device_read_only O device_path else pure tt) w
        ≡ (ok tt, w')
      → Prepared device_path a read_only
  read_only_step block true device_path w h = set_device_read_only-MadeReadOnly device_path w h
  read_only_step block false device_path w h = tt
  read_only_step (mount m) read_only device_path w h = tt
  read_only_step no_access_type read_only device_path w h = tt

  publish_mount-Mounted :
      (req : PublishRequest) (volume_id device_path : String) (access_type : AccessType)
      (w : O.State) {w' : O.State}
      → publish_mount O req volume_id device_path access_type w ≡ (ok tt, w')
      → Mounted req device_path access_type w'
  unfolding publish_mount mount_to_target
  publish_mount-Mounted req volume_id device_path access_type w {w'} h =
      let asked = is_block access_type && req.read_only in
      >>=-ok_elim (if asked then set_device_read_only O device_path else pure tt) _ w h
        λ u w₁ e₁ h₁.
          >>=-ok_elim
            (or_else (create_mount_point O req.target_path (is_block access_type))
              (create_failed req volume_id))
            _ w₁ h₁
            λ v w₂ e₂ h₂.
              let source = mount_source device_path req.staging_target_path access_type in
              or_else-ok_elim
                (mount_to_target O source req.target_path (mount_type access_type)
                  (mount_options access_type req.read_only))
                (mount_failed req source access_type) w₂ h₂
                λ e. (
                  read_only_step access_type req.read_only device_path w e₁,
                  source,
                  with_default_type (mount_type access_type),
                  mount_options access_type req.read_only,
                  w₂,
                  mount-Asked req device_path access_type,
                  e,
                )

  -- The volume was found mounted on the target.
  abbrev pub WasMounted : PublishRequest → String → Type 0
  WasMounted req device_path =
      (w : O.State) × (w' : O.State) × (is_shared_mounted O req.target_path device_path w
        ≡ (ok true, w'))

  publish_device-Mounted :
      (req : PublishRequest) (volume_id device_path : String) (access_type : AccessType)
      (w : O.State) {w' : O.State}
      → publish_device O req volume_id device_path access_type w ≡ (ok tt, w')
      → WasMounted req device_path ⊎ Mounted req device_path access_type w'
  unfolding publish_device
  publish_device-Mounted req volume_id device_path access_type w {w'} h =
      let mounted = is_shared_mounted O req.target_path device_path in
      >>=-ok_elim (or_else mounted (check_failed req volume_id)) _ w h λ b w₁ e₁ h₁.
        or_else-ok_elim mounted (check_failed req volume_id) w e₁ λ e. elim (Bool-cases b) [
          | inl there ↦ inl (w, w₁, e ∙ ap (λ t. (ok t, w₁)) there)
          | inr absent ↦
              inr (publish_mount-Mounted req volume_id device_path access_type w₁ (rw absent at h₁))
        ]

  -- When NodePublishVolume succeeds, the request has a capability that the driver supports, the
  -- device is the one that GetDevicePath has found for the request's volume, under its name below
  -- /dev/disk/by-id, and it was found mounted on the target, or else the last call was the bind mount
  -- on the target: of the staging path, or of the device for a block volume, with the type and the
  -- flags of the request, ext4 where it gives no type, and with "ro" if the request is read-only; a
  -- block device was set read-only before, if the request is.
  pub node_publish_volume-mounts :
      (parse_uuid : String → Result String) (req : PublishRequest) (w : O.State) {w' : O.State}
      → node_publish_volume O parse_uuid req w ≡ (ok tt, w')
      → (c : VolumeCapability) × (device_path : String) × (req.volume_capability ≡ some c)
        × (validate_volume_capability (some c) ≡ ok tt)
        × DeviceOf O parse_uuid req.volume_id device_path
        × (WasMounted req device_path ⊎ Mounted req device_path c.access_type w')
  unfolding node_publish_volume
  node_publish_volume-mounts parse_uuid req w {w'} h =
      lift-ok_elim (get_exoscale_id parse_uuid req.volume_id) _ w h λ x read h₁.
        >>=-ok_elim (require_path invalid_argument "targetPath not provided" req.target_path) _ w h₁
          λ u w₁ target h₂.
            lift-ok_elim
              (required_capability "volumeCapability not provided" capability_refused
                req.volume_capability)
              _ w₁ h₂
              λ c capable h₃.
                >>=-ok_elim
                  (require_path failed_precondition "stagingTargetPath not provided"
                    req.staging_target_path)
                  _ w₁ h₃
                  λ v w₂ staging h₄.
                    >>=-ok_elim (or_else (get_device_path O x.1) (device_missing x.1)) _ w₂ h₄
                      λ device_path w₃ device h₅.
                        let (e, valid) =
                          required_capability-eq_ok "volumeCapability not provided"
                            capability_refused req.volume_capability capable in
                        (
                          c,
                          device_path,
                          e,
                          subst (λ o. validate_volume_capability o ≡ ok tt) e valid,
                          or_else-ok_elim (get_device_path O x.1) (device_missing x.1) w₂ device
                              (λ got. found_device O parse_uuid req.volume_id x w₂ w₃ read got),
                          publish_device-Mounted req x.1 device_path c.access_type w₃ h₅,
                        )
