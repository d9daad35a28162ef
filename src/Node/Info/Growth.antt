-- ===== src/Node/Info/Growth.antt =====
-- What NodeExpandVolume has done when it succeeds.
use exoscale_csi_driver.Base.{
  String, ◌≡◌, sym, subst, inl, inr, Bool, true, false, ◌||◌, Option, none, some, List, [], ◌∷◌,
  str_eq, str_eq_iff, Bool-cases, Result, or_else, >>=-ok_elim, or_else-ok_elim, lift-ok_elim,
  invalid_argument, ok, ap, ◌∙◌, ◌⊎◌, refl, status, no_args, error_arg, err, panic, ok-injective,
  if◌then◌else◌,
}
use exoscale_csi_driver.Csi.{AccessType, no_access_type, block, mount, VolumeCapability}
use exoscale_csi_driver.Helpers.{get_exoscale_id, validate_volume_capability}
use exoscale_csi_driver.Node.Devices.{DeviceOf, found_device}
use exoscale_csi_driver.Node.Publishing.{is_block}
use exoscale_csi_driver.Os.{Os}
use exoscale_csi_driver.Disk.MountInfo.{MountInfo}
use exoscale_csi_driver.Disk.Utils.{
  get_device_path, is_block_device, get_mount_info, resize, resize_mounted, resize_type, run_tool,
}
use exoscale_csi_driver.Node.{require_path}
use exoscale_csi_driver.Node.Staging.{stat_failed}
use exoscale_csi_driver.Node.Info.{
  ExpandRequest, expands_block, expand_file_system, node_expand_volume, expand_device_failed,
  resize_failed,
}

-- The tool that grows a file system of the type, and its arguments.
pub data Tool (path device : String) : String → String → List String → Type 0 where
  ext3 : Tool path device "ext3" "resize2fs" (device ∷ [])
  ext4 : Tool path device "ext4" "resize2fs" (device ∷ [])
  xfs : Tool path device "xfs" "xfs_growfs" ("-d" ∷ path ∷ [])
  btrfs : Tool path device "btrfs" "btrfs" ("filesystem" ∷ "resize" ∷ "-max" ∷ path ∷ [])

module _ (O : Os) where
  -- A tool for the type was found, and the call that ended in the state ran it.
  abbrev pub Grew : String → String → String → O.State → O.State → Type 0
  Grew path device fs_type w w' =
      (tool : String) × (args : List String) × (tool_path : String) × (w₁ : O.State) × Tool path
        device fs_type tool args
      × (O.look_path tool w ≡ (ok tool_path, w₁))
      × (O.run tool_path args w₁ ≡ (ok tt, w'))

  run_tool-Grew :
      (path device fs_type tool : String) (args : List String) (w : O.State) {w' : O.State}
      → Tool path device fs_type tool args
      → run_tool O tool args w ≡ (ok tt, w')
      → Grew path device fs_type w w'
  unfolding run_tool
  run_tool-Grew path device fs_type tool args w {w'} t h =
      >>=-ok_elim (O.look_path tool) _ w h
        λ tool_path w₁ looked ran. (tool, args, tool_path, w₁, t, looked, ran)

  extended :
      (path device fs_type : String)
      → (str_eq fs_type "ext3" || str_eq fs_type "ext4") ≡ true
      → Tool path device fs_type "resize2fs" (device ∷ [])
  extended path device fs_type h = elim (Bool-cases (str_eq fs_type "ext3")) [
    | inl e ↦
        subst (λ t. Tool path device t "resize2fs" (device ∷ []))
          (sym ((str_eq_iff fs_type "ext3").0 e)) ext3
    | inr other ↦
        subst (λ t. Tool path device t "resize2fs" (device ∷ []))
          (sym ((str_eq_iff fs_type "ext4").0 (rw other at h))) ext4
  ]

  resize_type-Grew :
      (path device fs_type : String) (w : O.State) {w' : O.State}
      → resize_type O path device fs_type w ≡ (ok tt, w')
      → Grew path device fs_type w w'
  unfolding resize_type
  resize_type-Grew path device fs_type w {w'} h =
      elim (Bool-cases (str_eq fs_type "ext3" || str_eq fs_type "ext4")) [
        | inl e ↦
            run_tool-Grew path device fs_type "resize2fs" (device ∷ []) w
              (extended path device fs_type e) (rw e at h)
        | inr n ↦ elim (Bool-cases (str_eq fs_type "xfs")) [
          | inl e ↦
              run_tool-Grew path device fs_type "xfs_growfs" ("-d" ∷ path ∷ []) w
                (subst (λ t. Tool path device t "xfs_growfs" ("-d" ∷ path ∷ []))
                  (sym ((str_eq_iff fs_type "xfs").0 e)) xfs)
                (rw (n, e) at h)
          | inr n' ↦ elim (Bool-cases (str_eq fs_type "btrfs")) [
            | inl e ↦
                let args = "filesystem" ∷ "resize" ∷ "-max" ∷ path ∷ [] in
                run_tool-Grew path device fs_type "btrfs" args w
                  (subst (λ t. Tool path device t "btrfs" args)
                    (sym ((str_eq_iff fs_type "btrfs").0 e)) btrfs)
                  (rw (n, n', e) at h)
            | inr n'' ↦ absurd (cc (rw (n, n', n'') at h))
          ]
        ]
      ]

  -- What an expansion that succeeded and ended in the state has done: nothing for a block volume,
  -- else the tool has run for the type that the mount table gives for the path.
  pub data Expanded (req : ExpandRequest) (device : String) : O.State → Type 0 where
    -- The path is a block device.
    by_path :
        (w₁ w : O.State)
        → is_block_device O req.volume_path w₁ ≡ (ok true, w)
        → Expanded req device w
    -- The capability asks for a block volume.
    by_capability :
        (c : VolumeCapability) (w : O.State)
        → req.volume_capability ≡ some c
        → c.access_type ≡ block
        → Expanded req device w
    grown :
        (info : MountInfo) (w₀ w₁ w₂ w : O.State)
        → is_block_device O req.volume_path w₀ ≡ (ok false, w₁)
        → get_mount_info O req.volume_path w₁ ≡ (ok (some info), w₂)
        → Grew req.volume_path device info.fs_type w₂ w
        → Expanded req device w

  resize-Expanded :
      (req : ExpandRequest) (device : String) (w₀ w : O.State) {w' : O.State}
      → is_block_device O req.volume_path w₀ ≡ (ok false, w)
      → resize O req.volume_path device w ≡ (ok tt, w')
      → Expanded req device w'
  unfolding resize resize_mounted
  resize-Expanded req device w₀ w {w'} file h =
      >>=-ok_elim (get_mount_info O req.volume_path) _ w h λ o w₁ e k. go o w₁ e k
    where
      go :
          (o : Option MountInfo) (w₁ : O.State)
          → get_mount_info O req.volume_path w ≡ (ok o, w₁)
          → resize_mounted O req.volume_path device o w₁ ≡ (ok tt, w')
          → Expanded req device w'
      go none w₁ e k = absurd (cc k)
      go (some info) w₁ e k =
          grown info w₀ w w₁ w' file e (resize_type-Grew req.volume_path device info.fs_type w₁ k)

  is_block-eq : (a : AccessType) → is_block a ≡ true → a ≡ block
  is_block-eq no_access_type h = absurd (cc h)
  is_block-eq block h = refl
  is_block-eq (mount m) h = absurd (cc h)

  supported-eq_ok :
      (c : VolumeCapability) (r : Result (Unit {0})) (path_is_block : Bool) {b : Bool}
      → (elim r as (λ _. Result Bool) [
        | ok _ ↦ ok (if is_block c.access_type then true else path_is_block)
        | err e ↦
            err (status invalid_argument "volumeCapability not supported: %s" (error_arg e no_args))
        | panic p ↦ panic p
      ])
        ≡ ok b
      → (if is_block c.access_type then true else path_is_block) ≡ b
  supported-eq_ok c (ok u) path_is_block h = ok-injective h
  supported-eq_ok c (err e) path_is_block h = absurd (cc h)
  supported-eq_ok c (panic p) path_is_block h = absurd (cc h)

  -- The test of the path decides, unless the capability asks for a block volume.
  expands_block-eq_ok :
      (path_is_block : Bool) (o : Option VolumeCapability) {b : Bool}
      → expands_block path_is_block o ≡ ok b
      → ((c : VolumeCapability) × (o ≡ some c) × (c.access_type ≡ block) × (b ≡ true))
        ⊎ (path_is_block ≡ b)
  unfolding expands_block
  expands_block-eq_ok path_is_block none h = inr (ok-injective h)
  expands_block-eq_ok path_is_block (some c) h =
      let decided = supported-eq_ok c (validate_volume_capability (some c)) path_is_block h in
      elim (Bool-cases (is_block c.access_type)) [
        | inl asked ↦ inl (c, refl, is_block-eq c.access_type asked, sym (rw asked at decided))
        | inr other ↦ inr (rw other at decided)
      ]

  -- When NodeExpandVolume succeeds, GetDevicePath has found the device of the request's volume, and
  -- the path is a block device, or the capability asks for a block volume, or the path is no block
  -- device, the mount table has an entry for it, and the last call was that of the tool for the
  -- entry's type: resize2fs on the device for ext3 and ext4, xfs_growfs or btrfs on the path for xfs
  -- and btrfs.
  pub node_expand_volume-Expanded :
      (parse_uuid : String → Result String) (req : ExpandRequest) (w : O.State) {w' : O.State}
      → node_expand_volume O parse_uuid req w ≡ (ok tt, w')
      → (device : String) × DeviceOf O parse_uuid req.volume_id device × Expanded req device w'
  unfolding node_expand_volume expand_file_system
  node_expand_volume-Expanded parse_uuid req w {w'} h =
      lift-ok_elim (get_exoscale_id parse_uuid req.volume_id) _ w h λ x read h₁.
        >>=-ok_elim (require_path invalid_argument "volumePath not provided" req.volume_path) _ w h₁
          λ u w₁ path h₂.
            >>=-ok_elim (or_else (get_device_path O x.1) (expand_device_failed x.1)) _ w₁ h₂
              λ device w₂ found h₃.
                >>=-ok_elim (or_else (is_block_device O req.volume_path) (stat_failed device)) _ w₂
                  h₃
                  λ b w₃ stat h₄.
                    lift-ok_elim (expands_block b req.volume_capability) _ w₃ h₄ λ k decided h₅.
                      or_else-ok_elim (get_device_path O x.1) (expand_device_failed x.1) w₁ found
                        λ e.
                          or_else-ok_elim (is_block_device O req.volume_path) (stat_failed device)
                            w₂ stat
                            λ tested. (
                              device,
                              found_device O parse_uuid req.volume_id x w₁ w₂ read e,
                              go x.1 device k w₂ w₃
                                  (elim (expands_block-eq_ok b req.volume_capability decided) [
                                    | inl asked ↦ inl asked
                                    | inr same ↦ inr (tested ∙ ap (λ t. (ok t, w₃)) same)
                                  ])
                                  h₅,
                            )
    where
      go :
          (volume_id device : String) (k : Bool) (w₂ w₃ : O.State)
          → ((c : VolumeCapability) × (req.volume_capability ≡ some c)
              × (c.access_type ≡ block)
              × (k ≡ true))
            ⊎ (is_block_device O req.volume_path w₂ ≡ (ok k, w₃))
          → expand_file_system O parse_uuid k volume_id req.volume_path device w₃ ≡ (ok tt, w')
          → Expanded req device w'
      go volume_id device true w₂ w₃ (inl (c, given, is_block, e)) h =
          by_capability c w' given is_block
      go volume_id device true w₂ w₃ (inr tested) h =
          by_path w₂ w' (tested ∙ ap (λ t. (ok true, t)) (ap (λ p. p.1) h))
      go volume_id device false w₂ w₃ (inl (c, given, is_block, e)) h = absurd (cc e)
      go volume_id device false w₂ w₃ (inr tested) h =
          or_else-ok_elim (resize O req.volume_path device)
            (resize_failed volume_id req.volume_path) w₃ h
            (λ e. resize-Expanded req device w₂ w₃ tested e)
