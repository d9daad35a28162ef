-- ===== src/Node/Devices.antt =====
-- The device that a request to the node is about, and the type of its file system.
use Prim.Native.String.{len, slice}
use exoscale_csi_driver.Base.{
  String, ◌<>◌, sym, ap, ◌∙◌, leb, ok-injective, lift-ok_elim, >>=-ok_elim, ◌≡◌, refl, ◌≢◌, ◌⊎◌,
  inl, inr, str_eq, str_eq_iff, Bool-cases, ne_of_str_eq-false, Result, ok,
}
use exoscale_csi_driver.Helpers.{get_exoscale_id}
use exoscale_csi_driver.Os.{Os}
use exoscale_csi_driver.Disk.Paths.{join_path}
use exoscale_csi_driver.Disk.Utils.{
  dev_disk_by_id, dev_disk_prefix, dev_disk_id_length, dev_disk_id, is_block_mode, get_device_path,
  with_default_type,
}

-- The path is the one that GetDevicePath has found for the volume that the identifier names: it is
-- named after the first 20 bytes of the volume's ID.
abbrev pub DeviceOf : (O : Os) → (String → Result String) → String → String → Type 0
DeviceOf O parse_uuid exo_id device_path =
    (zone : String) × (volume_id : String) × (w : O.State) × (w' : O.State) × (get_exoscale_id
        parse_uuid exo_id
      ≡ ok (zone, volume_id))
    × (get_device_path O volume_id w ≡ (ok device_path, w'))
    × (device_path ≡ join_path "/dev/disk/by-id" ("virtio-" <> slice volume_id 0 20))

dev_disk_id-eq_ok :
    (volume_id : String) {id : String} → dev_disk_id volume_id ≡ ok id → slice volume_id 0 20 ≡ id
unfolding dev_disk_id
dev_disk_id-eq_ok volume_id h = elim (Bool-cases (leb dev_disk_id_length (len volume_id))) [
  | inl long ↦ ok-injective (rw long at h)
  | inr short ↦ absurd (cc (rw short at h))
]

get_device_path-eq_ok :
    (O : Os) (volume_id : String) (w : O.State) {device_path : String} {w' : O.State}
    → get_device_path O volume_id w ≡ (ok device_path, w')
    → device_path ≡ join_path "/dev/disk/by-id" ("virtio-" <> slice volume_id 0 20)
unfolding get_device_path
get_device_path-eq_ok O volume_id w h = lift-ok_elim (dev_disk_id volume_id) _ w h λ id cut h₁.
    let path = join_path dev_disk_by_id (dev_disk_prefix <> id) in
    >>=-ok_elim (O.eval_symlinks path) _ w h₁ λ real w₁ resolved h₂.
      >>=-ok_elim (O.stat real) _ w₁ h₂ λ mode w₂ stat h₃. elim (Bool-cases (is_block_mode mode)) [
        | inl device ↦
            sym (ok-injective (ap (λ p. p.0) (rw device at h₃)))
            ∙ ap (λ t. join_path "/dev/disk/by-id" ("virtio-" <> t))
                (sym (dev_disk_id-eq_ok volume_id cut))
        | inr other ↦ absurd (cc (rw other at h₃))
      ]

pub found_device :
    (O : Os) (parse_uuid : String → Result String) (exo_id : String) (x : String × String)
    (w w' : O.State) {device_path : String}
    → get_exoscale_id parse_uuid exo_id ≡ ok x
    → get_device_path O x.1 w ≡ (ok device_path, w')
    → DeviceOf O parse_uuid exo_id device_path
found_device O parse_uuid exo_id x w w' read found =
    (x.0, x.1, w, w', read, found, get_device_path-eq_ok O x.1 w found)

-- The type is the one that is given, or ext4 where none is.
abbrev pub FsType : String → String → Type 0
FsType given fs_type = ((given ≡ "") × (fs_type ≡ "ext4")) ⊎ ((given ≢ "") × (fs_type ≡ given))

pub with_default_type-FsType : (given : String) → FsType given (with_default_type given)
with_default_type-FsType given = elim (Bool-cases (str_eq given "")) [
  | inl none_given ↦ inl ((str_eq_iff given "").0 none_given, rw none_given refl)
  | inr some_given ↦ inr (ne_of_str_eq-false given "" some_given, rw some_given refl)
]
