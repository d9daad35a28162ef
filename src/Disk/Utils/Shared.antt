-- ===== src/Disk/Utils/Shared.antt =====
-- When IsSharedMounted says that a device is mounted.
use exoscale_csi_driver.Base.{
  List, [], ◌∷◌, String, ◌≡◌, refl, ap, ◌≢◌, ◌↔◌, ◌⊎◌, inl, inr, true, Option, none, some, arith,
  str_eq, str_eq_iff, Bool-cases, str_eq-false, ne_of_str_eq-false, any, split, Result, lift, ◌>>=◌,
  ok, err, panic,
}
use exoscale_csi_driver.Os.{Os}
use exoscale_csi_driver.Disk.MountInfo.{MountInfo, parse_mount_info, find_entry}
use exoscale_csi_driver.Disk.MountInfo.Lookup.{Answer, find_entry_iff}
use exoscale_csi_driver.Disk.Utils.{
  proc_mount_info_max_list_tries, proc_mount_info_path, is_shared_field, first_is_shared,
  check_shared, get_mount_info, is_shared_mounted,
}

-- A field has the tag "shared", before the first colon or without one.
abbrev pub HasShared : List String → Type 0
HasShared [] = ⊥
HasShared (field ∷ rest) =
    ((behind : List String) × (split b':' field ≡ "shared" ∷ behind)) ⊎ HasShared rest

-- The entry has an optional field of the tag "shared", and its source is the device, if one is given.
abbrev pub IsShared : String → MountInfo → Type 0
IsShared device_path info =
    HasShared info.optional_fields × ((device_path ≡ "") ⊎ (info.source ≡ device_path))

first_is_shared-eq :
    (tags : List String)
    → first_is_shared tags ≡ true
    → (behind : List String) × (tags ≡ "shared" ∷ behind)
first_is_shared-eq [] h = absurd (cc h)
first_is_shared-eq (tag ∷ rest) h = (rest, ap (λ t. t ∷ rest) ((str_eq_iff tag "shared").0 h))

any-HasShared : (fs : List String) → any is_shared_field fs ≡ true → HasShared fs
unfolding any is_shared_field
any-HasShared [] h = absurd (cc h)
any-HasShared (field ∷ rest) h = elim (Bool-cases (first_is_shared (split b':' field))) [
  | inl here ↦ inl (first_is_shared-eq (split b':' field) here)
  | inr other ↦ inr (any-HasShared rest (rw other at h))
]

HasShared-any : (fs : List String) → HasShared fs → any is_shared_field fs ≡ true
unfolding any is_shared_field
HasShared-any [] h = absurd h
HasShared-any (field ∷ rest) (inl (behind, e)) = rw e refl
HasShared-any (field ∷ rest) (inr later) = elim (Bool-cases (first_is_shared (split b':' field))) [
  | inl here ↦ rw here refl
  | inr other ↦ rw other (HasShared-any rest later)
]

check_shared-IsShared :
    (device_path : String) (info : MountInfo)
    → check_shared device_path (some info) ≡ ok true
    → IsShared device_path info
unfolding check_shared
check_shared-IsShared device_path info h =
    elim (Bool-cases (any is_shared_field info.optional_fields)) [
      | inr n ↦ absurd (cc (rw n at h))
      | inl shared ↦ elim (Bool-cases (str_eq device_path "")) [
        | inl e ↦ (any-HasShared info.optional_fields shared, inl ((str_eq_iff device_path "").0 e))
        | inr given ↦ elim (Bool-cases (str_eq info.source device_path)) [
          | inl e ↦ (
            any-HasShared info.optional_fields shared,
            inr ((str_eq_iff info.source device_path).0 e),
          )
          | inr n ↦ absurd (cc (rw (shared, given, n) at h))
        ]
      ]
    ]

IsShared-check_shared :
    (device_path : String) (info : MountInfo)
    → IsShared device_path info
    → check_shared device_path (some info) ≡ ok true
unfolding check_shared
IsShared-check_shared device_path info (shared, inl e) =
    rw (HasShared-any info.optional_fields shared, (str_eq_iff device_path "").1 e)
IsShared-check_shared device_path info (shared, inr e) =
    rw (HasShared-any info.optional_fields shared, (str_eq_iff info.source device_path).1 e)
      (ground arith)

module _ (O : Os) (target_path device_path content : String) (w w₁ : O.State) where
  get_mount_info-read :
      O.consistent_read proc_mount_info_path proc_mount_info_max_list_tries w ≡ (ok content, w₁)
      → get_mount_info O target_path w ≡ (parse_mount_info target_path content, w₁)
  unfolding get_mount_info
  get_mount_info-read read = rw read

  found-Answer :
      (r : Result (Option MountInfo)) {w₂ : O.State}
      → find_entry target_path (split b'\n' content) ≡ r
      → (lift r >>= (λ o. lift (check_shared device_path o))) w₁ ≡ (ok true, w₂)
      → (info : MountInfo) × Answer target_path (split b'\n' content) (some info)
        × IsShared device_path info
  unfolding check_shared
  found-Answer (ok none) e h = absurd (cc h)
  found-Answer (ok (some info)) e h = (
    info,
    (find_entry_iff target_path (split b'\n' content) (some info)).0 e,
    check_shared-IsShared device_path info (ap (λ p. p.0) h),
  )
  found-Answer (err x) e h = absurd (cc h)
  found-Answer (panic x) e h = absurd (cc h)

  -- When the mount table is read, IsSharedMounted says yes exactly if the path is not empty and the
  -- first entry of the table for the path, with only skipped lines before it, has an optional field
  -- of the tag "shared" and, if a device is given, the device as its source.
  pub is_shared_mounted_iff :
      O.consistent_read proc_mount_info_path proc_mount_info_max_list_tries w ≡ (ok content, w₁)
      → (is_shared_mounted O target_path device_path w ≡ (ok true, w₁)) ↔ (
          (target_path ≢ "")
          × ((info : MountInfo) × Answer target_path (split b'\n' content) (some info)
              × IsShared device_path info))
  unfolding is_shared_mounted parse_mount_info
  is_shared_mounted_iff read = (
    λ h. elim (Bool-cases (str_eq target_path "")) [
      | inl empty ↦ absurd (cc (rw empty at h))
      | inr given ↦ (
        ne_of_str_eq-false target_path "" given,
        found-Answer (find_entry target_path (split b'\n' content)) refl
            (rw (given, get_mount_info-read read) at h),
      )
    ],
    λ x.
        let (given, (info, answer, shared)) = x in
        rw (
          str_eq-false target_path "" given,
          get_mount_info-read read,
          (find_entry_iff target_path (split b'\n' content) (some info)).1 answer,
          IsShared-check_shared device_path info shared,
        ),
  )
