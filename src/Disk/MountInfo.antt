-- ===== src/Disk/MountInfo.antt =====
-- The parser of /proc/self/mountinfo in `GetMountInfo`.
pub mod Entries
pub mod Lookup
use exoscale_csi_driver.Base.{
  ℕ, ltb, ℤ, pos, negsuc, not, String, str_eq, split, fields, Option, none, some, List, [], ◌∷◌,
  length, if◌then◌else◌, errorf, no_args, text_arg, number_arg, Error, Result, ok, err, and_then,
}
use exoscale_csi_driver.Base.Decimal.{atoi}

pub record MountInfo : Type 0 where
  pub id : ℤ
  pub parent_id : ℤ
  pub major_minor : String
  pub root : String
  pub source : String
  pub mount_point : String
  pub optional_fields : List String
  pub fs_type : String
  pub mount_options : List String
  pub super_options : List String

abbrev pub expected_at_least_num_fields_per_mount_info : ℕ
expected_at_least_num_fields_per_mount_info = 10

-- The fields before the first "-", and those after it, if there is one.
unfoldable pub split_optional : List String → List String × Option (List String)
split_optional [] = ([], none)
split_optional (field ∷ rest) =
    let (before, after) = split_optional rest in
    if str_eq field "-" then ([], some rest) else (field ∷ before, after)

-- `strconv.Atoi`
abbrev pub parse_int : String → Result ℤ
parse_int s = elim (atoi s) [
  | none ↦ err (errorf "strconv.Atoi: parsing %q" (text_arg s no_args))
  | some n ↦ ok n
]

abbrev expect_3_fields : String → ℤ → Error
expect_3_fields line got =
    errorf "expect 3 fields in %s, got %d" (text_arg line (number_arg got no_args))

-- The last three fields. Without a "-" the index is past the end, and the count is -1.
with_super_fields : String → MountInfo → Option (List String) → Result MountInfo
with_super_fields line info none = err (expect_3_fields line (negsuc 0))
with_super_fields line info (some (fs_type ∷ source ∷ super_options ∷ _)) =
    ok
      (record info { fs_type = fs_type; source = source; super_options = split b',' super_options })
with_super_fields line info (some rest) = err (expect_3_fields line (pos (length rest)))

-- The entry of a line with these fields; there are at least ten.
unfoldable pub entry_of_fields : String → List String → Result MountInfo
unfolding split_optional with_super_fields atoi split
entry_of_fields line (f₀ ∷ f₁ ∷ f₂ ∷ f₃ ∷ f₄ ∷ f₅ ∷ rest) = and_then (parse_int f₀) λ id.
    and_then (parse_int f₁) λ parent_id.
      let (optional, after) = split_optional rest in
      with_super_fields line
        (record {
          id = id;
          parent_id = parent_id;
          major_minor = f₂;
          root = f₃;
          source = "";
          mount_point = f₄;
          optional_fields = optional;
          fs_type = "";
          mount_options = split b',' f₅;
          super_options = [];
        })
        after
entry_of_fields line _ = err (errorf "wrong number of fields" no_args)

-- `fields[4]`
unfoldable pub mount_point_field : List String → String
mount_point_field (_ ∷ _ ∷ _ ∷ _ ∷ f₄ ∷ _) = f₄
mount_point_field _ = ""

wrong_number_of_fields : String → List String → Error
wrong_number_of_fields line fs =
    errorf "wrong number of fields in (expected at least %d, got %d): %s" (
      number_arg (pos expected_at_least_num_fields_per_mount_info)
        (number_arg (pos (length fs)) (text_arg line no_args)))

-- The loop over the lines: the first entry that is mounted at the path, `none` if there is none.
unfoldable pub find_entry : String → List String → Result (Option MountInfo)
unfolding entry_of_fields mount_point_field wrong_number_of_fields fields
find_entry target_path [] = ok none
find_entry target_path (line ∷ lines) =
    let rest = find_entry target_path lines in
    if str_eq line ""
    then rest
    else if ltb (length (fields line)) expected_at_least_num_fields_per_mount_info
    then err (wrong_number_of_fields line (fields line))
    else if not (str_eq (mount_point_field (fields line)) target_path)
    then rest
    else and_then (entry_of_fields line (fields line)) (λ info. ok (some info))

unfoldable pub parse_mount_info : String → String → Result (Option MountInfo)
unfolding find_entry
parse_mount_info target_path content = find_entry target_path (split b'\n' content)
