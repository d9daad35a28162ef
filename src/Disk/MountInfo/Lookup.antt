-- ===== src/Disk/MountInfo/Lookup.antt =====
-- Which line of the table GetMountInfo answers with.
use exoscale_csi_driver.Base.{
  ◌≤◌, String, ◌≡◌, refl, sym, subst, ◌≢◌, ◌↔◌, ◌⊎◌, inl, inr, Option, none, some, List, [], ◌∷◌,
  arith, str_eq, str_eq_iff, ltb, Bool-cases, str_eq-false, ne_of_str_eq-false, ltb-false, length,
  fields, ok-injective, and_then-eq_ok, ok,
}
use exoscale_csi_driver.Disk.MountInfo.Entries.{
  IsEntry, IsEntry-long, IsEntry-mount_point, IsEntry-entry_of_fields, entry_of_fields-IsEntry,
  fifth_field,
}
use exoscale_csi_driver.Disk.MountInfo.{MountInfo, entry_of_fields, mount_point_field, find_entry}

-- The loop goes past the line: it is empty, or has its ten fields, the fifth of which is another
-- mount point.
abbrev pub Skips : String → String → Type 0
Skips target_path line =
    (line ≡ "")
    ⊎ ((10 ≤ length (fields line))
        × (f₀ : String) × (f₁ : String) × (f₂ : String) × (f₃ : String) × (mount_point : String)
        × (rest : List String) × (fields line ≡ f₀ ∷ f₁ ∷ f₂ ∷ f₃ ∷ mount_point ∷ rest)
        × (mount_point ≢ target_path))

-- The loop stops at the line with an entry.
abbrev pub Yields : String → String → MountInfo → Type 0
Yields target_path line info = (line ≢ "") × IsEntry target_path (fields line) info

-- All lines are skipped, or a line yields the entry and all lines before it are skipped.
pub data Answer (target_path : String) : List String → Option MountInfo → Type 0 where
  nothing : Answer target_path [] none
  skip :
      {line : String} {lines : List String} {o : Option MountInfo}
      → Skips target_path line
      → Answer target_path lines o
      → Answer target_path (line ∷ lines) o
  stop :
      {line : String} {lines : List String} {info : MountInfo}
      → Yields target_path line info
      → Answer target_path (line ∷ lines) (some info)

find_entry-Answer :
    (target_path : String) (lines : List String) (o : Option MountInfo)
    → find_entry target_path lines ≡ ok o
    → Answer target_path lines o
unfolding find_entry
find_entry-Answer target_path [] o h = subst (λ x. Answer target_path [] x) (ok-injective h) nothing
find_entry-Answer target_path (line ∷ lines) o h = elim (Bool-cases (str_eq line "")) [
  | inl e ↦
      skip (inl ((str_eq_iff line "").0 e)) (find_entry-Answer target_path lines o (rw e at h))
  | inr ne ↦ elim (Bool-cases (ltb (length (fields line)) 10)) [
    | inl short ↦ absurd (cc (rw (ne, short) at h))
    | inr long ↦
        let ten : 10 ≤ length (fields line) = ground arith in
        elim (Bool-cases (str_eq (mount_point_field (fields line)) target_path)) [
          | inl here ↦
              let (info, yields, e) =
                and_then-eq_ok (entry_of_fields line (fields line)) (λ info. ok (some info))
                  (rw (ne, long, here) at h) in
              subst (λ x. Answer target_path (line ∷ lines) x) (ok-injective e)
                (stop (
                  ne_of_str_eq-false line "" ne,
                  entry_of_fields-IsEntry line target_path (fields line)
                      ((str_eq_iff (mount_point_field (fields line)) target_path).0 here) yields,
                ))
          | inr there ↦
              let (f₀, f₁, f₂, f₃, point, fs, e, elsewhere) =
                fifth_field (fields line) ten
                  (ne_of_str_eq-false (mount_point_field (fields line)) target_path there) in
              skip (inr (ten, f₀, f₁, f₂, f₃, point, fs, e, elsewhere))
                (find_entry-Answer target_path lines o (rw (ne, long, there) at h))
        ]
  ]
]

Answer-find_entry :
    {target_path : String} {lines : List String} {o : Option MountInfo}
    → Answer target_path lines o
    → find_entry target_path lines ≡ ok o
unfolding find_entry mount_point_field
Answer-find_entry nothing = refl
Answer-find_entry {target_path} {o = o} (skip {line} {lines} (inl e) rest) =
    rw ((str_eq_iff line "").1 e) (Answer-find_entry rest)
Answer-find_entry {target_path} {o = o}
      (skip {line} {lines} (inr (long, f₀, f₁, f₂, f₃, point, fs, e, elsewhere)) rest) =
    elim (Bool-cases (str_eq line "")) [
      | inl empty ↦ rw empty (Answer-find_entry rest)
      | inr ne ↦
          rw
            (
              ne,
              ltb-false (length (fields line)) 10 long,
              str_eq-false (mount_point_field (fields line)) target_path
                  (subst (λ k. mount_point_field k ≢ target_path) (sym e) elsewhere),
            )
            (Answer-find_entry rest)
    ]
Answer-find_entry {target_path} (stop {line} {lines} {info} (ne, is_entry)) = rw (
  str_eq-false line "" ne,
  ltb-false (length (fields line)) 10 (IsEntry-long is_entry),
  (str_eq_iff (mount_point_field (fields line)) target_path).1 (IsEntry-mount_point is_entry),
  IsEntry-entry_of_fields line is_entry,
)

-- `GetMountInfo` returns an entry, or none, and no error, exactly if every line before it is empty or
-- has ten fields with another mount point in the fifth, and the line of the entry, if there is one,
-- has the mount point in its fifth field and reads as the entry: numbers in the first two fields,
-- optional fields up to the first "-", and the type, the source and the options behind it. A line
-- before it with fewer than ten fields is an error.
pub find_entry_iff :
    (target_path : String) (lines : List String) (o : Option MountInfo)
    → (find_entry target_path lines ≡ ok o) ↔ Answer target_path lines o
find_entry_iff target_path lines o = (find_entry-Answer target_path lines o, Answer-find_entry)
