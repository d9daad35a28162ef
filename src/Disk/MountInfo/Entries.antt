-- ===== src/Disk/MountInfo/Entries.antt =====
-- What the fields of a line of the table say, by proc_pid_mountinfo(5).
use mathlib.Core.Option.{some-injective}
use mathlib.Core.Path.{ap₂}
use exoscale_csi_driver.Base.{
  ◌≤◌, String, ◌≡◌, refl, sym, subst, ap, ◌∙◌, ◌≢◌, inl, inr, Option, none, some, List, [], ◌∷◌,
  ◌++◌, arith, str_eq, str_eq_iff, Bool-cases, str_eq-false, ne_of_str_eq-false, length,
  length-append, split, and_then, ℤ, ok-injective, and_then-eq_ok, ok, errorf, no_args, text_arg,
  err, Result,
}
use exoscale_csi_driver.Base.Decimal.{atoi}
use exoscale_csi_driver.Disk.MountInfo.{
  MountInfo, entry_of_fields, mount_point_field, split_optional, with_super_fields, parse_int,
}

abbrev pub NoDash : List String → Type 0
NoDash [] = Unit
NoDash (field ∷ rest) = (field ≢ "-") × NoDash rest

-- The fields of an entry that is mounted at the path.
pub record IsEntry (target_path : String) (fs : List String) (info : MountInfo) : Type 0 where
  pub f₀ : String
  pub f₁ : String
  pub f₅ : String
  pub super : String
  pub tail : List String
  pub id_read : atoi f₀ ≡ some info.id
  pub parent_read : atoi f₁ ≡ some info.parent_id
  pub no_dash : NoDash info.optional_fields
  pub mounted_at : info.mount_point ≡ target_path
  pub mount_options_read : info.mount_options ≡ split b',' f₅
  pub super_options_read : info.super_options ≡ split b',' super
  pub in_order :
      fs
      ≡ f₀
        ∷ f₁
        ∷ info.major_minor
        ∷ info.root
        ∷ info.mount_point
        ∷ f₅
        ∷ (info.optional_fields ++ "-" ∷ info.fs_type ∷ info.source ∷ super ∷ tail)

split_optional-eq :
    (rest optional after : List String)
    → split_optional rest ≡ (optional, some after)
    → (rest ≡ optional ++ "-" ∷ after) × NoDash optional
unfolding split_optional
split_optional-eq [] optional after h = absurd (cc h)
split_optional-eq (field ∷ rest) optional after h =
    let (before, behind) = split_optional rest in
    elim (Bool-cases (str_eq field "-")) [
      | inl dash ↦
          let e = rw dash at h in
          let ends : rest ≡ after = some-injective rest after (ap (λ p. p.1) e) in
          subst (λ o. (field ∷ rest ≡ o ++ "-" ∷ after) × NoDash o) (ap (λ p. p.0) e)
            (ap (λ f. f ∷ rest) ((str_eq_iff field "-").0 dash) ∙ ap (λ r. "-" ∷ r) ends, tt)
      | inr other ↦
          let e = rw other at h in
          let (splits, clean) =
            split_optional-eq rest before after (ap (λ t. (before, t)) (ap (λ p. p.1) e)) in
          subst (λ o. (field ∷ rest ≡ o ++ "-" ∷ after) × NoDash o) (ap (λ p. p.0) e)
            (ap (λ r. field ∷ r) splits, (ne_of_str_eq-false field "-" other, clean))
    ]

split_optional-append :
    (optional after : List String)
    → NoDash optional
    → split_optional (optional ++ "-" ∷ after) ≡ (optional, some after)
unfolding split_optional
split_optional-append [] after clean = refl
split_optional-append (field ∷ rest) after (ne, clean) =
    rw (str_eq-false field "-" ne, split_optional-append rest after clean)

parse_int-eq_ok : (s : String) {n : ℤ} → parse_int s ≡ ok n → atoi s ≡ some n
parse_int-eq_ok s {n} h = go (atoi s) h
  where
    go :
        (o : Option ℤ)
        → (elim o as (λ _. Result ℤ) [
          | none ↦ err (errorf "strconv.Atoi: parsing %q" (text_arg s no_args))
          | some k ↦ ok k
        ])
          ≡ ok n
        → o ≡ some n
    go none e = absurd (cc e)
    go (some k) e = ap some (ok-injective e)

pub fifth_field :
    {target_path : String} (fs : List String)
    → 10 ≤ length fs
    → mount_point_field fs ≢ target_path
    → (f₀ : String) × (f₁ : String) × (f₂ : String) × (f₃ : String) × (mount_point : String)
      × (rest : List String) × (fs ≡ f₀ ∷ f₁ ∷ f₂ ∷ f₃ ∷ mount_point ∷ rest)
      × (mount_point ≢ target_path)
unfolding mount_point_field
fifth_field (f₀ ∷ f₁ ∷ f₂ ∷ f₃ ∷ f₄ ∷ rest) long ne = (f₀, f₁, f₂, f₃, f₄, rest, refl, ne)
fifth_field (f₀ ∷ f₁ ∷ f₂ ∷ f₃ ∷ []) long ne = absurd (omega (arith, long))
fifth_field (f₀ ∷ f₁ ∷ f₂ ∷ []) long ne = absurd (omega (arith, long))
fifth_field (f₀ ∷ f₁ ∷ []) long ne = absurd (omega (arith, long))
fifth_field (f₀ ∷ []) long ne = absurd (omega (arith, long))
fifth_field [] long ne = absurd (omega (arith, long))

-- The entry before its last three fields are read.
abbrev begun : ℤ → ℤ → String → String → String → String → List String → MountInfo
begun id parent_id f₂ f₃ f₄ f₅ optional = record {
  id = id;
  parent_id = parent_id;
  major_minor = f₂;
  root = f₃;
  source = "";
  mount_point = f₄;
  optional_fields = optional;
  fs_type = "";
  mount_options = split b',' f₅;
  super_options = [];
}

super-IsEntry :
    (line target_path f₀ f₁ f₂ f₃ f₄ f₅ : String) (rest : List String) (id parent_id : ℤ)
    (optional : List String) (after : Option (List String)) {info : MountInfo}
    → f₄ ≡ target_path
    → atoi f₀ ≡ some id
    → atoi f₁ ≡ some parent_id
    → split_optional rest ≡ (optional, after)
    → with_super_fields line (begun id parent_id f₂ f₃ f₄ f₅ optional) after ≡ ok info
    → IsEntry target_path (f₀ ∷ f₁ ∷ f₂ ∷ f₃ ∷ f₄ ∷ f₅ ∷ rest) info
unfolding with_super_fields
super-IsEntry line target_path f₀ f₁ f₂ f₃ f₄ f₅ rest id parent_id optional none here e₀ e₁ s k =
    absurd (cc k)
super-IsEntry line target_path f₀ f₁ f₂ f₃ f₄ f₅ rest id parent_id optional (some []) here e₀ e₁ s
      k =
    absurd (cc k)
super-IsEntry line target_path f₀ f₁ f₂ f₃ f₄ f₅ rest id parent_id optional (some (a ∷ [])) here e₀
      e₁ s k =
    absurd (cc k)
super-IsEntry line target_path f₀ f₁ f₂ f₃ f₄ f₅ rest id parent_id optional (some (a ∷ b ∷ [])) here
      e₀ e₁ s k =
    absurd (cc k)
super-IsEntry line target_path f₀ f₁ f₂ f₃ f₄ f₅ rest id parent_id optional
      (some (fs_type ∷ source ∷ super ∷ tail)) here e₀ e₁ s k =
    let (splits, clean) = split_optional-eq rest optional (fs_type ∷ source ∷ super ∷ tail) s in
    subst (IsEntry target_path (f₀ ∷ f₁ ∷ f₂ ∷ f₃ ∷ f₄ ∷ f₅ ∷ rest)) (ok-injective k) (record {
      f₀ = f₀;
      f₁ = f₁;
      f₅ = f₅;
      super = super;
      tail = tail;
      id_read = e₀;
      parent_read = e₁;
      no_dash = clean;
      mounted_at = here;
      mount_options_read = refl;
      super_options_read = refl;
      in_order = ap (λ r. f₀ ∷ f₁ ∷ f₂ ∷ f₃ ∷ f₄ ∷ f₅ ∷ r) splits;
    })

pub entry_of_fields-IsEntry :
    (line target_path : String) (fs : List String) {info : MountInfo}
    → mount_point_field fs ≡ target_path
    → entry_of_fields line fs ≡ ok info
    → IsEntry target_path fs info
unfolding entry_of_fields mount_point_field
entry_of_fields-IsEntry line target_path (f₀ ∷ f₁ ∷ f₂ ∷ f₃ ∷ f₄ ∷ f₅ ∷ rest) here h =
    let (id, e₀, h₁) = and_then-eq_ok (parse_int f₀) _ h in
    let (parent_id, e₁, h₂) = and_then-eq_ok (parse_int f₁) _ h₁ in
    super-IsEntry line target_path f₀ f₁ f₂ f₃ f₄ f₅ rest id parent_id (split_optional rest).0
      (split_optional rest).1 here (parse_int-eq_ok f₀ e₀) (parse_int-eq_ok f₁ e₁) refl h₂
entry_of_fields-IsEntry line target_path (f₀ ∷ f₁ ∷ f₂ ∷ f₃ ∷ f₄ ∷ []) here h = absurd (cc h)
entry_of_fields-IsEntry line target_path (f₀ ∷ f₁ ∷ f₂ ∷ f₃ ∷ []) here h = absurd (cc h)
entry_of_fields-IsEntry line target_path (f₀ ∷ f₁ ∷ f₂ ∷ []) here h = absurd (cc h)
entry_of_fields-IsEntry line target_path (f₀ ∷ f₁ ∷ []) here h = absurd (cc h)
entry_of_fields-IsEntry line target_path (f₀ ∷ []) here h = absurd (cc h)
entry_of_fields-IsEntry line target_path [] here h = absurd (cc h)

of_atoi : (s : String) {n : ℤ} → atoi s ≡ some n → parse_int s ≡ ok n
of_atoi s e = rw (e, parse_int) refl

-- The two numbers are read one after the other.
entry_of_fields-eq :
    (line f₀ f₁ f₂ f₃ f₄ f₅ : String) (rest : List String) {id parent_id : ℤ}
    → parse_int f₀ ≡ ok id
    → parse_int f₁ ≡ ok parent_id
    → entry_of_fields line (f₀ ∷ f₁ ∷ f₂ ∷ f₃ ∷ f₄ ∷ f₅ ∷ rest)
      ≡ with_super_fields line
          (begun id parent_id f₂ f₃ f₄ f₅ (split_optional rest).0)
          (split_optional rest).1
unfolding entry_of_fields
entry_of_fields-eq line f₀ f₁ f₂ f₃ f₄ f₅ rest {id} {parent_id} e₀ e₁ =
    let read = λ (i p : ℤ).
      with_super_fields line (begun i p f₂ f₃ f₄ f₅ (split_optional rest).0)
        (split_optional rest).1 in
    ap (λ r. and_then r (λ i. and_then (parse_int f₁) (λ p. read i p))) e₀
    ∙ ap (λ r. and_then r (λ p. read id p)) e₁

module _ {target_path : String} {fs : List String} {info : MountInfo} where
  pub IsEntry-long : IsEntry target_path fs info → 10 ≤ length fs
  IsEntry-long e = rw e.in_order (
      omega (
        arith,
        length-append info.optional_fields ("-" ∷ info.fs_type ∷ info.source ∷ e.super ∷ e.tail),
      ))

  pub IsEntry-mount_point : IsEntry target_path fs info → mount_point_field fs ≡ target_path
  unfolding mount_point_field
  IsEntry-mount_point e = ap mount_point_field e.in_order ∙ e.mounted_at

  pub IsEntry-entry_of_fields :
      (line : String) → IsEntry target_path fs info → entry_of_fields line fs ≡ ok info
  unfolding with_super_fields
  IsEntry-entry_of_fields line e =
      let behind = info.fs_type ∷ info.source ∷ e.super ∷ e.tail in
      let base = begun info.id info.parent_id info.major_minor info.root info.mount_point e.f₅ in
      ap (entry_of_fields line) e.in_order
      ∙ entry_of_fields-eq line e.f₀ e.f₁ info.major_minor info.root info.mount_point e.f₅
          (info.optional_fields ++ "-" ∷ behind) (of_atoi e.f₀ e.id_read)
          (of_atoi e.f₁ e.parent_read)
      ∙ ap (λ t. with_super_fields line (base t.0) t.1)
          (split_optional-append info.optional_fields behind e.no_dash)
      ∙ ap₂ (λ m o. ok (record info { mount_options = m; super_options = o }))
          (sym e.mount_options_read) (sym e.super_options_read)
