-- ===== src/Integ/Flags/Once.antt =====
-- What the first call of ValidateFlags says, and the later ones.
use exoscale_csi_driver.Base.{
  ◌≡◌, refl, ◌≢◌, ◌↔◌, ◌⊎◌, inl, inr, false, arith, str_eq, str_eq_iff, Bool-cases, str_eq-false,
  ne_of_str_eq-false, ok,
}
use exoscale_csi_driver.Integ.Flags.{Flags, FlagState, result_of, flags_error, validate_flags}

-- The cluster is named, and no image is given that would not be applied.
abbrev pub IsUsable : Flags → Type 0
IsUsable flags = (flags.cluster_name ≢ "") × ((flags.image ≡ "") ⊎ (flags.dont_apply_csi ≡ false))

IsUsable-of_result : (flags : Flags) → result_of (flags_error flags) ≡ ok tt → IsUsable flags
unfolding flags_error
IsUsable-of_result flags h = elim (Bool-cases (str_eq flags.cluster_name "")) [
  | inl unnamed ↦ absurd (ground (arith, unnamed, h))
  | inr named ↦ (ne_of_str_eq-false flags.cluster_name "" named, applied named)
]
  where
    applied :
        str_eq flags.cluster_name "" ≡ false → (flags.image ≡ "") ⊎ (flags.dont_apply_csi ≡ false)
    applied named = elim (Bool-cases (str_eq flags.image "")) [
      | inl bare ↦ inl ((str_eq_iff flags.image "").0 bare)
      | inr given ↦ elim (Bool-cases flags.dont_apply_csi) [
        | inl kept ↦ absurd (cc (rw (given, kept) at h))
        | inr apply ↦ inr apply
      ]
    ]

result-of_IsUsable : (flags : Flags) → IsUsable flags → result_of (flags_error flags) ≡ ok tt
unfolding flags_error
result-of_IsUsable flags (named, inl bare) = rw (bare, str_eq-false flags.cluster_name "" named)
result-of_IsUsable flags (named, inr apply) = elim (Bool-cases (str_eq flags.image "")) [
  | inl bare ↦ rw (bare, str_eq-false flags.cluster_name "" named)
  | inr given ↦ rw (given, apply, str_eq-false flags.cluster_name "" named)
]

-- The first call of ValidateFlags reads the command line, and returns nil exactly for flags that name
-- a cluster and do not give an image together with the flag that says not to apply the driver. Every
-- later call changes nothing and returns nil, also where the first one has returned an error.
pub validate_flags_once :
    (s : FlagState)
    → s.validated ≡ false
    → (((validate_flags s).0 ≡ ok tt) ↔ IsUsable s.command_line)
      × ((validate_flags s).1.values ≡ s.command_line)
      × (validate_flags (validate_flags s).1 ≡ (ok tt, (validate_flags s).1))
unfolding validate_flags
validate_flags_once s fresh =
    rw fresh ((IsUsable-of_result s.command_line, result-of_IsUsable s.command_line), refl, refl)
