-- ===== src/Helpers/VolumeSize.antt =====
-- What `getNewVolumeSize` accepts, and the size that it picks.
use exoscale_csi_driver.Base.{
  ℤ, pos, ◌≤ℤ◌, ◌<ℤ◌, ltb_ℤ, wrap64, ◌≡◌, ◌⊎◌, ◌↔◌, sym, ap, ◌∙◌, ok-injective, arith, some, ok,
  if◌then◌else◌,
}
use exoscale_csi_driver.Csi.{CapacityRange}
use exoscale_csi_driver.Helpers.{new_volume_size_in, get_new_volume_size}

-- The range leaves room for a size: one that gives no positive bound does, one that gives a
-- single bound does if that bound is a size the driver offers, and one that gives both does if the bounds are in
-- order, the upper one is at least 1 GiB and the lower one at most 10000 GiB.
abbrev pub Accepts : CapacityRange → Type 0
Accepts r =
    ((r.required_bytes ≤ℤ pos 0) × (r.limit_bytes ≤ℤ pos 0))
    ⊎ ((pos 0 <ℤ r.required_bytes)
        × (r.limit_bytes ≤ℤ pos 0)
        × (pos 1073741824 ≤ℤ r.required_bytes)
        × (r.required_bytes ≤ℤ pos 10737418240000))
    ⊎ ((r.required_bytes ≤ℤ pos 0)
        × (pos 1073741824 ≤ℤ r.limit_bytes)
        × (r.limit_bytes ≤ℤ pos 10737418240000))
    ⊎ ((pos 0 <ℤ r.required_bytes)
        × (r.required_bytes ≤ℤ r.limit_bytes)
        × (pos 1073741824 ≤ℤ r.limit_bytes)
        × (r.required_bytes ≤ℤ pos 10737418240000))

-- The size for a range that is accepted: the lower bound, else the upper bound, else 1 GiB.
abbrev pub chosen_size : CapacityRange → ℤ
chosen_size r =
    if ltb_ℤ (pos 0) r.required_bytes
    then r.required_bytes
    else if ltb_ℤ (pos 0) r.limit_bytes
    then r.limit_bytes
    else pos 1073741824

accepted : (r : CapacityRange) → Accepts r → new_volume_size_in r ≡ ok (chosen_size r)
unfolding new_volume_size_in wrap64
accepted r h = ground arith

accepts : (r : CapacityRange) (n : ℤ) → new_volume_size_in r ≡ ok n → Accepts r
unfolding new_volume_size_in wrap64
accepts r n h = ground arith

-- A size is picked exactly for the ranges that leave room for one, and it is the lower bound if
-- there is a positive one, else the upper bound if there is a positive one, else 1 GiB.
pub new_volume_size_iff :
    (r : CapacityRange) (n : ℤ)
    → (get_new_volume_size (some r) ≡ ok n) ↔ (Accepts r × (n ≡ chosen_size r))
unfolding get_new_volume_size
new_volume_size_iff r n = (
  λ e. (accepts r n e, ok-injective (sym e ∙ accepted r (accepts r n e))),
  λ h. accepted r h.0 ∙ ap ok (sym h.1),
)
