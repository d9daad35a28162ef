-- ===== src/Controller/Expand/Bounds.antt =====
-- The sizes that ControllerExpandVolume asks the API for.
use exoscale_csi_driver.Base.{
  ℕ, ◌*◌, ◌/◌, ◌≤◌, String, ◌≡◌, sym, ap, ◌∙◌, ◌⊎◌, inl, inr, Option, none, some, arith, Bool-cases,
  ◌≤ℤ◌, ◌<ℤ◌, eqb_ℤ, mod_ℤ, wrap64, ℤ, ok-injective, Error, Result, or_else, >>=-ok_elim,
  lift-ok_elim, pos, negsuc, ok, err, panic,
}
use exoscale_csi_driver.Csi.{CapacityRange}
use exoscale_csi_driver.Helpers.{
  gib, get_new_volume_size, get_exoscale_id, convert_bytes_to_gib, convert_gib_to_bytes,
}
use exoscale_csi_driver.Helpers.Gib.{exact, div_ℤ-pos, mod_ℤ-pos}
use exoscale_csi_driver.Helpers.VolumeSize.{Accepts, chosen_size, new_volume_size_iff}
use exoscale_csi_driver.Api.{Api, Operation}
use exoscale_csi_driver.Controller.{ControllerService, new_client_zone}
use exoscale_csi_driver.Controller.Attachment.{volume_not_found}
use exoscale_csi_driver.Controller.Expand.{
  ExpandRequest, ExpandResponse, map_error, invalid_range, node_expansion, whole_gib,
  controller_expand_volume,
}

-- The size lies in the range, of which a bound that is not positive is no bound.
abbrev pub InRange : Option CapacityRange → ℤ → Type 0
InRange none n = Unit {0}
InRange (some r) n = (r.required_bytes ≤ℤ n) × ((r.limit_bytes ≤ℤ pos 0) ⊎ (n ≤ℤ r.limit_bytes))

-- A size that is picked is positive, at most 10000 GiB, and in the range.
chosen_size-InRange :
    (r : CapacityRange)
    → Accepts r
    → (pos 0 <ℤ chosen_size r)
      × (chosen_size r ≤ℤ pos 10737418240000)
      × InRange (some r) (chosen_size r)
chosen_size-InRange r h = ground arith

get_new_volume_size-InRange :
    (o : Option CapacityRange) (n : ℤ)
    → get_new_volume_size o ≡ ok n
    → (pos 0 <ℤ n) × (n ≤ℤ pos 10737418240000) × InRange o n
unfolding get_new_volume_size convert_gib_to_bytes wrap64
get_new_volume_size-InRange none n e = ground arith
get_new_volume_size-InRange (some r) n e =
    let (accepts, chosen) = (new_volume_size_iff r n).0 e in
    rw chosen (chosen_size-InRange r accepts)

-- A number of whole GiB, and the bytes that it stands for.
abbrev pub IsWhole : ℤ → ℤ → Type 0
IsWhole size n = (k : ℕ) × (size ≡ pos k) × (n ≡ pos (k * 1073741824)) × (1 ≤ k) × (k ≤ 10000)

whole_gib-IsWhole :
    (n size : ℤ) → whole_gib n ≡ ok size → pos 0 <ℤ n → n ≤ℤ pos 10737418240000 → IsWhole size n
unfolding whole_gib convert_bytes_to_gib
whole_gib-IsWhole (negsuc n) size e l u = absurd (omega arith)
whole_gib-IsWhole (pos n) size e l u = elim (Bool-cases (eqb_ℤ (mod_ℤ (pos n) gib) (pos 0))) [
  | inl whole ↦
      let sized : size ≡ pos (n / 1073741824) = sym (ok-injective (rw whole at e)) ∙ div_ℤ-pos n in
      let h = exact n (mod_ℤ-pos n whole) in
      (n / 1073741824, sized, ap pos (sym h), omega arith, omega arith)
  | inr part ↦ absurd (cc (rw part at e))
]

map_error-eq_ok :
    {A : Type 0} (f : Error → Error) (r : Result A) {a : A} → map_error f r ≡ ok a → r ≡ ok a
map_error-eq_ok f (ok a) h = h
map_error-eq_ok f (err e) h = absurd (cc h)
map_error-eq_ok f (panic p) h = absurd (cc h)

-- A call of the API that asked for the size, and that ended in the state.
abbrev pub Resized : (A : Api) → ℤ → A.State → Type 0
Resized A size w' =
    (client : String) × (id : String) × (op : Operation) × (w : A.State)
    × (A.resize_block_storage_volume client id size w ≡ (ok op, w'))

-- When ControllerExpandVolume succeeds, the capacity in its answer is a whole number of GiB, from
-- 1 to 10000, lies in the range of the request, and the last call was one to the API that asked for exactly this number.
pub controller_expand_volume-bounds :
    (A : Api) (d : ControllerService) (req : ExpandRequest) (w : A.State) {resp : ExpandResponse}
    {w' : A.State}
    → controller_expand_volume A d req w ≡ (ok resp, w')
    → (size : ℤ) × IsWhole size resp.capacity_bytes
      × InRange req.capacity_range resp.capacity_bytes
      × Resized A size w'
controller_expand_volume-bounds A d req w {resp} {w'} h =
    unfold controller_expand_volume in
    lift-ok_elim (get_exoscale_id A.parse_uuid req.volume_id) _ w h λ x read h₁.
      >>=-ok_elim (new_client_zone A d.client x.0) _ w h₁ λ client w₁ led h₂.
        >>=-ok_elim (or_else (A.get_block_storage_volume client x.1) (volume_not_found x.1)) _ w₁ h₂
          λ v w₂ found h₃. lift-ok_elim (node_expansion req.volume_capability) _ w₂ h₃ λ b node h₄.
            lift-ok_elim (map_error invalid_range (get_new_volume_size req.capacity_range)) _ w₂ h₄
              λ n picked h₅. lift-ok_elim (whole_gib n) _ w₂ h₅ λ size whole h₆.
                >>=-ok_elim (A.resize_block_storage_volume client x.1 size) _ w₂ h₆
                  λ op w₃ resized e.
                    let (l, u, within) = get_new_volume_size-InRange req.capacity_range n (
                      map_error-eq_ok invalid_range (get_new_volume_size req.capacity_range)
                        picked) in
                    let answer : n ≡ resp.capacity_bytes =
                      ap (λ (t : ExpandResponse). t.capacity_bytes)
                        (ok-injective (ap (λ p. p.0) e)) in
                    (
                      size,
                      rw (← answer) (whole_gib-IsWhole n size whole l u),
                      rw (← answer) within,
                      (client, x.1, op, w₂, resized ∙ ap (λ t. (ok op, t)) (ap (λ p. p.1) e)),
                    )
