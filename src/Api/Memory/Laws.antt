-- ===== src/Api/Memory/Laws.antt =====
-- The service in memory meets the laws.
use exoscale_csi_driver.Base.{
  String, ◌≡◌, refl, sym, ap, ◌∙◌, inl, inr, true, Option, none, some, List, [], ◌∷◌, arith, str_eq,
  Option-cases, ◌≤ℤ◌, find?, contains, is_not_found, foreign_text, Error, Result, pure, pos,
  other_cause, foreign, ok, err,
}
use mathlib.Core.List.{append-nil}
use exoscale_csi_driver.Base.Decimal.{itoa}
use exoscale_csi_driver.Api.{BlockStorageVolume, Operation, CreateRequest}
use exoscale_csi_driver.Api.Laws.{by_id, Found, Adds, Service, IsOff, says_detached}
use exoscale_csi_driver.Api.Memory.{
  Memory, missing, on_instance, update, remove, found, add, drop_volume, attach_volume, detach_from,
  detach_volume, memory_api,
}

by_id-remove : (id : String) (vs : List BlockStorageVolume) → by_id id (remove id vs) ≡ none
unfolding remove find?
by_id-remove id [] = refl
by_id-remove id (v ∷ vs) = ground (arith, by_id-remove id vs)

by_id-update :
    (id : String) (i : Option String) (vs : List BlockStorageVolume) {v : BlockStorageVolume}
    → by_id id vs ≡ some v
    → by_id id (update id i vs) ≡ some (on_instance i v)
unfolding update find?
by_id-update id i [] h = cc
by_id-update id i (u ∷ vs) {v} h = ground (arith, by_id-update id i vs {v = v})

pub get-Found :
    (o : Option BlockStorageVolume) (w : Memory)
    → (r : Result BlockStorageVolume) × (found o w ≡ (r, w)) × Found o r
unfolding found is_not_found
get-Found none w = (err missing, refl, (missing, refl, refl))
get-Found (some v) w = (ok v, refl, refl)

pub add-Adds :
    (req : CreateRequest) (op op' : Operation) (w w₁ w₂ : Memory)
    → add req w ≡ (ok op, w₁)
    → pure op w₁ ≡ (ok op', w₂)
    → (v : BlockStorageVolume) × (op'.reference ≡ some v.id)
      × (v.name ≡ req.name)
      × (pos 1 ≤ℤ req.size → v.size ≡ req.size)
      × Adds v w.volumes w₂.volumes
unfolding add
add-Adds req op op' w w₁ w₂ h k = (
  record {
    id = itoa (pos w.next);
    name = req.name;
    size = req.size;
    instance_id = none;
    block_storage_snapshots = [];
  },
  ground arith,
  refl,
  λ _. refl,
  (w.volumes, [], sym (append-nil w.volumes), ground arith),
)

pub delete-none :
    (id : String) (o : Option BlockStorageVolume) (op op' : Operation) (w w₁ w₂ : Memory)
    → drop_volume id o w ≡ (ok op, w₁)
    → pure op w₁ ≡ (ok op', w₂)
    → by_id id w₂.volumes ≡ none
unfolding drop_volume
delete-none id none op op' w w₁ w₂ h k = cc
delete-none id (some v) op op' w w₁ w₂ h k =
    let e : w₂.volumes ≡ remove id w.volumes = ground arith in rw e (by_id-remove id w.volumes)

pub attach-some :
    (id instance : String) (o : Option BlockStorageVolume) (op op' : Operation)
    (v : BlockStorageVolume) (w w₁ w₂ : Memory)
    → by_id id w.volumes ≡ some v
    → attach_volume id instance o w ≡ (ok op, w₁)
    → pure op w₁ ≡ (ok op', w₂)
    → by_id id w₂.volumes ≡ some (on_instance (some instance) v)
unfolding attach_volume
attach-some id instance none op op' v w w₁ w₂ at h k = cc
attach-some id instance (some u) op op' v w w₁ w₂ at h k =
    let e : w₂.volumes ≡ update id (some instance) w.volumes = ground arith in
    rw e (by_id-update id (some instance) w.volumes at)

detach-none :
    (id : String) (i : Option String) (op op' : Operation) (v : BlockStorageVolume)
    (w w₁ w₂ : Memory)
    → by_id id w.volumes ≡ some v
    → detach_from id i w ≡ (ok op, w₁)
    → pure op w₁ ≡ (ok op', w₂)
    → by_id id w₂.volumes ≡ some (on_instance none v)
unfolding detach_from
detach-none id none op op' v w w₁ w₂ at h k = cc
detach-none id (some i) op op' v w w₁ w₂ at h k =
    let e : w₂.volumes ≡ update id none w.volumes = ground arith in
    rw e (by_id-update id none w.volumes at)

pub detach-IsOff :
    (id : String) (o : Option BlockStorageVolume) (op op' : Operation) (w w₁ w₂ : Memory)
    → by_id id w.volumes ≡ o
    → detach_volume id o w ≡ (ok op, w₁)
    → pure op w₁ ≡ (ok op', w₂)
    → IsOff id w₂.volumes
unfolding detach_volume
detach-IsOff id none op op' w w₁ w₂ at h k = cc
detach-IsOff id (some v) op op' w w₁ w₂ at h k =
    inr (on_instance none v, detach-none id v.instance_id op op' v w w₁ w₂ at h k, refl)

pub refused-IsOff :
    (id : String) (o : Option BlockStorageVolume) (e : Error) (w w₁ : Memory)
    → by_id id w.volumes ≡ o
    → detach_volume id o w ≡ (err e, w₁)
    → IsOff id w₁.volumes
unfolding detach_volume detach_from
refused-IsOff id none e w w₁ at h =
    let k : w ≡ w₁ = ap (λ p. p.1) h in inl (ap (λ (t : Memory). by_id id t.volumes) (sym k) ∙ at)
refused-IsOff id (some v) e w w₁ at h = elim (Option-cases v.instance_id) [
  | inl off ↦
      let k : w ≡ w₁ = ground arith in
      inr (v, ap (λ (t : Memory). by_id id t.volumes) (sym k) ∙ at, off)
  | inr (i, on) ↦ absurd (ground arith)
]

pub off-refused :
    (id : String) (w : Memory)
    → IsOff id w.volumes
    → (e : Error) × (detach_volume id (by_id id w.volumes) w ≡ (err e, w))
      × (says_detached e ≡ true)
unfolding detach_volume detach_from is_not_found contains foreign_text
off-refused id w (inl absent) = (missing, rw absent, refl)
off-refused id w (inr (v, there, off)) =
    (foreign other_cause "Volume not attached", rw there (rw off), refl)

pub refused-none :
    (id : String) (o : Option BlockStorageVolume) (e : Error) (w w₁ : Memory)
    → by_id id w.volumes ≡ o
    → drop_volume id o w ≡ (err e, w₁)
    → by_id id w₁.volumes ≡ none
unfolding drop_volume
refused-none id none e w w₁ at h =
    let k : w ≡ w₁ = ap (λ p. p.1) h in ap (λ (t : Memory). by_id id t.volumes) (sym k) ∙ at
refused-none id (some v) e w w₁ at h = cc

pub found-keeps : {T : Type 0} (o : Option T) (w : Memory) → (found o w).1 ≡ w
unfolding found
found-keeps none w = refl
found-keeps (some t) w = refl

unfoldable pub memory_service : Service memory_api
unfolding drop_volume detach_volume detach_from is_not_found contains foreign_text
memory_service = record {
  volumes = λ w c. w.volumes;
  endpoint = λ c z. ok z;
  get_zone_api_endpoint-eq = λ c z w. refl;
  list_block_storage_volumes-eq = λ c w. refl;
  get_block_storage_volume-eq = λ c id w. get-Found (by_id id w.volumes) w;
  get_block_storage_snapshot-keeps =
      λ c id w. found-keeps (find? (λ s. str_eq s.id id) w.snapshots) w;
  create-adds = λ c req op op' w w₁ w₂ h k. add-Adds req op op' w w₁ w₂ h k;
  delete-gone = λ c id op op' w w₁ w₂ h k. delete-none id (by_id id w.volumes) op op' w w₁ w₂ h k;
  delete-missing = λ c id w h. (missing, rw h, refl);
  attach-on = λ c id i op op' v w w₁ w₂ at h k.
      attach-some id i (by_id id w.volumes) op op' v w w₁ w₂ at h k;
  detach-off =
      λ c id op op' w w₁ w₂ h k. detach-IsOff id (by_id id w.volumes) op op' w w₁ w₂ refl h k;
  delete-404 = λ c id e w w₁ h k. refused-none id (by_id id w.volumes) e w w₁ refl h;
  detach-refused = λ c id e w w₁ h k. refused-IsOff id (by_id id w.volumes) e w w₁ refl h;
  detach-again = λ c id w off. off-refused id w off;
}
