-- ===== src/Api/Memory/Snapshots.antt =====
-- The service in memory meets the laws on snapshots.
use exoscale_csi_driver.Base.{
  suc, String, ◌≡◌, refl, sym, subst, ap, ◌∙◌, Option, none, some, List, [], ◌∷◌, arith,
  str_eq_refl, str_eq-false, find?, is_not_found, ok-injective, Error, pure, pos, ok, err,
}
use exoscale_csi_driver.Base.Decimal.{itoa}
use exoscale_csi_driver.Api.{BlockStorageVolume, BlockStorageSnapshot, Operation}
use exoscale_csi_driver.Api.Laws.{by_id}
use exoscale_csi_driver.Api.Snapshots.{SnapshotLaws, CreationLaws, snapshot_by_id}
use exoscale_csi_driver.Api.Memory.{
  Memory, memory_api, missing, add_to, new_snapshot, add_snapshot, done, found, remove_snapshot,
  drop_snapshot,
}

pub snapshot_by_id-remove_snapshot :
    (id : String) (l : List BlockStorageSnapshot) → snapshot_by_id id (remove_snapshot id l) ≡ none
unfolding remove_snapshot find?
snapshot_by_id-remove_snapshot id [] = refl
snapshot_by_id-remove_snapshot id (s ∷ l) = ground (arith, snapshot_by_id-remove_snapshot id l)

pub drop_snapshot-gone :
    (id : String) (o : Option BlockStorageSnapshot) (op done : Operation) (w w₁ w₂ : Memory)
    → drop_snapshot id o w ≡ (ok op, w₁)
    → pure op w₁ ≡ (ok done, w₂)
    → snapshot_by_id id w₂.snapshots ≡ none
unfolding drop_snapshot
drop_snapshot-gone id none op done w w₁ w₂ h k = cc
drop_snapshot-gone id (some s) op done w w₁ w₂ h k =
    let e : w₂.snapshots ≡ remove_snapshot id w.snapshots = ground arith in
    rw e (snapshot_by_id-remove_snapshot id w.snapshots)

pub drop_snapshot-none :
    (id : String) (o : Option BlockStorageSnapshot) (e : Error) (w w₁ : Memory)
    → snapshot_by_id id w.snapshots ≡ o
    → drop_snapshot id o w ≡ (err e, w₁)
    → snapshot_by_id id w₁.snapshots ≡ none
unfolding drop_snapshot
drop_snapshot-none id none e w w₁ at h =
    ap (λ (t : Memory). snapshot_by_id id t.snapshots) (sym (ap (λ p. p.1) h)) ∙ at
drop_snapshot-none id (some s) e w w₁ at h = cc

unfoldable pub memory_snapshots : SnapshotLaws memory_api
unfolding drop_snapshot is_not_found
memory_snapshots = record {
  snapshots = λ w c. w.snapshots;
  delete-gone = λ c id op done w w₁ w₂ h k.
      drop_snapshot-gone id (snapshot_by_id id w.snapshots) op done w w₁ w₂ h k;
  delete-missing = λ c id w h. (missing, rw h, refl);
  delete-404 =
      λ c id e w w₁ h k. drop_snapshot-none id (snapshot_by_id id w.snapshots) e w w₁ refl h;
}

pub by_id-add_to :
    (id snapshot : String) (vs : List BlockStorageVolume) {v : BlockStorageVolume}
    → by_id id vs ≡ some v
    → by_id id (add_to v.id snapshot vs)
      ≡ some (record v { block_storage_snapshots = snapshot ∷ v.block_storage_snapshots })
unfolding add_to find?
by_id-add_to id snapshot [] h = cc
by_id-add_to id snapshot (u ∷ vs) {v} h =
    ground (arith, str_eq_refl v.id, by_id-add_to id snapshot vs {v = v})

pub found-some :
    (o : Option BlockStorageVolume) (w : Memory) {v : BlockStorageVolume}
    → found o w ≡ (ok v, w)
    → o ≡ some v
unfolding found
found-some none w h = cc
found-some (some u) w h = ap some (ok-injective (ap (λ p. p.0) h))

pub found-eq : (o : Option BlockStorageSnapshot) (w w' : Memory) → found o w' ≡ ((found o w).0, w')
unfolding found
found-eq none w w' = refl
found-eq (some t) w w' = refl

unfoldable pub memory_creation : CreationLaws memory_api
unfolding add_snapshot done found find?
memory_creation = record {
  create-adds = λ c id name v op op' w w₁ w₂ there made waited.
      let new = itoa (pos w.next) in
      let after : Memory = record w {
        next = suc w.next;
        volumes = add_to v.id new w.volumes;
        snapshots = new_snapshot new v.id name ∷ w.snapshots;
      } in
      let e : after ≡ w₂ = ap (λ p. p.1) made ∙ ap (λ p. p.1) waited in
      (
        new,
        sym (
            ap (λ (o : Operation). o.reference)
              (ok-injective (ap (λ p. p.0) made) ∙ ok-injective (ap (λ p. p.0) waited))),
        [],
        v.block_storage_snapshots,
        refl,
        subst
            (λ (t : Memory).
              memory_api.get_block_storage_volume c id t
              ≡ (ok (record v { block_storage_snapshots = new ∷ v.block_storage_snapshots }), t))
            e (rw (by_id-add_to id new w.volumes (found-some (by_id id w.volumes) w there)) refl),
        new_snapshot new v.id name,
        subst
            (λ (t : Memory).
              memory_api.get_block_storage_snapshot c new t ≡ (ok (new_snapshot new v.id name), t))
            e (rw (str_eq_refl new) refl),
        refl,
        λ old other.
            subst
              (λ (t : Memory).
                memory_api.get_block_storage_snapshot c old t
                ≡ ((memory_api.get_block_storage_snapshot c old w).0, t))
              e
              (rw (str_eq-false new old (λ same. other (sym same)))
                (found-eq (snapshot_by_id old w.snapshots) w after)),
      );
}
