-- ===== src/Integ/Cluster/Cleanup.antt =====
-- tearDownCSI of internal/integ/cluster/teardown.go: nothing that fails keeps the rest of the
-- clean-up from being tried.
use exoscale_csi_driver.Base.{
  String, ◌≡◌, refl, Option, none, some, List, [], ◌∷◌, Error, Result, lift, wrap, ok, err, panic,
  proceed, fail,
}
use mathlib.Core.Path.{ap, ◌∙◌}
use exoscale_csi_driver.Disk.Paths.{join_path}
use exoscale_csi_driver.Integ.Flags.{result_of}
use exoscale_csi_driver.Integ.Kubernetes.{Kubernetes}
use exoscale_csi_driver.Integ.Egoscale.{Egoscale}
use exoscale_csi_driver.Integ.K8s.{delete_manifest}
use exoscale_csi_driver.Integ.Cluster.{Run, at_k8s}
use exoscale_csi_driver.Integ.Cluster.Csi.{all_manifests, manifest_dir, delete_api_key_and_role}
use exoscale_csi_driver.Integ.Cluster.TearDown.{delete_manifests, tear_down_csi}

abbrev pub NonePanics : List (Result (Unit {0})) → Type 0
NonePanics [] = Unit
NonePanics (panic p ∷ rs) = ⊥
NonePanics (ok a ∷ rs) = NonePanics rs
NonePanics (err e ∷ rs) = NonePanics rs

calm_rest :
    (r : Result (Unit {0})) (rs : List (Result (Unit {0}))) → NonePanics (r ∷ rs) → NonePanics rs
calm_rest (ok a) rs calm = calm
calm_rest (err e) rs calm = calm
calm_rest (panic p) rs calm = absurd calm

abbrev deletion_failed : Error → Error
deletion_failed = wrap "errors while deleting manifests: %w"

abbrev or_later : Error → Option Error → Error
or_later e none = e
or_later e (some later) = later

-- The last error of the results.
abbrev pub last_error : List (Result (Unit {0})) → Option Error
last_error [] = none
last_error (ok a ∷ rs) = last_error rs
last_error (err e ∷ rs) = some (or_later e (last_error rs))
last_error (panic p ∷ rs) = last_error rs

-- The error that the loop over the manifests returns, if it has started with `final_err`.
abbrev kept : Option Error → Option Error → Option Error
kept none final_err = final_err
kept (some e) final_err = some (deletion_failed e)

-- The last error of the manifests, unless the clean-up behind them has failed or panicked.
abbrev pub outcome : List (Result (Unit {0})) → Result (Unit {0}) → Result (Unit {0})
outcome rs (ok a) = result_of (kept (last_error rs) none)
outcome rs (err e) = err (wrap "errors while cleaning up CSI API key and role: %w" e)
outcome rs (panic p) = panic p

kept-or_later :
    (e : Error) (last final_err : Option Error)
    → kept last (some (deletion_failed e)) ≡ kept (some (or_later e last)) final_err
kept-or_later e none final_err = refl
kept-or_later e (some later) final_err = refl

module _ {W : Type 0} (K : Kubernetes W) (root : String) where
  -- What becomes of each manifest, when every one is tried in the state that the one before leaves.
  abbrev pub attempts : List String → Run W → List (Result (Unit {0})) × Run W
  attempts [] s = ([], s)
  attempts (path ∷ paths) s =
      let tried = at_k8s (delete_manifest K (join_path (manifest_dir root) path)) s in
      let rest = attempts paths tried.1 in (tried.0 ∷ rest.0, rest.1)

  module _ (E : Egoscale W) where
    -- The rest of the loop behind a deletion that gave `r` and left `t`.
    behind :
        (r : Result (Unit {0})) (t : Run W) (paths : List String) (final_err : Option Error)
        → NonePanics (r ∷ (attempts paths t).0)
        → ((f : Option Error)
            → delete_manifests K E root paths f t
              ≡ (ok (kept (last_error (attempts paths t).0) f), (attempts paths t).1))
        → proceed
            (λ u. delete_manifests K E root paths final_err)
            (λ e. delete_manifests K E root paths (some (deletion_failed e)))
            r
            t
          ≡ (ok (kept (last_error (r ∷ (attempts paths t).0)) final_err), (attempts paths t).1)
    behind (ok a) t paths final_err calm rest = rest final_err
    behind (err e) t paths final_err calm rest =
        rest (some (deletion_failed e))
        ∙ ap (λ x. (ok x, (attempts paths t).1))
            (kept-or_later e (last_error (attempts paths t).0) final_err)
    behind (panic p) t paths final_err calm rest = absurd calm

    delete_manifests-attempts :
        (paths : List String) (s : Run W)
        → NonePanics (attempts paths s).0
        → (final_err : Option Error)
        → delete_manifests K E root paths final_err s
          ≡ (ok (kept (last_error (attempts paths s).0) final_err), (attempts paths s).1)
    unfolding delete_manifests
    delete_manifests-attempts [] s calm final_err = refl
    delete_manifests-attempts (path ∷ paths) s calm final_err =
        let tried = at_k8s (delete_manifest K (join_path (manifest_dir root) path)) s in
        behind tried.0 tried.1 paths final_err calm (
          delete_manifests-attempts paths tried.1
            (calm_rest tried.0 (attempts paths tried.1).0 calm))

    -- When no deletion of a manifest panics: tearDownCSI tries to delete each of the manifests, in
    -- order, and then runs deleteAPIKeyAndRole, whatever has failed before. It returns the error of
    -- deleteAPIKeyAndRole, or, if that returns nil, the last error of a manifest, or nil if there is
    -- none.
    pub tear_down_csi-attempts :
        (s : Run W)
        → let tried = attempts all_manifests s in
          let cleaned = delete_api_key_and_role E tried.1 in
          NonePanics tried.0 → tear_down_csi K E root s ≡ (outcome tried.0 cleaned.0, cleaned.1)
    unfolding tear_down_csi
    tear_down_csi-attempts s calm =
        let tried = attempts all_manifests s in
        let cleaned = delete_api_key_and_role E tried.1 in
        rw (delete_manifests-attempts all_manifests s calm none) (ending cleaned.0 cleaned.1)
      where
        ending :
            (r : Result (Unit {0})) (t : Run W)
            → proceed
                (λ _. lift (result_of (kept (last_error (attempts all_manifests s).0) none)))
                (λ e. fail (wrap "errors while cleaning up CSI API key and role: %w" e))
                r
                t
              ≡ (outcome (attempts all_manifests s).0 r, t)
        ending (ok a) t = refl
        ending (err e) t = refl
        ending (panic p) t = refl
