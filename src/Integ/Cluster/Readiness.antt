-- ===== src/Integ/Cluster/Readiness.antt =====
-- When the waits of internal/integ/cluster/utils.go for a deployment succeed.
use exoscale_csi_driver.Base.{
  ℕ, ◌<◌, String, ◌≡◌, ap, ◌∙◌, ◌↔◌, inl, inr, true, some, arith, Bool-cases, Option-cases, eqb_ℤ,
  ℤ, Action, lift, >>=-ok_elim, pos, negsuc, ok,
}
use exoscale_csi_driver.Integ.Kubernetes.{Deployment, Kubernetes}
use exoscale_csi_driver.Integ.K8s.{in_world}
use exoscale_csi_driver.Integ.Retry.{rounds, pause, retry}
use exoscale_csi_driver.Integ.Retry.Trials.{Reaches, retry-ok_iff}
use exoscale_csi_driver.Integ.Cluster.{
  Run, at_k8s, csi_namespace, sleep_run, check_deployment, deployment_trial,
  await_deployment_readiness,
}

-- All replicas that are asked for are ready.
abbrev pub IsReady : Deployment → Type 0
IsReady d = (replicas : ℤ) × (d.replicas ≡ some replicas) × (d.ready_replicas ≡ replicas)

eqb_ℤ-eq : (a b : ℤ) → eqb_ℤ a b ≡ true → a ≡ b
eqb_ℤ-eq (pos a) (pos b) h = ground arith
eqb_ℤ-eq (pos a) (negsuc b) h = ground arith
eqb_ℤ-eq (negsuc a) (pos b) h = ground arith
eqb_ℤ-eq (negsuc a) (negsuc b) h = ground arith

eqb_ℤ-self : (a : ℤ) → eqb_ℤ a a ≡ true
eqb_ℤ-self a = ground arith

check_deployment-IsReady :
    (name : String) (d : Deployment) → check_deployment name d ≡ ok tt → IsReady d
unfolding check_deployment
check_deployment-IsReady name d h = elim (Option-cases d.replicas) [
  | inl nil ↦ absurd (cc (rw nil at h))
  | inr (replicas, e) ↦ elim (Bool-cases (eqb_ℤ d.ready_replicas replicas)) [
    | inl same ↦ (replicas, e, eqb_ℤ-eq d.ready_replicas replicas same)
    | inr other ↦ absurd (cc (rw (e, other) at h))
  ]
]

IsReady-check_deployment :
    (name : String) (d : Deployment) → IsReady d → check_deployment name d ≡ ok tt
unfolding check_deployment
IsReady-check_deployment name d h = rw (h.1, h.2, eqb_ℤ-self h.0)

module _ {W : Type 0} (K : Kubernetes W) (name : String) where
  abbrev pub get_deployment : Action (Run W) Deployment
  get_deployment = at_k8s (λ s. in_world (K.get_deployment s.k8s.client_set csi_namespace name) s)

  -- The deployment is read, and found ready, in this state.
  abbrev pub ReadyIn : Run W → Run W → Type 0
  ReadyIn s s' = (d : Deployment) × IsReady d × (get_deployment s ≡ (ok d, s'))

  deployment_trial-ok_iff :
      (s : Run W) {s' : Run W} → (deployment_trial K name s ≡ (ok tt, s')) ↔ ReadyIn s s'
  unfolding deployment_trial
  deployment_trial-ok_iff s {s'} = (
    λ h.
        >>=-ok_elim get_deployment (λ d. lift (check_deployment name d)) s h
          λ d s₁ read h₁. (
            d,
            check_deployment-IsReady name d (ap (λ p. p.0) h₁),
            read ∙ ap (λ t. (ok d, t)) (ap (λ p. p.1) h₁),
          ),
    λ r. rw (r.2, IsReady-check_deployment name r.0 r.1),
  )

  -- The wait for a deployment returns nil exactly when one of its 20 trials, between which it sleeps
  -- 20 seconds, finds as many replicas ready as are asked for, and all trials before have failed with
  -- an error (a deployment that is not ready, or a failed call).
  pub await_deployment_readiness-ok_iff :
      (s : Run W) {s' : Run W}
      → (await_deployment_readiness K name s ≡ (ok tt, s')) ↔ (
          (k : ℕ) × (k < 20)
          × (t : Run W) × Reaches (sleep_run K) (deployment_trial K name) (pos 20000000000) k s t
          × ReadyIn t s')
  unfolding await_deployment_readiness retry rounds pause
  await_deployment_readiness-ok_iff s {s'} =
      let succeeds =
        retry-ok_iff (sleep_run K) (deployment_trial K name) (pos 0) (pos 0) s {s' = s'} in
      (
        λ h.
            let w = succeeds.0 h in
            (w.0, omega (arith, w.1), w.2, w.3, (deployment_trial-ok_iff w.2).0 w.4),
        λ w. succeeds.1 (w.0, omega (arith, w.1), w.2, w.3, (deployment_trial-ok_iff w.2).1 w.4),
      )
