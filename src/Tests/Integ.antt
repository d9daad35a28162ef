-- ===== src/Tests/Integ.antt =====
-- Runs of internal/integ on a cluster in memory.
use exoscale_csi_driver.Base.{
  ℕ, ltb, ◌⊎◌, ◌≢◌, Error, String, ◌+◌, ◌≤◌, ◌<◌, ◌<>◌, ◌≡◌, refl, ◌↔◌, true, false, none, some, [],
  ◌∷◌, arith, foreign_text, Action, pos, errorf, no_args, text_arg, ok, err,
}
use exoscale_csi_driver.Base.Decimal.{itoa}
use exoscale_csi_driver.Integ.Egoscale.{create_egoscale_client}
use exoscale_csi_driver.Integ.Flags.{FlagState, default_flags, validate_flags}
use exoscale_csi_driver.Integ.Flags.Once.{IsUsable, validate_flags_once}
use exoscale_csi_driver.Integ.Retry.{rounds, retry, retry_rounds, pause}
use exoscale_csi_driver.Integ.Retry.Pauses.{start, counted_trial, counted_sleep, retry_counts}
use exoscale_csi_driver.Integ.Retry.Trials.{Reaches}
use exoscale_csi_driver.Integ.K8s
use exoscale_csi_driver.Integ.K8s.{K8s, Kube, credentials}
use exoscale_csi_driver.Integ.Namespace.{Testing}
use exoscale_csi_driver.Integ.Namespace
use exoscale_csi_driver.Integ.Events.Watchers.{
  count, one_if, standing, is_behind_store, is_returned, both_watching, Reach-watched,
  both_watching-Reach,
}
use exoscale_csi_driver.Integ.Events.{load, print_events}
use exoscale_csi_driver.Integ.Events.Interleaving.{Reach}
use exoscale_csi_driver.Integ.Cluster
use exoscale_csi_driver.Integ.Cluster.{Cluster, Run, sleep_run}
use exoscale_csi_driver.Integ.Cluster.Readiness.{ReadyIn, await_deployment_readiness-ok_iff}
use exoscale_csi_driver.Integ.Cluster.Csi
use exoscale_csi_driver.Integ.Cluster.Logs.{print_logs, print_pods_logs, start_logs}
use exoscale_csi_driver.Integ.Cluster.Setup.{
  Process, setup, configure_cluster, fill_cluster, provision_sks_cluster, create_cluster,
  get_latest_sks_version, first_version, get_instance_type,
}
use exoscale_csi_driver.Integ.Cluster.TearDown
use exoscale_csi_driver.Integ.Cluster.Configured.{Configured, configure_cluster-Configured}
use exoscale_csi_driver.Tests.Lab.{
  Lab, lab, flags, k8s, cluster, run_start, kubernetes, egoscale, key_name,
}

abbrev process : Process Lab
process = record {
  test_cluster = none;
  flags = record { values = flags; command_line = flags; validated = true };
  goroutines = [];
  world = lab;
}

setup_runs :
    let after = setup kubernetes egoscale "/repo/" process in
    (after.0 ≡ ok tt)
    × (after.1.world.clock ≡ 43)
    × (after.1.world.secret ≡ some (credentials ("key-" <> key_name) "secret"))
unfolding setup configure_cluster fill_cluster create_egoscale_client Cluster.get_cluster_id
    validate_flags Cluster.get_k8s_clients Cluster.get_kubeconfig K8s.create_clients
    Cluster.await_deployment_readiness Cluster.deployment_trial Cluster.check_deployment
    Cluster.await_daemon_set_readiness Cluster.daemon_set_trial Cluster.check_daemon_set retry
    retry_rounds rounds pause Csi.apply_csi Csi.create_csi_secret Csi.delete_api_key_and_role
    Csi.delete_api_keys Csi.delete_role Cluster.await_success Cluster.await_id K8s.apply_secret
    Csi.apply_manifests K8s.apply_manifest K8s.each_doc K8s.apply_doc K8s.find_resource
    K8s.apply_object K8s.update_resource_list Csi.restart_csi_controller Csi.delete_pods
    foreign_text print_pods_logs start_logs
setup_runs = (refl, refl, refl)

configure_runs :
    configure_cluster kubernetes egoscale true "test" "ch-gva-2" process ≡ (ok cluster, process)
unfolding configure_cluster fill_cluster provision_sks_cluster create_egoscale_client
    Cluster.get_cluster Cluster.get_cluster_id validate_flags Cluster.get_k8s_clients
    Cluster.get_kubeconfig K8s.create_clients
configure_runs = refl

configure_cluster-Configured_example :
    (client : String) × (w : Lab) × (create_egoscale_client egoscale "ch-gva-2" lab
      ≡ (ok client, w))
    × Configured kubernetes egoscale "test" client cluster
configure_cluster-Configured_example =
    configure_cluster-Configured kubernetes egoscale true "test" "ch-gva-2" process configure_runs

print_logs_runs :
    (print_logs kubernetes "pod-1" (record { text = "a\nb\nc"; failed = false }) lab).1.made
    ≡ "pod-1: b\n" ∷ "pod-1: a\n" ∷ []
unfolding print_logs
print_logs_runs = refl

tear_down_csi_runs :
    let after = TearDown.tear_down_csi kubernetes egoscale "/repo/" run_start in
    (after.0 ≡ ok tt)
    × (after.1.world.keys ≡ record { name = "other"; key = "k2" } ∷ [])
    × (count "deployments" after.1.world.removed ≡ 9)
unfolding TearDown.tear_down_csi TearDown.delete_manifests K8s.delete_manifest K8s.each_doc
    K8s.delete_doc K8s.find_resource Csi.delete_api_key_and_role Csi.delete_api_keys Csi.delete_role
    Cluster.await_success Cluster.await_id
tear_down_csi_runs = (refl, refl, refl)

tear_down_cluster_runs :
    (TearDown.tear_down_cluster egoscale run_start).1.world.removed ≡ "id-1" ∷ "pool-1" ∷ []
unfolding TearDown.tear_down_cluster TearDown.delete_nodepool Cluster.get_cluster_id validate_flags
    Cluster.await_success Cluster.await_id
tear_down_cluster_runs = refl

-- A lookup that fails makes a cluster; here there is no instance type for it.
provision_runs :
    (provision_sks_cluster egoscale
      (record run_start { flags = record run_start.flags { values = default_flags } })).0
    ≡ err (
        errorf "unable to find instance type %s.%s"
          (text_arg "standard" (text_arg "medium" no_args)))
unfolding provision_sks_cluster create_cluster Cluster.get_cluster Cluster.get_cluster_id
    validate_flags get_latest_sks_version first_version get_instance_type
provision_runs = refl

abbrev test : Testing Lab
test = record {
  failed = false;
  cleanups = [];
  kube = record { k8s = k8s; goroutines = []; world = lab };
}

namespace_runs :
    let made = Namespace.create_test_namespace kubernetes false "basic" test in
    let applied = Namespace.apply kubernetes "csi-test-ns-basic-7" "Deployment" made.1 in
    let refused = Namespace.apply_pvc kubernetes "csi-test-ns-basic-7" "pvc" "1Gi" true applied.1 in
    (made.0 ≡ ok "csi-test-ns-basic-7")
    × (made.1.cleanups ≡ "csi-test-ns-basic-7" ∷ [])
    × (applied.1.kube.world.made ≡ "deployments" ∷ "csi-test-ns-basic-7" ∷ [])
    × (applied.1.failed ≡ false)
    × (refused.1.failed ≡ true)
unfolding Namespace.create_test_namespace Namespace.generate_ns_name Namespace.apply
    Namespace.apply_pvc Namespace.with_object Namespace.pvc_manifest Namespace.pvc_of
    K8s.find_resource itoa
namespace_runs = (refl, refl, refl, refl, refl)

abbrev kube : Kube Lab
kube = record { k8s = k8s; goroutines = []; world = lab }

print_events_runs : (print_events kubernetes "a" kube).1.k8s.watched_namespaces ≡ "a" ∷ []
unfolding print_events load
print_events_runs = refl

-- The first of the 20 trials that succeeds is number 2, behind 40 seconds.
abbrev later : Run Lab
later = record run_start { world = record lab { clock = 40 } }

trial_2 :
    Reaches
      (sleep_run kubernetes)
      (Cluster.deployment_trial kubernetes "d")
      (pos 20000000000)
      2
      run_start
      later
unfolding Cluster.deployment_trial Cluster.check_deployment
trial_2 = (_, _, refl, (_, _, refl, refl))

await_deployment_readiness-ok_iff_example :
    (Cluster.await_deployment_readiness kubernetes "d" run_start ≡ (ok tt, later)) ↔ (
      (k : ℕ) × (k < 20)
      × (t : Run Lab) × Reaches
          (sleep_run kubernetes)
          (Cluster.deployment_trial kubernetes "d")
          (pos 20000000000)
          k
          run_start
          t
      × ReadyIn kubernetes "d" t later)
await_deployment_readiness-ok_iff_example =
    await_deployment_readiness-ok_iff kubernetes "d" run_start

await_runs : Cluster.await_deployment_readiness kubernetes "d" run_start ≡ (ok tt, later)
await_runs =
    await_deployment_readiness-ok_iff_example.1
      (2, omega arith, later, trial_2, (_, (pos 2, refl, refl), refl))

abbrev never : Action ℕ (Unit {0})
never n = (err (errorf "not yet" no_args), n)

retry_counts_example :
    let c = retry (counted_sleep (λ d n. n + 1)) (counted_trial never) (pos 3) (pos 0) (start 0) in
    (1 ≤ c.1.trials)
    × (c.1.trials ≤ 3)
    × ((c.1.trials ≡ 3) ⊎ ((e : Error) → c.0 ≢ err e))
    × (c.1.pauses + 1 ≡ c.1.trials)
    × (c.0 ≡ (retry (λ d n. n + 1) never (pos 3) (pos 0) 0).0)
    × (c.1.inner ≡ (retry (λ d n. n + 1) never (pos 3) (pos 0) 0).1)
retry_counts_example =
    retry_counts (λ d n. n + 1) never (pos 3) (pos 0) 0 (omega arith, omega arith)

abbrev unparsed : FlagState
unparsed = record {
  values = default_flags;
  command_line = record flags { image = "csi:test"; dont_apply_csi = true };
  validated = false;
}

validate_flags_once_example :
    (((validate_flags unparsed).0 ≡ ok tt) ↔ IsUsable unparsed.command_line)
    × ((validate_flags unparsed).1.values ≡ unparsed.command_line)
    × (validate_flags (validate_flags unparsed).1 ≡ (ok tt, (validate_flags unparsed).1))
validate_flags_once_example = validate_flags_once unparsed refl

Reach-watched_example :
    (count "a" ("a" ∷ [])
      ≡ one_if (ltb 0 (standing is_behind_store "a" (both_watching "a").goroutines)))
    × ((standing is_returned "a" (both_watching "a").goroutines ≡ 0)
        ⊎ (1 ≤ standing is_behind_store "a" (both_watching "a").goroutines))
Reach-watched_example = Reach-watched "a" (both_watching-Reach "a")

both_watching-Reach_example : Reach (both_watching "kube-system")
both_watching-Reach_example = both_watching-Reach "kube-system"
