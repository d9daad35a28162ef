-- ===== src/Tests/Lab.antt =====
-- A cluster in memory, for the runs of internal/integ.
use exoscale_csi_driver.Base.{
  ℕ, ◌+◌, ◌/◌, String, ◌<>◌, true, false, Option, none, some, List, [], ◌∷◌, str_eq, ltb,
  if◌then◌else◌, pos_part, foreign_text, Error, Action, pure, fail, pos, other_cause, foreign, ok,
  err,
}
use exoscale_csi_driver.Api.{Operation}
use exoscale_csi_driver.Integ.Kubernetes.{RestConfig, Secret, Kubernetes}
use exoscale_csi_driver.Integ.Egoscale.{ApiKey, SksCluster, Egoscale}
use exoscale_csi_driver.Integ.Flags.{Flags, default_flags}
use exoscale_csi_driver.Integ.K8s.{K8s}
use exoscale_csi_driver.Integ.Cluster.{Cluster, Run}

-- The seconds since the start, the API keys, what was created and deleted, the last first, and the
-- secret.
pub record Lab : Type 0 where
  pub clock : ℕ
  pub keys : List ApiKey
  pub made : List String
  pub removed : List String
  pub secret : Option Secret

abbrev pub rest : RestConfig
rest = record { host = "sks"; qps = 1; burst = 2 }

abbrev pub operation : Operation
operation = record { id = "op"; reference = some "id-1" }

abbrev pub missing : Error
missing = foreign other_cause "not found"

abbrev pub did : (Lab → Lab) → Action Lab (Unit {0})
did f w = (ok tt, f w)

abbrev pub op_of : (Lab → Lab) → Action Lab Operation
op_of f w = (ok operation, f w)

abbrev pub without_key : String → List ApiKey → List ApiKey
without_key id [] = []
without_key id (key ∷ keys) =
    if str_eq key.key id then without_key id keys else key ∷ without_key id keys

-- A manifest is its kind; the deployment is ready after 40 seconds.
abbrev pub kubernetes : Kubernetes Lab
kubernetes = record {
  client_config_from_bytes = λ bytes. ok bytes;
  client_config = λ text. ok rest;
  new_discovery_client = λ config. ok config;
  new_client_set = λ config. ok config;
  new_dynamic_client = λ config. ok config;
  server_groups_and_resources = λ client.
      pure ((record { name = "deployments"; kind = "Deployment"; namespaced = true } ∷ []) ∷ []);
  decode = λ text. ok (
    record { group = "apps"; version = "v1" },
    record {
      kind = text;
      name = "driver";
      namespace = "kube-system";
      resource_version = "";
      rest = text;
    },
  );
  get = λ client gvr ns name. fail missing;
  create = λ client gvr ns obj. did (λ w. record w { made = gvr.resource ∷ w.made });
  update = λ client gvr ns obj. pure tt;
  delete = λ client gvr ns name. did (λ w. record w { removed = gvr.resource ∷ w.removed });
  retry_on_conflict = λ call. call;
  is_not_found = λ e. str_eq (foreign_text e) "not found";
  get_secret = λ client ns name w. (elim w.secret [ none ↦ err missing | some s ↦ ok s ], w);
  create_secret = λ client ns secret. did (λ w. record w { secret = some secret });
  update_secret = λ client ns secret. did (λ w. record w { secret = some secret });
  list_events = λ client ns. pure ([], none);
  watch_events = λ client ns. pure 1;
  receive = λ watch. pure none;
  get_deployment = λ client ns name w. (
    ok (record {
      replicas = some (pos 2);
      ready_replicas = if ltb w.clock 40 then pos 1 else pos 2;
    }),
    w,
  );
  get_daemon_set = λ client ns name.
      pure (record { desired_number_scheduled = pos 2; current_number_scheduled = pos 2 });
  list_pods = λ client ns. pure ("exoscale-csi-controller-1" ∷ "coredns" ∷ [], none);
  list_pods_with = λ client ns label. pure ("pod-1" ∷ []);
  stream_logs = λ client ns pod container. pure (record { text = "a\nb\nc"; failed = false });
  delete_pod = λ client ns name. did (λ w. record w { removed = name ∷ w.removed });
  create_namespace = λ client name. did (λ w. record w { made = name ∷ w.made });
  delete_namespace = λ client name. did (λ w. record w { removed = name ∷ w.removed });
  read_file = λ path. pure "Deployment\n---\n \n---\nUnknown";
  sleep = λ d w. record w { clock = w.clock + pos_part d / 1000000000 };
  rand_int = pure (pos 7);
  log_event = λ warning event w. w;
  print = λ text w. record w { made = text ∷ w.made };
}

abbrev pub sks_cluster : SksCluster
sks_cluster = record { id = "id-1"; name = "test"; nodepools = "pool-1" ∷ [] }

abbrev pub egoscale : Egoscale Lab
egoscale = record {
  new_client = ok "default";
  get_zone_api_endpoint = λ client zone. pure ("https://api-" <> zone);
  list_sks_clusters = λ client. pure (sks_cluster ∷ []);
  find_sks_cluster = λ clusters name. if str_eq name "test" then ok sks_cluster else err missing;
  find_iam_role = λ roles name. err missing;
  get_sks_cluster = λ client id. pure sks_cluster;
  generate_sks_cluster_kubeconfig = λ client id request. pure "config";
  list_sks_cluster_versions = λ client. pure ("1.30" ∷ []);
  list_instance_types = λ client. pure [];
  get_instance_type = λ client id. fail missing;
  create_sks_cluster = λ client request. op_of (λ w. w);
  create_sks_nodepool = λ client id request. op_of (λ w. w);
  delete_sks_cluster = λ client id. op_of (λ w. record w { removed = id ∷ w.removed });
  delete_sks_nodepool = λ client id pool. op_of (λ w. record w { removed = pool ∷ w.removed });
  list_api_keys = λ client w. (ok w.keys, w);
  delete_api_key = λ client id. op_of (λ w. record w { keys = without_key id w.keys });
  create_api_key = λ client name role w. (
    ok ("key-" <> name, "secret"),
    record w { keys = record { name = name; key = "key-" <> name } ∷ w.keys },
  );
  list_iam_roles = λ client. pure [];
  create_iam_role = λ client request. op_of (λ w. w);
  delete_iam_role = λ client id. op_of (λ w. w);
  wait = λ client op. pure op;
  decode_base64 = λ text. ok text;
  output = λ command args. pure "/repo\n";
}

abbrev pub key_name : String
key_name = "csi-integ-test-key-test"

abbrev pub lab : Lab
lab = record {
  clock = 0;
  keys =
      record { name = key_name; key = "k1" }
      ∷ record { name = "other"; key = "k2" }
      ∷ record { name = key_name; key = "k3" }
      ∷ [];
  made = [];
  removed = [];
  secret = none;
}

abbrev pub flags : Flags
flags = record default_flags { cluster_name = "test"; create_csi_secret = true }

abbrev pub k8s : K8s
k8s = record {
  discovery_client = rest;
  client_set = rest;
  dynamic_client = rest;
  resource_list =
      (record { name = "deployments"; kind = "Deployment"; namespaced = true } ∷ []) ∷ [];
  watched_namespaces = [];
}

abbrev pub cluster : Cluster
cluster = record {
  name = "test";
  id = "id-1";
  k8s = some k8s;
  ego = "https://api-ch-gva-2";
  api_key_name = key_name;
  api_role_name = key_name <> "-role";
}

abbrev pub run_start : Run Lab
run_start = record {
  cluster = cluster;
  flags = record { values = flags; command_line = flags; validated = true };
  goroutines = [];
  world = lab;
}
