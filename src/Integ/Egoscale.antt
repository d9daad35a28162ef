-- ===== src/Integ/Egoscale.antt =====
-- What the integration tests use of the Exoscale API client, github.com/exoscale/egoscale/v3, over
-- the state of the world; and internal/integ/util/util.go. A client is its endpoint.
use exoscale_csi_driver.Base.{
  String, ◌<>◌, Bool, List, [], ◌∷◌, ℤ, Result, Action, pure, lift, handle, ◌>>=◌, or_else, wrap,
  explicit_panic, panic,
}
use exoscale_csi_driver.Api.{Operation}
use exoscale_csi_driver.Integ.Text.{trim_space}

pub record SksCluster : Type 0 where
  pub id : String
  pub name : String
  -- the IDs of Nodepools
  pub nodepools : List String

pub record ApiKey : Type 0 where
  pub name : String
  pub key : String

pub record IamRole : Type 0 where
  pub id : String
  pub name : String

pub record InstanceType : Type 0 where
  pub id : String
  pub family : String
  pub size : String

pub record KubeconfigRequest : Type 0 where
  pub groups : List String
  pub ttl : ℤ
  pub user : String

pub record CreateSksClusterRequest : Type 0 where
  pub cni : String
  pub description : String
  pub name : String
  pub level : String
  pub version : String

pub record CreateSksNodepoolRequest : Type 0 where
  pub name : String
  pub disk_size : ℤ
  pub size : ℤ
  pub instance_prefix : String
  pub instance_type : InstanceType

-- v3.IAMServicePolicy of type "rules", with the action and expression of each rule.
pub record IamServicePolicy : Type 0 where
  pub type : String
  pub rules : List (String × String)

pub record CreateIamRoleRequest : Type 0 where
  pub name : String
  pub description : String
  pub editable : Bool
  pub default_service_strategy : String
  pub services : List (String × IamServicePolicy)

pub record Egoscale (W : Type 0) : Type 0 where
  -- v3.NewClient with the credentials of the environment
  pub new_client : Result String
  pub get_zone_api_endpoint : String → String → Action W String
  pub list_sks_clusters : String → Action W (List SksCluster)
  -- FindSKSCluster and FindIAMRole of the listings
  pub find_sks_cluster : List SksCluster → String → Result SksCluster
  pub find_iam_role : List IamRole → String → Result IamRole
  pub get_sks_cluster : String → String → Action W SksCluster
  pub generate_sks_cluster_kubeconfig : String → String → KubeconfigRequest → Action W String
  pub list_sks_cluster_versions : String → Action W (List String)
  pub list_instance_types : String → Action W (List InstanceType)
  pub get_instance_type : String → String → Action W InstanceType
  pub create_sks_cluster : String → CreateSksClusterRequest → Action W Operation
  pub create_sks_nodepool : String → String → CreateSksNodepoolRequest → Action W Operation
  pub delete_sks_cluster : String → String → Action W Operation
  pub delete_sks_nodepool : String → String → String → Action W Operation
  pub list_api_keys : String → Action W (List ApiKey)
  pub delete_api_key : String → String → Action W Operation
  -- the name and the role's ID; the key and the secret
  pub create_api_key : String → String → String → Action W (String × String)
  pub list_iam_roles : String → Action W (List IamRole)
  pub create_iam_role : String → CreateIamRoleRequest → Action W Operation
  pub delete_iam_role : String → String → Action W Operation
  -- Wait(ctx, op, OperationStateSuccess)
  pub wait : String → Operation → Action W Operation
  -- base64.StdEncoding.DecodeString
  pub decode_base64 : String → Result String
  -- exec.Command(...).Output
  pub output : String → List String → Action W String

abbrev pub api_key_env_var : String
api_key_env_var = "EXOSCALE_API_KEY"

abbrev pub api_secret_env_var : String
api_secret_env_var = "EXOSCALE_API_SECRET"

module _ {W : Type 0} (E : Egoscale W) where
  unfoldable pub get_repo_root_dir : Action W String
  unfolding trim_space
  get_repo_root_dir =
      handle (E.output "git" ("rev-parse" ∷ "--show-toplevel" ∷ []))
        (λ _. lift (panic explicit_panic)) (λ path. pure (trim_space path <> "/"))

  unfoldable pub create_egoscale_client : String → Action W String
  create_egoscale_client zone = do
    v3_client ← or_else (lift E.new_client) (wrap "error setting up egoscale client: %w")
    or_else (E.get_zone_api_endpoint v3_client zone)
        (wrap "error setting up egoscale client zone: %w")
