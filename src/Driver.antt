-- ===== src/Driver.antt =====
-- driver/driver.go: NewDriver and Run, and the services that they set up.
pub mod System
pub mod Version
pub mod Modes
use exoscale_csi_driver.Base.{
  zero, suc, String, Option, none, some, List, [], ◌∷◌, str_eq, if◌then◌else◌, is_not_exist, Result,
  Action, pure, fail, lift, proceed, handle, ◌>>=◌, ◌>>◌, or_else, errorf, wrap, no_args, text_arg,
  ok, err,
}
use exoscale_csi_driver.Api.{Api}
use exoscale_csi_driver.Controller.{ControllerService}
use exoscale_csi_driver.Node.{NodeService}
use exoscale_csi_driver.Disk.Paths.{join_path, dir}
use exoscale_csi_driver.Driver.System.{Url, Service, identity, controller, node, Host}

-- `Mode`
abbrev pub controller_mode : String
controller_mode = "controller"

abbrev pub node_mode : String
node_mode = "node"

abbrev pub all_mode : String
all_mode = "all"

-- The fields that the driver reads; the credentials stand in the call that makes a client.
pub record DriverConfig : Type 0 where
  pub endpoint : String
  pub mode : String
  pub zone_endpoint : String

pub record NodeMetadata : Type 0 where
  pub zone_name : String
  pub instance_id : String

-- `none` is the zero value of an embedded service, which has no client or no node.
pub record Driver : Type 0 where
  pub controller_service : Option ControllerService
  pub node_service : Option NodeService
  pub config : DriverConfig

unfoldable pub new_controller_service : String → NodeMetadata → ControllerService
new_controller_service client node_meta = record {
  client = client;
  zone_name = node_meta.zone_name;
}

unfoldable pub new_node_service : NodeMetadata → NodeService
new_node_service meta = record { node_id = meta.instance_id; zone_name = meta.zone_name }

-- The `switch` at the end of NewDriver.
unfoldable pub with_services : DriverConfig → String → NodeMetadata → Result Driver
unfolding new_controller_service new_node_service
with_services config client meta =
    if str_eq config.mode controller_mode
    then ok (record {
      controller_service = some (new_controller_service client meta);
      node_service = none;
      config = config;
    })
    else if str_eq config.mode all_mode
    then ok (record {
      controller_service = some (new_controller_service client meta);
      node_service = some (new_node_service meta);
      config = config;
    })
    else err (errorf "unknown mode for driver: %s" (text_arg config.mode no_args))

-- The services that Run registers; the one for the identity comes first.
unfoldable pub registered : String → Result (List Service)
registered mode =
    if str_eq mode controller_mode
    then ok (identity ∷ controller ∷ [])
    else if str_eq mode node_mode
    then ok (identity ∷ node ∷ [])
    else if str_eq mode all_mode
    then ok (identity ∷ controller ∷ node ∷ [])
    else err (errorf "unknown mode for driver: %s" (text_arg mode no_args))

module _ (A : Api) (H : Host A.State) where
  unfoldable pub get_exoscale_node_metadata_from_server : Action A.State NodeMetadata
  get_exoscale_node_metadata_from_server = do
    zone ← H.metadata_get "availability-zone"
    instance_id ← H.metadata_get "instance-id"
    pure (record { zone_name = zone; instance_id = instance_id })

  unfoldable pub get_exoscale_node_metadata_from_cd_rom : Action A.State NodeMetadata
  get_exoscale_node_metadata_from_cd_rom = do
    zone ← H.metadata_from_cd_rom "availability-zone"
    instance_id ← H.metadata_from_cd_rom "instance-id"
    pure (record { zone_name = zone; instance_id = instance_id })

  -- The metadata of the CD-ROM, else those of the server.
  unfoldable pub node_metadata : Action A.State NodeMetadata
  unfolding get_exoscale_node_metadata_from_server get_exoscale_node_metadata_from_cd_rom
  node_metadata =
      handle get_exoscale_node_metadata_from_cd_rom
        (λ _. or_else get_exoscale_node_metadata_from_server (wrap "new driver get metadata: %w"))
        pure

  -- The rest of NewDriver in the modes that use the API.
  unfoldable pub with_client : DriverConfig → NodeMetadata → Action A.State Driver
  unfolding with_services
  with_client config meta = do
    client ←
        or_else
          (lift (
            H.new_client
              (if str_eq config.zone_endpoint "" then none else some config.zone_endpoint)))
          (wrap "new driver: %w")
    endpoint ← or_else (A.get_zone_api_endpoint client meta.zone_name) (wrap "new driver: %w")
    lift (with_services config endpoint meta)

  unfoldable pub new_driver : DriverConfig → Action A.State Driver
  unfolding node_metadata with_client new_node_service
  new_driver config = do
    meta ← node_metadata
    (if str_eq config.mode node_mode
        then pure (record {
          controller_service = none;
          node_service = some (new_node_service meta);
          config = config;
        })
        else with_client config meta)

  unfoldable pub remove_socket : String → Action A.State (Unit {0})
  remove_socket addr =
      handle (H.remove addr)
        (λ e. if is_not_exist e then pure tt else fail (errorf "errRemovingSocket" no_args))
        (λ _. pure tt)

  unfoldable pub require_unix : String → Action A.State (Unit {0})
  require_unix scheme =
      if str_eq scheme "unix" then pure tt else fail (errorf "errSchemeNotSupported" no_args)

  -- The directory of the socket is made if it is not there.
  unfoldable pub ensure_dir : String → Action A.State (Unit {0})
  ensure_dir path =
      handle (H.stat path) (λ e. if is_not_exist e then H.mkdir_all path 0o777 else pure tt)
        (λ _. pure tt)

  -- The stop on a signal, which only ends `Serve`, is left out.
  unfoldable pub run : Driver → Action A.State (Unit {0})
  unfolding require_unix remove_socket ensure_dir registered join_path dir
  run d = do
    url ← lift (H.parse_url d.config.endpoint)
    require_unix url.scheme
    let addr = join_path url.host url.path
    remove_socket addr
    ensure_dir (dir addr)
    listener ← H.listen url.scheme addr
    services ← lift (registered d.config.mode)
    H.serve listener services
