-- ===== src/Driver/System.antt =====
-- What the driver's start uses besides the API: the instance's metadata
-- (github.com/exoscale/egoscale/v3/metadata), net/url, os, net and the gRPC server, over the state
-- of the world. The keys of the metadata are metadata.AvailabilityZone and metadata.InstanceID.
use exoscale_csi_driver.Base.{ℕ, String, Option, List, Result, Action}

pub record Url : Type 0 where
  pub scheme : String
  pub host : String
  pub path : String

-- The services of csi.RegisterIdentityServer, RegisterControllerServer and RegisterNodeServer.
pub data Service : Type 0 where
  identity controller node : Service

pub record Host (W : Type 0) : Type 0 where
  pub metadata_from_cd_rom : String → Action W String
  pub metadata_get : String → Action W String
  -- v3.NewClient, with the endpoint of ClientOptWithEndpoint or without; a client is its endpoint
  pub new_client : Option String → Result String
  pub parse_url : String → Result Url
  pub remove : String → Action W (Unit {0})
  pub stat : String → Action W (Unit {0})
  pub mkdir_all : String → ℕ → Action W (Unit {0})
  pub listen : String → String → Action W ℕ
  pub serve : ℕ → List Service → Action W (Unit {0})
