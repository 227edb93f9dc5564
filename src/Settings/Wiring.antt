-- ===== src/Settings/Wiring.antt =====
-- How the parts are put together: NewBlockchainService of src/service/blockchain.go, with the configuration that
-- src/app/app.go gives it, and the health check.
use samanager_backend.Base.{String, []}
use samanager_backend.Network.{Network}
use samanager_backend.Blockchain.{Urls, Chains}
use samanager_backend.Http.Responses.{Response, respond_with_success}
use samanager_backend.Settings.Config.{AppConfig}

-- `service.BlockchainConfig`
abbrev pub blockchain_config : AppConfig → Urls
blockchain_config c = record {
  sepolia = c.sepolia_rpc_url;
  arbitrum_sepolia = c.arbitrum_sepolia_rpc_url;
  base_sepolia = c.base_sepolia_rpc_url;
  optimism_sepolia = c.optimism_sepolia_rpc_url;
  polygon_amoy = c.polygon_amoy_rpc_url;
  arbitrum = c.arbitrum_rpc_url;
  base = c.base_rpc_url;
}

unfoldable pub new_blockchain_service : (n : Network) → Urls → n.State → Chains n
new_blockchain_service n urls net = record {
  urls = urls;
  client_pool = [];
  bundler_pool = [];
  net = net;
}

-- HandleHealthCheck, src/handler/healthcheck.go: an object with its one field.
unfoldable pub handle_health_check : Response (String × String)
handle_health_check = respond_with_success ("status", "healthy")
