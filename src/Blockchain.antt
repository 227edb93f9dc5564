-- ===== src/Blockchain.antt =====
-- src/service/blockchain.go, BlockchainService: client pools, and execution configs read from the chain.
-- A pool is an association list; a pool that is nil after Close is an empty one, which the next client makes anew.
pub mod Pools
pub mod Kept
pub mod Configs
use samanager_backend.Base.{
  ℕ, ◌≡◌, String, ◌<>◌, Bool, true, false, List, [], ◌∷◌, ◌++◌, Option, none, some, Error, failure,
  wrapped, Reply, ok, err, str_eq, ◌==◌, ◌&&◌, if◌then◌else◌,
}
use samanager_backend.Base.Int.{ℤ, pos, eq_ℤ}
use samanager_backend.Domain.Job.{EntityJob, job_type_transfer, job_type_swap}
use samanager_backend.Domain.Schedule.{ExecutionConfig}
use samanager_backend.Network.{Network}
use samanager_backend.Bundler
use samanager_backend.Bundler.{dial_context}

pub record Urls : Type 0 where
  pub sepolia : String
  pub arbitrum_sepolia : String
  pub base_sepolia : String
  pub optimism_sepolia : String
  pub polygon_amoy : String
  pub arbitrum : String
  pub base : String

-- The switch on the chain id, in GetClient and in GetBundlerURL.
unfoldable pub rpc_url : Urls → ℤ → Option String
rpc_url u chain_id =
    if eq_ℤ chain_id (pos 11155111)
    then some u.sepolia
    else if eq_ℤ chain_id (pos 421614)
    then some u.arbitrum_sepolia
    else if eq_ℤ chain_id (pos 84532)
    then some u.base_sepolia
    else if eq_ℤ chain_id (pos 11155420)
    then some u.optimism_sepolia
    else if eq_ℤ chain_id (pos 80002)
    then some u.polygon_amoy
    else if eq_ℤ chain_id (pos 42161)
    then some u.arbitrum
    else if eq_ℤ chain_id (pos 8453)
    then some u.base
    else none

abbrev scheduled_transfers_address : String
scheduled_transfers_address = "0xA8E374779aeE60413c974b484d6509c7E4DDb6bA"

abbrev scheduled_orders_address : String
scheduled_orders_address = "0x40dc90D670C89F322fa8b9f685770296428DCb6b"

unfoldable pub get_contract_address : String → Reply String
get_contract_address job_type =
    if str_eq job_type job_type_transfer
    then ok scheduled_transfers_address
    else if str_eq job_type job_type_swap
    then ok scheduled_orders_address
    else err (failure ("unsupported job type: " <> job_type))

module _ {ℓ} {V : Type ℓ} where
  unfoldable pub find_pool : ℤ → List (ℤ × V) → Option V
  find_pool id [] = none
  find_pool id ((i, v) ∷ pool) = if eq_ℤ i id then some v else find_pool id pool

module _ (n : Network) where
  -- The service with its pools, and the network.
  pub record Chains : Type 0 where
    pub urls : Urls
    pub client_pool : List (ℤ × n.EthClient)
    pub bundler_pool : List (ℤ × n.RpcClient)
    pub net : n.State

  unfoldable pub add_client : ℤ → Reply n.EthClient × n.State → Chains → Reply n.EthClient × Chains
  add_client id (err e, net) s = (err e, record s { net = net })
  add_client id (ok client, net) s =
      (ok client, record s { client_pool = (id, client) ∷ s.client_pool; net = net })

  unfoldable pub dial_client : ℤ → Option String → Chains → Reply n.EthClient × Chains
  unfolding add_client
  dial_client id none s = (err (failure "unsupported chain id"), s)
  dial_client id (some url) s = add_client id (n.dial_eth url s.net) s

  -- GetClient under the write lock, with its second look at the pool.
  unfoldable pub get_client_locked : ℤ → Chains → Reply n.EthClient × Chains
  unfolding dial_client
  get_client_locked id s = elim (find_pool id s.client_pool) [
    | some client ↦ (ok client, s)
    | none ↦ dial_client id (rpc_url s.urls id) s
  ]

  unfoldable pub get_client : ℤ → Chains → Reply n.EthClient × Chains
  get_client id s = elim (find_pool id s.client_pool) [
    | some client ↦ (ok client, s)
    | none ↦ get_client_locked id s
  ]

  abbrev rpc_client : Reply n.EthClient → Reply n.RpcClient
  rpc_client (err e) = err e
  rpc_client (ok client) = ok (n.rpc_of client)

  unfoldable pub get_rpc_client : ℤ → Chains → Reply n.RpcClient × Chains
  get_rpc_client id s = let (reply, s') = get_client id s in (rpc_client reply, s')

  close_all {ℓ} : {V : Type ℓ} → (V → n.State → n.State) → List (ℤ × V) → n.State → n.State
  close_all close [] net = net
  close_all close ((i, v) ∷ pool) net = close_all close pool (close v net)

  unfoldable pub close : Chains → Chains
  unfolding close_all
  close s = record s {
    client_pool = [];
    bundler_pool = [];
    net = close_all (Bundler.close n) s.bundler_pool (close_all n.close_eth s.client_pool s.net);
  }

  abbrev pub bundler_url : Option String → Reply String
  bundler_url none = err (failure "unsupported chain id for bundler")
  bundler_url (some url) = ok url

  unfoldable pub get_bundler_url : ℤ → Chains → Reply String
  get_bundler_url id s = bundler_url (rpc_url s.urls id)

  unfoldable pub add_bundler : ℤ → Reply n.RpcClient × n.State → Chains → Reply n.RpcClient × Chains
  add_bundler id (err e, net) s =
      (err (wrapped "failed to create bundler client for chain" e), record s { net = net })
  add_bundler id (ok bundler, net) s =
      (ok bundler, record s { bundler_pool = (id, bundler) ∷ s.bundler_pool; net = net })

  unfoldable pub dial_bundler : ℤ → Reply String → Chains → Reply n.RpcClient × Chains
  unfolding add_bundler
  dial_bundler id (err e) s = (err e, s)
  dial_bundler id (ok url) s = add_bundler id (dial_context n url s.net) s

  unfoldable pub get_bundler_client_locked : ℤ → Chains → Reply n.RpcClient × Chains
  unfolding dial_bundler
  get_bundler_client_locked id s = elim (find_pool id s.bundler_pool) [
    | some bundler ↦ (ok bundler, s)
    | none ↦ dial_bundler id (get_bundler_url id s) s
  ]

  unfoldable pub get_bundler_client : ℤ → Chains → Reply n.RpcClient × Chains
  get_bundler_client id s = elim (find_pool id s.bundler_pool) [
    | some bundler ↦ (ok bundler, s)
    | none ↦ get_bundler_client_locked id s
  ]
