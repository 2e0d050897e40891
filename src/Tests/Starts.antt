-- ===== src/Tests/Starts.antt =====
-- Both programs start over the small chain.
use pay_gas_x.Base.{◌≡◌, refl, ◌↔◌, some, done}
use pay_gas_x.Base.Decimal.{scan_onto}
use pay_gas_x.GoLib.BigInt.{set_string, scan}
use pay_gas_x.Host.{State}
use pay_gas_x.Config.Getters.{
  get_chain_id, get_bundler, get_bundler_address, get_entrypoint_contract_address,
}
use pay_gas_x.Config.Init.{init_from_file, init_from_aws_secret}
use pay_gas_x.Config.Init.Usable.{IsUsable}
use pay_gas_x.Config.Init.Secret.{Loads, init_from_aws_secret_iff}
use pay_gas_x.Eth as Eth
use pay_gas_x.Server.{init, standalone_main}
use pay_gas_x.Server.Starts.{IsConnected, standalone_main-IsConnected, init-Loads}
use pay_gas_x.Tests.Runs.{reads_config}
use pay_gas_x.Tests.Instances.{toy, config, fresh, ready, host}

abbrev configured : State toy
configured = record fresh { config = some config }

init_from_aws_secret_iff_example :
    (init_from_aws_secret toy host fresh ≡ (done tt, configured)) ↔ Loads toy host fresh configured
init_from_aws_secret_iff_example = init_from_aws_secret_iff toy host fresh configured

abbrev started : State toy
started = (standalone_main toy host fresh).1

runs : standalone_main toy host fresh ≡ (done tt, started)
unfolding reads_config standalone_main init_from_file get_chain_id get_bundler get_bundler_address
    get_entrypoint_contract_address set_string scan scan_onto Eth.init
runs = refl

standalone_main-IsConnected_example : IsConnected toy started × IsUsable toy started.config
standalone_main-IsConnected_example =
    standalone_main-IsConnected toy host fresh started refl refl runs

init-Loads_example :
    (u : State toy) × Loads toy host fresh u × IsConnected toy ready × (ready.config ≡ u.config)
unfolding reads_config init init_from_aws_secret Eth.init
init-Loads_example = init-Loads toy host fresh ready refl refl
