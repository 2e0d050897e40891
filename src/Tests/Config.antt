-- ===== src/Tests/Config.antt =====
-- The configuration and the connection of a process that starts.
use pay_gas_x.Base.{◌≡◌, refl, none, some, text, done}
use pay_gas_x.Base.Int.{pos}
use pay_gas_x.Base.Decimal.{scan_onto}
use pay_gas_x.GoLib.BigInt.{set_string, scan}
use pay_gas_x.Host.{State}
use pay_gas_x.Config.Getters.{
  get_chain_id, get_bundler, get_bundler_address, get_entrypoint_contract_address,
}
use pay_gas_x.Config.Init.{init_from_file}
use pay_gas_x.Config.Init.Usable.{IsUsable}
use pay_gas_x.Eth.{init}
use pay_gas_x.Tests.Instances.{toy, config, fresh, ready, host}
use pay_gas_x.Tests.Runs.{reads_config}

starts : (init_from_file toy host (text "config.json") fresh).0 ≡ done tt
unfolding reads_config init_from_file get_chain_id get_bundler get_bundler_address
    get_entrypoint_contract_address set_string scan scan_onto
starts = refl

pub usable : IsUsable toy (some config)
unfolding get_chain_id get_bundler get_entrypoint_contract_address set_string scan scan_onto
usable = record {
  chain_id_parses = (pos 80001, refl);
  key_parses = (text "k", refl);
  has_entrypoint = (text "0xe", refl);
}

abbrev unconnected : State toy
unconnected = record ready { client = none }

connects : (init toy unconnected).0 ≡ done tt
unfolding init
connects = refl
