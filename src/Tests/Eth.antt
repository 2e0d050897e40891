-- ===== src/Tests/Eth.antt =====
-- `Simulate` and `HandleOps` of bundler/src/eth/main.go over the small chain.
use pay_gas_x.Base.{◌≡◌, refl, List, [], ◌∷◌, Text, text, ok, done}
use pay_gas_x.Geth.{TransactOpts}
use pay_gas_x.Abi.Types.{UserOperation, user_ops, address}
use pay_gas_x.Abi.EntryPoint.{EntryPoint}
use pay_gas_x.Eth.{handle_ops}
use pay_gas_x.Eth.Sent.{SentBy, handle_ops-SentBy}
use pay_gas_x.Eth.Gas.{handle_ops_gas_limit}
use pay_gas_x.Tests.Instances.{toy, ready, operation}
use pay_gas_x.Tests.Laws.{toy-EstimatesGas}
use pay_gas_x.Tests.Runs.{sends}

abbrev batch : List (UserOperation Text)
batch = operation (2 ∷ []) ∷ []

two_sent : handle_ops toy batch ready ≡ (done (ok (text "handleOpsk")), record ready { node = 1 })
unfolding sends
two_sent = refl

handle_ops-SentBy_example : SentBy toy ready batch (text "handleOpsk") (record ready { node = 1 })
handle_ops-SentBy_example = handle_ops-SentBy toy batch ready (record ready { node = 1 }) two_sent

handle_ops_gas_limit_example :
    (entrypoint : EntryPoint Text) × (opts : TransactOpts Text Text) × (beneficiary : Text)
    × (tx : Text) × (toy.transact entrypoint.transactor.contract opts
          (text "handleOps")
          (user_ops batch ∷ address beneficiary ∷ [])
          0
        ≡ (done (ok tx), 1))
    × (text "handleOpsk" ≡ tx)
    × (opts.gas_limit ≡ 0)
handle_ops_gas_limit_example =
    handle_ops_gas_limit toy toy-EstimatesGas batch ready (record ready { node = 1 }) two_sent
