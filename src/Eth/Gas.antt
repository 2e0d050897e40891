-- ===== src/Eth/Gas.antt =====
-- The gas limit of the transaction that `HandleOps` of bundler/src/eth/main.go sends.
use pay_gas_x.Base.{◌≡◌, List, [], ◌∷◌, Text, text, ok, done, arith}
use pay_gas_x.Base.Int.{ℤ}
use pay_gas_x.Geth.{Geth, TransactOpts}
use pay_gas_x.Host.{State}
use pay_gas_x.Abi.Types.{UserOperation, address, user_ops}
use pay_gas_x.Abi.EntryPoint.{EntryPoint}
use pay_gas_x.Eth.{adjust_opts, handle_ops}
use pay_gas_x.Eth.Sent.{handle_ops-SentBy}

-- The options of `NewKeyedTransactorWithChainID` have the gas limit 0, which asks for an estimate.
pub record EstimatesGas (g : Geth) : Type 0 where
  pub no_limit :
      (sk : g.PrivateKey) (id : ℤ) (opts : TransactOpts g.Address g.Transaction)
      → g.new_keyed_transactor_with_chain_id sk id ≡ ok opts
      → opts.gas_limit ≡ 0

module _ (g : Geth) where
  -- The doubling of the gas limit has no effect: where the transactor is made without a limit, the
  -- call of `handleOps` that gives a hash is made with the limit 0, a plain estimate.
  pub handle_ops_gas_limit :
      EstimatesGas g
      → (ops : List (UserOperation g.Address)) (s t : State g) {tx_hash : Text}
      → handle_ops g ops s ≡ (done (ok tx_hash), t)
      → (entrypoint : EntryPoint g.BoundContract) × (opts : TransactOpts g.Address g.Transaction)
        × (beneficiary : g.Address) × (tx : g.Transaction) × (g.transact
              entrypoint.transactor.contract opts
              (text "handleOps")
              (user_ops ops ∷ address beneficiary ∷ [])
              s.node
            ≡ (done (ok tx), t.node))
        × (tx_hash ≡ g.tx_hash_hex tx)
        × (opts.gas_limit ≡ 0)
  unfolding adjust_opts
  handle_ops_gas_limit law ops s t h =
      let (contract, entrypoint, a, b, (key, id, opts, c, d, e, (tx, f, k))) =
        handle_ops-SentBy g ops s t h in
      let zero_limit : opts.gas_limit ≡ 0 = law.no_limit key id opts e in
      (entrypoint, adjust_opts g opts, g.pubkey_to_address key, tx, f, k, ground arith)
