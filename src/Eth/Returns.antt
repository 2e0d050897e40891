-- ===== src/Eth/Returns.antt =====
-- That `Simulate` and `HandleOps` of bundler/src/eth/main.go return, with a usable configuration.
use pay_gas_x.Base.{
  ◌≡◌, inl, inr, ◌++◌, List, [], ◌∷◌, Option, none, some, Text, text, Result, ok, err, Result-cases,
  done, arith,
}
use pay_gas_x.Base.Int.{ℤ}
use pay_gas_x.Geth.{Geth, TransactOpts}
use pay_gas_x.Host.{State}
use pay_gas_x.Abi.Types.{UserOperation, Value, user_op, user_ops, address}
use pay_gas_x.Abi.EntryPoint.{EntryPoint, new_entry_point}
use pay_gas_x.Abi.EntryPoint.Transactor
use pay_gas_x.Config.Types.{Config}
use pay_gas_x.Config.Getters.{get_bundler_address}
use pay_gas_x.Config.Init.Usable.{IsUsable}
use pay_gas_x.Eth.{
  simulate, simulate_on, simulated, simulate_signer, simulate_opts, adjust_opts, handle_ops,
  handle_ops_on, send_ops, sent,
}

-- A signer that does not panic.
abbrev pub SignerReturns : (g : Geth) → TransactOpts g.Address g.Transaction → Type 0
SignerReturns g opts =
    (a : g.Address) (tx : g.Transaction) → (r : Result g.Transaction) × (opts.signer a tx ≡ done r)

-- `Transact` returns a transaction or an error where the signer returns, and the signer that
-- `NewKeyedTransactorWithChainID` makes returns.
pub record TransactReturns (g : Geth) : Type 0 where
  pub returns :
      (c : g.BoundContract) (opts : TransactOpts g.Address g.Transaction) (method : Text)
      (params : List (Value g.Address)) (n : g.Node)
      → SignerReturns g opts
      → (r : Result g.Transaction) × ((g.transact c opts method params n).0 ≡ done r)
  pub keyed_signer_returns :
      (sk : g.PrivateKey) (id : ℤ) (opts : TransactOpts g.Address g.Transaction)
      → g.new_keyed_transactor_with_chain_id sk id ≡ ok opts
      → SignerReturns g opts

module _ (g : Geth) (law : TransactReturns g) where
  simulate_opts-SignerReturns :
      (c : Option Config) (u : IsUsable g c) (signer : g.Signer)
      → SignerReturns g (simulate_opts g c signer)
  unfolding simulate_opts simulate_signer
  simulate_opts-SignerReturns c u signer a tx =
      let (sk, e) = u.key_parses in
      elim (Result-cases (g.sign (g.signer_hash signer tx) sk)) [
        | inl (sig, f) ↦ (g.with_signature tx signer sig, ground arith)
        | inr (m, f) ↦ (err m, ground arith)
      ]

  simulate_on_returns :
      (entrypoint : EntryPoint g.BoundContract) (op : UserOperation g.Address) (s : State g)
      → IsUsable g s.config
      → (r : Option Text) × ((simulate_on g entrypoint op s).0 ≡ done r)
  unfolding simulate_on simulated Transactor.simulate_validation
  simulate_on_returns entrypoint op s u =
      let (id, e) = u.chain_id_parses in
      let opts = simulate_opts g s.config (g.latest_signer_for_chain_id id) in
      let (r, f) =
        law.returns entrypoint.transactor.contract opts (text "simulateValidation")
          (user_op op ∷ []) s.node
          (simulate_opts-SignerReturns s.config u (g.latest_signer_for_chain_id id)) in
      elim (Result-cases r) [
        | inl (tx, k) ↦ (none, ground arith)
        | inr (m, k) ↦ (some m, ground arith)
      ]

  -- `Simulate` returns.
  pub simulate_returns :
      (op : UserOperation g.Address) (s : State g)
      → IsUsable g s.config
      → (r : Option Text) × ((simulate g op s).0 ≡ done r)
  unfolding simulate
  simulate_returns op s u =
      let (contract, e) = u.has_entrypoint in
      elim (Result-cases (new_entry_point g contract (some s.client))) [
        | inl (entrypoint, f) ↦
            let (r, k) = simulate_on_returns entrypoint op s u in (r, ground arith)
        | inr (m, f) ↦ (some m, ground arith)
      ]

  send_ops_returns :
      (entrypoint : EntryPoint g.BoundContract) (opts : TransactOpts g.Address g.Transaction)
      (ops : List (UserOperation g.Address)) (s : State g)
      → IsUsable g s.config
      → SignerReturns g opts
      → (r : Result Text) × ((send_ops g entrypoint opts ops s).0 ≡ done r)
  unfolding send_ops Transactor.handle_ops get_bundler_address
  send_ops_returns entrypoint opts ops s u signs =
      let (sk, e) = u.key_parses in
      let (r, f) =
        law.returns entrypoint.transactor.contract opts (text "handleOps")
          (user_ops ops ∷ address (g.pubkey_to_address sk) ∷ []) s.node signs in
      (sent g r, ground arith)

  handle_ops_on_returns :
      (entrypoint : EntryPoint g.BoundContract) (ops : List (UserOperation g.Address)) (s : State g)
      → IsUsable g s.config
      → (r : Result Text) × ((handle_ops_on g entrypoint ops s).0 ≡ done r)
  unfolding handle_ops_on adjust_opts
  handle_ops_on_returns entrypoint ops s u =
      let (sk, e) = u.key_parses in
      let (id, f) = u.chain_id_parses in
      elim (Result-cases (g.new_keyed_transactor_with_chain_id sk id)) [
        | inl (opts, k) ↦
            let (r, q) =
              send_ops_returns entrypoint (adjust_opts g opts) ops s u
                (law.keyed_signer_returns sk id opts k) in
            (r, ground arith)
        | inr (m, k) ↦ (err (text "Failed to create transactor for bundler: " ++ m), ground arith)
      ]

  -- `HandleOps` returns.
  pub handle_ops_returns :
      (ops : List (UserOperation g.Address)) (s : State g)
      → IsUsable g s.config
      → (r : Result Text) × ((handle_ops g ops s).0 ≡ done r)
  unfolding handle_ops
  handle_ops_returns ops s u =
      let (contract, e) = u.has_entrypoint in
      elim (Result-cases (new_entry_point g contract (some s.client))) [
        | inl (entrypoint, f) ↦
            let (r, k) = handle_ops_on_returns entrypoint ops s u in (r, ground arith)
        | inr (m, f) ↦ (err m, ground arith)
      ]
