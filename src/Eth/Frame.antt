-- ===== src/Eth/Frame.antt =====
-- What the functions of bundler/src/eth/main.go leave alone.
use pay_gas_x.Base.{
  ◌≡◌, refl, inl, inr, List, [], ◌∷◌, some, true, Text, text, Result-cases, Outcome-cases, arith,
}
use pay_gas_x.Config.Getters.{get_chain_id, get_entrypoint_contract_address}
use pay_gas_x.Geth.{Geth, TransactOpts}
use pay_gas_x.Host.{State}
use pay_gas_x.Abi.Types.{UserOperation, Value, user_op}
use pay_gas_x.Abi.EntryPoint.{EntryPoint, new_entry_point}
use pay_gas_x.Abi.EntryPoint.Transactor
use pay_gas_x.Eth.{simulate, simulate_on, simulate_opts, simulated, handle_ops}

-- `NoSend`: "do all transact steps but do not send the transaction".
pub record NoSend (g : Geth) : Type 0 where
  pub keeps_node :
      (c : g.BoundContract) (opts : TransactOpts g.Address g.Transaction) (method : Text)
      (params : List (Value g.Address)) (n : g.Node)
      → opts.no_send ≡ true
      → (g.transact c opts method params n).1 ≡ n

-- The package variables of one state are those of the other.
pub record SameGlobals {g : Geth} (s t : State g) : Type 0 where
  pub same_config : t.config ≡ s.config
  pub same_client : t.client ≡ s.client

module _ (g : Geth) where
  pub simulate-SameGlobals :
      (op : UserOperation g.Address) (s : State g) → SameGlobals s (simulate g op s).1
  unfolding simulate Transactor.simulate_validation
  simulate-SameGlobals op s = ground arith

  pub handle_ops-SameGlobals :
      (ops : List (UserOperation g.Address)) (s : State g) → SameGlobals s (handle_ops g ops s).1
  unfolding handle_ops Transactor.handle_ops
  handle_ops-SameGlobals ops s = ground arith

  node-simulate_on :
      NoSend g
      → (entrypoint : EntryPoint g.BoundContract) (op : UserOperation g.Address) (s : State g)
      → (simulate_on g entrypoint op s).1.node ≡ s.node
  unfolding simulate_on simulated simulate_opts Transactor.simulate_validation
  node-simulate_on law entrypoint op s = elim (Outcome-cases (get_chain_id s.config)) [
    | inl (id, e) ↦ ground (
      arith,
      law.keeps_node entrypoint.transactor.contract
          (simulate_opts g s.config (g.latest_signer_for_chain_id id)) (text "simulateValidation")
          (user_op op ∷ []) s.node refl,
    )
    | inr other ↦ ground arith
  ]

  -- A simulation, however it ends, leaves the node as it was, where `NoSend` keeps transactions from
  -- it.
  pub node-simulate :
      NoSend g → (op : UserOperation g.Address) (s : State g) → (simulate g op s).1.node ≡ s.node
  unfolding simulate
  node-simulate law op s = elim (Outcome-cases (get_entrypoint_contract_address g s.config)) [
    | inl (contract, e) ↦ elim (Result-cases (new_entry_point g contract (some s.client))) [
      | inl (entrypoint, f) ↦ ground (arith, node-simulate_on law entrypoint op s)
      | inr (m, f) ↦ ground arith
    ]
    | inr other ↦ ground arith
  ]
