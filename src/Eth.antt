-- ===== src/Eth.antt =====
-- bundler/src/eth/main.go: `Init`, `Simulate` and `HandleOps`.
pub mod Returns
pub mod Gas
pub mod Connect
pub mod Sent
pub mod Frame
pub mod Calls
use pay_gas_x.Base.{
  ◌++◌, ◌*◌, ◌%◌, ◌^◌, List, [], ◌∷◌, Option, none, some, true, Text, text, Result, ok, err,
  Outcome, done, panicked, and_then, M, return, panic, reads, resume, ◌>>=◌, ◌>>◌,
}
use pay_gas_x.Geth.{Geth, TransactOpts, background}
use pay_gas_x.Host.{State}
use pay_gas_x.Abi.Types.{UserOperation}
use pay_gas_x.Abi.EntryPoint.{EntryPoint, new_entry_point}
use pay_gas_x.Abi.EntryPoint.Transactor
use pay_gas_x.Config.Types.{Config}
use pay_gas_x.Config.Getters.{
  nil_dereference, get_chain_id, get_bundler, get_bundler_address, get_entrypoint_contract_address,
}

module _ (g : Geth) where
  open g use {Address, Transaction, Signer, Node, BoundContract}

  -- A call that only the node takes part in.
  abbrev pub on_node : {A : Type 0} → M Node A → M (State g) A
  on_node m s = let (o, n) = m s.node in (o, record s { node = n })

  abbrev pub rpc_server : Option Config → Outcome Text
  rpc_server none = panicked nil_dereference
  rpc_server (some c) = done c.chain.rpc_server

  -- `Init` where `client` is nil; a failed `Dial` leaves it nil.
  dial_server : M (State g) (Unit {0})
  dial_server = do
    server ← reads (λ s. rpc_server s.config)
    λ s. elim (g.dial server s.node) [
      | ok c ↦ (done tt, record s { client = some c })
      | err e ↦ (panicked (text "Failed to connect to the Ethereum client: " ++ e), s)
    ]

  unfoldable pub init : M (State g) (Unit {0})
  unfolding dial_server
  init s = elim s.client [ some _ ↦ (done tt, s) | none ↦ dial_server s ]

  -- `abi.NewEntryPoint(config.GetEntrypointContractAddress(), client)`
  bind_contract : M (State g) (Result (EntryPoint BoundContract))
  bind_contract = do
    contract ← reads (λ s. get_entrypoint_contract_address g s.config)
    λ s. (done (new_entry_point g contract (some s.client)), s)

  -- The function `Signer` of the options of `Simulate`, which signs for any address.
  unfoldable pub simulate_signer :
      Option Config → Signer → Address → Transaction → Outcome (Result Transaction)
  simulate_signer c signer addr tx = and_then (get_bundler g c) λ sk.
      elim (g.sign (g.signer_hash signer tx) sk) [
        | err e ↦ done (err e)
        | ok signature ↦ done (g.with_signature tx signer signature)
      ]

  unfoldable pub simulate_opts : Option Config → Signer → TransactOpts Address Transaction
  simulate_opts c signer = record {
    from = g.zero_address;
    nonce = none;
    signer = simulate_signer c signer;
    value = none;
    gas_price = none;
    gas_fee_cap = none;
    gas_tip_cap = none;
    gas_limit = 0;
    context = some background;
    no_send = true;
  }

  -- The result is the `error`.
  simulated : Result Transaction → M (State g) (Option Text)
  simulated (ok _) s = (done none, s)
  simulated (err e) s =
      (done (some e), record s { log = s.log ++ (text "Simulation failed. Error: " ++ e) ∷ [] })

  simulate_on : EntryPoint BoundContract → UserOperation Address → M (State g) (Option Text)
  simulate_on entrypoint op = do
    chain_id ← reads (λ s. get_chain_id s.config)
    result ← λ s.
        on_node
          (Transactor.simulate_validation g entrypoint.transactor
            (simulate_opts s.config (g.latest_signer_for_chain_id chain_id)) op)
          s
    simulated result

  unfoldable pub simulate : UserOperation Address → M (State g) (Option Text)
  unfolding bind_contract simulate_on simulated
  simulate op =
      bind_contract >>= elim [ err e ↦ return (some e) | ok entrypoint ↦ simulate_on entrypoint op ]

  -- `transactOps.Context = ctx` and `transactOps.GasLimit *= 2`, in uint64.
  unfoldable pub adjust_opts : TransactOpts Address Transaction → TransactOpts Address Transaction
  adjust_opts o = record o { context = some background; gas_limit = o.gas_limit * 2 % 2 ^ 64 }

  sent : Result Transaction → Result Text
  sent (ok tx) = ok (g.tx_hash_hex tx)
  sent (err e) = err e

  send_ops :
      EntryPoint BoundContract
      → TransactOpts Address Transaction
      → List (UserOperation Address)
      → M (State g) (Result Text)
  send_ops entrypoint opts ops = do
    beneficiary ← reads (λ s. get_bundler_address g s.config)
    result ← on_node (Transactor.handle_ops g entrypoint.transactor opts ops beneficiary)
    return (sent result)

  handle_ops_on :
      EntryPoint BoundContract → List (UserOperation Address) → M (State g) (Result Text)
  handle_ops_on entrypoint ops = do
    sk ← reads (λ s. get_bundler g s.config)
    chain_id ← reads (λ s. get_chain_id s.config)
    elim (g.new_keyed_transactor_with_chain_id sk chain_id) [
      | err e ↦ return (err (text "Failed to create transactor for bundler: " ++ e))
      | ok opts ↦ send_ops entrypoint (adjust_opts opts) ops
    ]

  -- The results `txHash, nil` and `"", err`.
  unfoldable pub handle_ops : List (UserOperation Address) → M (State g) (Result Text)
  unfolding bind_contract handle_ops_on send_ops sent
  handle_ops ops =
      bind_contract
      >>= elim [ err e ↦ return (err e) | ok entrypoint ↦ handle_ops_on entrypoint ops ]
