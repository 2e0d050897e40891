-- ===== src/Eth/Sent.antt =====
-- The transaction that `HandleOps` of bundler/src/eth/main.go sends.
use pay_gas_x.Base.{
  ◌≡◌, inl, inr, List, [], ◌∷◌, some, Text, text, ok, Result-cases, Outcome-cases, done, arith,
}
use pay_gas_x.Base.Int.{ℤ}
use pay_gas_x.Geth.{Geth, TransactOpts}
use pay_gas_x.Host.{State}
use pay_gas_x.Abi.Types.{UserOperation, address, user_ops}
use pay_gas_x.Abi.EntryPoint.{EntryPoint, new_entry_point}
use pay_gas_x.Abi.EntryPoint.Transactor
use pay_gas_x.Config.Getters.{
  get_chain_id, get_bundler, get_bundler_address, get_entrypoint_contract_address,
}
use pay_gas_x.Eth.{adjust_opts, sent, send_ops, handle_ops_on, handle_ops}

module _ (g : Geth) where
  abbrev Called :
      EntryPoint g.BoundContract
      → TransactOpts g.Address g.Transaction
      → g.PrivateKey
      → State g
      → List (UserOperation g.Address)
      → Text
      → State g
      → Type 0
  Called entrypoint opts key s ops tx_hash t =
      (tx : g.Transaction) × (g.transact entrypoint.transactor.contract opts (text "handleOps")
          (user_ops ops ∷ address (g.pubkey_to_address key) ∷ []) s.node
        ≡ (done (ok tx), t.node))
      × (tx_hash ≡ g.tx_hash_hex tx)

  send_ops-Called :
      (entrypoint : EntryPoint g.BoundContract) (opts : TransactOpts g.Address g.Transaction)
      (key : g.PrivateKey) (ops : List (UserOperation g.Address)) (s t : State g) {tx_hash : Text}
      → get_bundler g s.config ≡ done key
      → send_ops g entrypoint opts ops s ≡ (done (ok tx_hash), t)
      → Called entrypoint opts key s ops tx_hash t
  unfolding send_ops sent Transactor.handle_ops get_bundler_address
  send_ops-Called entrypoint opts key ops s t k h =
      let call =
        g.transact entrypoint.transactor.contract opts (text "handleOps")
          (user_ops ops ∷ address (g.pubkey_to_address key) ∷ []) s.node in
      elim (Outcome-cases call.0) [
        | inl (r, e) ↦ elim (Result-cases r) [
          | inl (tx, f) ↦ (tx, ground arith, ground arith)
          | inr (m, f) ↦ absurd (ground arith)
        ]
        | inr other ↦ absurd (ground arith)
      ]

  abbrev SignedBy :
      EntryPoint g.BoundContract
      → State g
      → List (UserOperation g.Address)
      → Text
      → State g
      → Type 0
  SignedBy entrypoint s ops tx_hash t =
      (key : g.PrivateKey) × (chain_id : ℤ) × (opts : TransactOpts g.Address g.Transaction)
      × (get_bundler g s.config ≡ done key)
      × (get_chain_id s.config ≡ done chain_id)
      × (g.new_keyed_transactor_with_chain_id key chain_id ≡ ok opts)
      × Called entrypoint (adjust_opts g opts) key s ops tx_hash t

  handle_ops_on-SignedBy :
      (entrypoint : EntryPoint g.BoundContract) (ops : List (UserOperation g.Address))
      (s t : State g) {tx_hash : Text}
      → handle_ops_on g entrypoint ops s ≡ (done (ok tx_hash), t)
      → SignedBy entrypoint s ops tx_hash t
  unfolding handle_ops_on
  handle_ops_on-SignedBy entrypoint ops s t h = elim (Outcome-cases (get_bundler g s.config)) [
    | inl (key, e) ↦ elim (Outcome-cases (get_chain_id s.config)) [
      | inl (id, f) ↦ elim (Result-cases (g.new_keyed_transactor_with_chain_id key id)) [
        | inl (opts, o) ↦ (
          key,
          id,
          opts,
          e,
          f,
          o,
          send_ops-Called entrypoint (adjust_opts g opts) key ops s t e (ground arith),
        )
        | inr (m, o) ↦ absurd (ground arith)
      ]
      | inr other ↦ absurd (ground arith)
    ]
    | inr other ↦ absurd (ground arith)
  ]

  -- One call of `handleOps` of the configured contract, with the operations and the bundler's own
  -- address, signed by the bundler's key for the configured chain, took the node from that of `s`
  -- to that of `t` and gave the hash.
  abbrev pub SentBy : State g → List (UserOperation g.Address) → Text → State g → Type 0
  SentBy s ops tx_hash t =
      (contract : g.Address) × (entrypoint : EntryPoint g.BoundContract)
      × (get_entrypoint_contract_address g s.config ≡ done contract)
      × (new_entry_point g contract (some s.client) ≡ ok entrypoint)
      × SignedBy entrypoint s ops tx_hash t

  -- `HandleOps` returns a hash only if it made one call of `handleOps` of the configured contract
  -- with just these operations, in their order, paid to the bundler's address and signed by its
  -- key; the hash is that of the transaction, and the node is left as the call left it.
  pub handle_ops-SentBy :
      (ops : List (UserOperation g.Address)) (s t : State g) {tx_hash : Text}
      → handle_ops g ops s ≡ (done (ok tx_hash), t)
      → SentBy s ops tx_hash t
  unfolding handle_ops
  handle_ops-SentBy ops s t h = elim (Outcome-cases (get_entrypoint_contract_address g s.config)) [
    | inl (contract, e) ↦ elim (Result-cases (new_entry_point g contract (some s.client))) [
      | inl (entrypoint, f) ↦
          (contract, entrypoint, e, f, handle_ops_on-SignedBy entrypoint ops s t (ground arith))
      | inr (m, f) ↦ absurd (ground arith)
    ]
    | inr other ↦ absurd (ground arith)
  ]
