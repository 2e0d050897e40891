-- ===== src/Eth/Calls.antt =====
-- The calls of `Transact` that `Simulate` and `HandleOps` of bundler/src/eth/main.go make.
use mathlib.Core.Path.{subst}
use pay_gas_x.Base.{
  ◌≡◌, ◌≢◌, refl, ◌⊎◌, inl, inr, Bool, true, false, List, [], ◌∷◌, ◌++◌, none, some, Text, text,
  Result-cases, Outcome-cases, done, arith,
}
use pay_gas_x.Geth.{Geth, TransactOpts}
use pay_gas_x.Host.{State}
use pay_gas_x.Abi.Types.{UserOperation, Value, address, user_op, user_ops}
use pay_gas_x.Abi.EntryPoint.{new_entry_point}
use pay_gas_x.Abi.EntryPoint.Transactor
use pay_gas_x.Config.Getters.{
  get_chain_id, get_bundler, get_bundler_address, get_entrypoint_contract_address,
}
use pay_gas_x.Eth.{
  simulate, simulate_on, simulate_opts, simulated, adjust_opts, send_ops, handle_ops_on, handle_ops,
}

-- A method, its arguments, and whether the transaction is kept from the node.
pub record Call (Address : Type 0) : Type 0 where
  pub method : Text
  pub arguments : List (Value Address)
  pub is_kept : Bool

module _ (g : Geth) where
  -- The calls, one after the other, take the node from `n` to `m`, with `NoSend` set for those whose
  -- transaction is kept.
  abbrev pub Runs : g.Node → List (Call g.Address) → g.Node → Type 0
  Runs n [] m = m ≡ n
  Runs n (c ∷ cs) m =
      (contract : g.BoundContract) × (opts : TransactOpts g.Address g.Transaction) × (c.is_kept
          ≡ true
        → opts.no_send ≡ true)
      × Runs (g.transact contract opts c.method c.arguments n).1 cs m

  pub Runs-append :
      (cs ds : List (Call g.Address)) (n k m : g.Node)
      → Runs n cs k
      → Runs k ds m
      → Runs n (cs ++ ds) m
  Runs-append [] ds n k m h i = subst (λ x. Runs x ds m) h i
  Runs-append (c ∷ cs) ds n k m (contract, opts, kept, h) i =
      (contract, opts, kept, Runs-append cs ds _ k m h i)

  abbrev pub simulation : UserOperation g.Address → Call g.Address
  simulation op = record {
    method = text "simulateValidation";
    arguments = user_op op ∷ [];
    is_kept = true;
  }

  abbrev pub sending : List (UserOperation g.Address) → g.Address → Call g.Address
  sending ops beneficiary = record {
    method = text "handleOps";
    arguments = user_ops ops ∷ address beneficiary ∷ [];
    is_kept = false;
  }

  -- `Simulate` makes its one call, or it makes none and does not pass.
  abbrev CallsOnce : UserOperation g.Address → State g → Type 0
  CallsOnce op s =
      Runs s.node (simulation op ∷ []) (simulate g op s).1.node
      ⊎ (((simulate g op s).1.node ≡ s.node) × ((simulate g op s).0 ≢ done none))

  pub simulate-CallsOnce : (op : UserOperation g.Address) (s : State g) → CallsOnce op s
  unfolding simulate simulate_on simulated simulate_opts Transactor.simulate_validation
  simulate-CallsOnce op s = elim (Outcome-cases (get_entrypoint_contract_address g s.config)) [
    | inl (contract, e) ↦ elim (Result-cases (new_entry_point g contract (some s.client))) [
      | inl (entrypoint, f) ↦ elim (Outcome-cases (get_chain_id s.config)) [
        | inl (id, i) ↦ inl (
          entrypoint.transactor.contract,
          simulate_opts g s.config (g.latest_signer_for_chain_id id),
          λ _. refl,
          ground arith,
        )
        | inr other ↦ inr (ground arith, ground arith)
      ]
      | inr (m, f) ↦ inr (ground arith, ground arith)
    ]
    | inr other ↦ inr (ground arith, ground arith)
  ]

  -- `HandleOps` makes its one call, or none.
  abbrev SendsOnce : List (UserOperation g.Address) → State g → Type 0
  SendsOnce ops s =
      ((beneficiary : g.Address) × Runs s.node (sending ops beneficiary ∷ [])
          (handle_ops g ops s).1.node)
      ⊎ ((handle_ops g ops s).1.node ≡ s.node)

  pub handle_ops-SendsOnce : (ops : List (UserOperation g.Address)) (s : State g) → SendsOnce ops s
  unfolding handle_ops handle_ops_on send_ops get_bundler_address Transactor.handle_ops
  handle_ops-SendsOnce ops s = elim (Outcome-cases (get_entrypoint_contract_address g s.config)) [
    | inl (contract, e) ↦ elim (Result-cases (new_entry_point g contract (some s.client))) [
      | inl (entrypoint, f) ↦ elim (Outcome-cases (get_bundler g s.config)) [
        | inl (key, k) ↦ elim (Outcome-cases (get_chain_id s.config)) [
          | inl (id, i) ↦ elim (Result-cases (g.new_keyed_transactor_with_chain_id key id)) [
            | inl (opts, o) ↦ inl (
              g.pubkey_to_address key,
              (
                entrypoint.transactor.contract,
                adjust_opts g opts,
                λ b. absurd (ground arith),
                ground arith,
              ),
            )
            | inr (m, o) ↦ inr (ground arith)
          ]
          | inr other ↦ inr (ground arith)
        ]
        | inr other ↦ inr (ground arith)
      ]
      | inr (m, f) ↦ inr (ground arith)
    ]
    | inr other ↦ inr (ground arith)
  ]
