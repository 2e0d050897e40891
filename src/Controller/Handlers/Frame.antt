-- ===== src/Controller/Handlers/Frame.antt =====
-- What the handlers of bundler/src/controller/main.go leave alone.
use pay_gas_x.Base.{
  inl, inr, Outcome-cases, Result-cases, ℕ, ◌+◌, ◌≡◌, refl, List, [], ◌∷◌, Result, ok, err, arith,
}
use pay_gas_x.Geth.{Geth}
use pay_gas_x.Host.{State}
use pay_gas_x.Eth as Eth
use pay_gas_x.Eth.Frame.{
  NoSend, SameGlobals, simulate-SameGlobals, handle_ops-SameGlobals, node-simulate,
}
use pay_gas_x.Controller.Types.{UserOperation, Request}
use pay_gas_x.Controller.Request.{unmarshal_request}
use pay_gas_x.Controller.Handlers as Handlers
use pay_gas_x.Controller.Handlers.{AbiOps, parse_ops, healthz, simulate_ops, send, submit, process}

module _ (g : Geth) where
  SameGlobals-refl : (s : State g) → SameGlobals s s
  SameGlobals-refl s = record { same_config = refl; same_client = refl }

  pub simulate_ops-SameGlobals :
      (i : ℕ) (ops : AbiOps g) (s : State g) → SameGlobals s (simulate_ops g i ops s).1
  unfolding simulate_ops
  simulate_ops-SameGlobals i [] s = SameGlobals-refl s
  simulate_ops-SameGlobals i (op ∷ ops) s = ground (
    arith,
    simulate-SameGlobals g op s,
    simulate_ops-SameGlobals (i + 1) ops (Eth.simulate g op s).1,
  )

  pub node-simulate_ops :
      NoSend g → (i : ℕ) (ops : AbiOps g) (s : State g) → (simulate_ops g i ops s).1.node ≡ s.node
  unfolding simulate_ops
  node-simulate_ops law i [] s = refl
  node-simulate_ops law i (op ∷ ops) s =
      ground
        (arith, node-simulate g law op s, node-simulate_ops law (i + 1) ops (Eth.simulate g op s).1)

  submit-SameGlobals : (r : Result (AbiOps g)) (s : State g) → SameGlobals s (submit g r s).1
  unfolding submit send
  submit-SameGlobals (err e) s = SameGlobals-refl s
  submit-SameGlobals (ok ops) s = ground (
    arith,
    simulate_ops-SameGlobals 0 ops s,
    handle_ops-SameGlobals g ops (simulate_ops g 0 ops s).1,
  )

  process-SameGlobals : (uos : List UserOperation) (s : State g) → SameGlobals s (process g uos s).1
  unfolding process
  process-SameGlobals [] s = SameGlobals-refl s
  process-SameGlobals (uo ∷ uos) s = elim (Outcome-cases (parse_ops g 0 (uo ∷ uos))) [
    | inl (r, e) ↦ ground (arith, submit-SameGlobals r s)
    | inr other ↦ ground arith
  ]

  -- `HandleOps` keeps the configuration and the client.
  pub handler-SameGlobals :
      (request : Request) (s : State g) → SameGlobals s (Handlers.handle_ops g request s).1
  unfolding Handlers.handle_ops
  handler-SameGlobals request s = elim (Result-cases (unmarshal_request request.body)) [
    | inl (req, e) ↦ ground (arith, process-SameGlobals req.user_operations s)
    | inr (m, e) ↦ ground arith
  ]

  -- `Healthz` changes nothing.
  pub healthz_keeps : (request : Request) (s : State g) → (healthz g request s).1 ≡ s
  unfolding healthz
  healthz_keeps request s = ground arith
