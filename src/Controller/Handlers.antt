-- ===== src/Controller/Handlers.antt =====
-- `Healthz` and `HandleOps` of bundler/src/controller/main.go.
pub mod Frame
pub mod Parse
pub mod Simulation
pub mod Submit
pub mod Answers
pub mod Batch
pub mod Cut
pub mod Calls
pub mod Safety
pub mod Total
pub mod Success
pub mod Health
use pay_gas_x.Base.{
  ℕ, ◌+◌, ◌++◌, List, [], ◌∷◌, Option, none, some, Text, text, Result, ok, err, Outcome, done,
  and_then, M, return, reads, ◌>>=◌,
}
use pay_gas_x.Base.Decimal.{decimal}
use pay_gas_x.GoLib.BigInt.{int_string}
use pay_gas_x.Geth.{Geth}
use pay_gas_x.Host.{State}
use pay_gas_x.Config.Getters.{get_chain_id, get_bundler_address, get_entrypoint_contract_address}
use pay_gas_x.Abi.Types as Abi
use pay_gas_x.Eth as Eth
use pay_gas_x.Controller.Types.{UserOperation, HandleOpsRequest, Request, Response}
use pay_gas_x.Controller.Request.{unmarshal_request}
use pay_gas_x.Controller.ToAbi.{to_abi_struct}
use pay_gas_x.Controller.Responses.{error_resp, success_resp, health, handled}

module _ (g : Geth) where
  abbrev pub AbiOps : Type 0
  AbiOps = List (Abi.UserOperation g.Address)

  unfoldable pub healthz : Request → M (State g) Response
  healthz request = do
    bundler ← reads (λ s. get_bundler_address g s.config)
    chain_id ← reads (λ s. get_chain_id s.config)
    entrypoint ← reads (λ s. get_entrypoint_contract_address g s.config)
    return (
        success_resp (
          health (record {
            hello = text "bundler";
            bundler_eoa = g.address_hex bundler;
            chain_id = int_string chain_id;
            entrypoint_contract_address = g.address_hex entrypoint;
          })))

  -- `what #index: error`
  abbrev pub at_index : Text → ℕ → Text → Text
  at_index what index e = what ++ decimal index ++ text ": " ++ e

  unfoldable pub parse_failed : ℕ → Text → Text
  parse_failed = at_index (text "failed to parse user operation #")

  -- The first loop, from `index` on; an error is the body of the response 400.
  unfoldable pub parse_ops : ℕ → List UserOperation → Outcome (Result AbiOps)
  parse_ops index [] = done (ok [])
  parse_ops index (uo ∷ uos) = and_then (to_abi_struct g uo) elim [
    | err e ↦ done (err (parse_failed index e))
    | ok op ↦
        and_then (parse_ops (index + 1) uos)
          elim [ err e ↦ done (err e) | ok ops ↦ done (ok (op ∷ ops)) ]
  ]

  unfoldable pub simulation_failed : ℕ → Text → Text
  simulation_failed = at_index (text "failed to simulate user operation #")

  -- The second loop.
  unfoldable pub simulate_ops : ℕ → AbiOps → M (State g) (Option Text)
  simulate_ops index [] = return none
  simulate_ops index (op ∷ ops) = Eth.simulate g op >>= elim [
    | some e ↦ return (some (simulation_failed index e))
    | none ↦ simulate_ops (index + 1) ops
  ]

  -- `eth.HandleOps` and the response.
  send : AbiOps → M (State g) Response
  send ops = Eth.handle_ops g ops >>= elim [
    | err e ↦ return (error_resp 500 (text "failed to send HandleOps call: " ++ e))
    | ok tx_hash ↦ return (success_resp (handled (record { tx_hash = tx_hash })))
  ]

  -- What follows the first loop.
  pub submit : Result AbiOps → M (State g) Response
  submit (err e) = return (error_resp 400 e)
  submit (ok ops) =
      simulate_ops 0 ops >>= elim [ some e ↦ return (error_resp 400 e) | none ↦ send ops ]

  process : List UserOperation → M (State g) Response
  process [] = return (error_resp 400 (text "no user operations"))
  process (uo ∷ uos) = reads (λ s. parse_ops 0 (uo ∷ uos)) >>= submit

  unfoldable pub handle_ops : Request → M (State g) Response
  unfolding process submit send
  handle_ops request = elim (unmarshal_request request.body) [
    | err e ↦ return (error_resp 400 (text "failed to parse request body: " ++ e))
    | ok req ↦ process req.user_operations
  ]
