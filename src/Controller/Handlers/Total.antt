-- ===== src/Controller/Handlers/Total.antt =====
-- That `HandleOps` of bundler/src/controller/main.go answers.
use mathlib.Core.Path.{subst}
use pay_gas_x.Base.{
  ℕ, ◌+◌, ◌≡◌, refl, sym, inl, inr, All, [], ◌∷◌, ◌++◌, Option, none, some, Option-cases, Text,
  text, Result, ok, err, Result-cases, done, arith,
}
use pay_gas_x.Geth.{Geth}
use pay_gas_x.Host.{State}
use pay_gas_x.Config.Init.Usable.{IsUsable}
use pay_gas_x.Eth as Eth
use pay_gas_x.Eth.Frame.{SameGlobals, simulate-SameGlobals}
use pay_gas_x.Eth.Returns.{TransactReturns, simulate_returns, handle_ops_returns}
use pay_gas_x.Controller.Types.{HandleOpsRequest, Request, Response}
use pay_gas_x.Controller.ToAbi.Presence.{IsComplete}
use pay_gas_x.Controller.Responses.{error_resp, success_resp, handled}
use pay_gas_x.Controller.Handlers.{AbiOps, simulation_failed, simulate_ops, send, submit}
use pay_gas_x.Controller.Handlers.Frame.{simulate_ops-SameGlobals}

-- What was decoded, if anything was, is operations with all their fields.
abbrev pub HoldsComplete : Result HandleOpsRequest → Type 0
HoldsComplete (ok req) = All IsComplete req.user_operations
HoldsComplete (err e) = Unit

module _ (g : Geth) where
  IsUsable-SameGlobals :
      {s t : State g} → SameGlobals s t → IsUsable g s.config → IsUsable g t.config
  IsUsable-SameGlobals h u = subst (IsUsable g) (sym h.same_config) u

  module _ (law : TransactReturns g) where
    simulate_ops_returns :
        (i : ℕ) (ops : AbiOps g) (s : State g)
        → IsUsable g s.config
        → (r : Option Text) × ((simulate_ops g i ops s).0 ≡ done r)
    unfolding simulate_ops
    simulate_ops_returns i [] s u = (none, refl)
    simulate_ops_returns i (op ∷ ops) s u =
        let (r, e) = simulate_returns g law op s u in
        let t = (Eth.simulate g op s).1 in
        let (rest, f) =
          simulate_ops_returns (i + 1) ops t
            (IsUsable-SameGlobals (simulate-SameGlobals g op s) u) in
        elim (Option-cases r) [
          | inl a ↦ (rest, ground arith)
          | inr (m, a) ↦ (some (simulation_failed g i m), ground arith)
        ]

    pub submit_returns :
        (ops : AbiOps g) (s : State g)
        → IsUsable g s.config
        → (r : Response) × ((submit g (ok ops) s).0 ≡ done r)
    unfolding submit send
    submit_returns ops s u =
        let (r, e) = simulate_ops_returns 0 ops s u in
        let t = (simulate_ops g 0 ops s).1 in
        let (sent, f) =
          handle_ops_returns g law ops t
            (IsUsable-SameGlobals (simulate_ops-SameGlobals g 0 ops s) u) in
        elim (Option-cases r) [
          | inl a ↦ elim (Result-cases sent) [
            | inl (h, b) ↦ (success_resp (handled (record { tx_hash = h })), ground arith)
            | inr (m, b) ↦
                (error_resp 500 (text "failed to send HandleOps call: " ++ m), ground arith)
          ]
          | inr (m, a) ↦ (error_resp 400 m, ground arith)
        ]
