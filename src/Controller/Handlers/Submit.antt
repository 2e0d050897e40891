-- ===== src/Controller/Handlers/Submit.antt =====
-- What `HandleOps` of bundler/src/controller/main.go does with operations that have parsed.
use pay_gas_x.Base.{
  ℕ, ◌++◌, ◌≡◌, inl, inr, Option-cases, Text, text, ok, err, Result-cases, Outcome-cases, done,
  arith,
}
use pay_gas_x.Geth.{Geth}
use pay_gas_x.Host.{State}
use pay_gas_x.Eth as Eth
use pay_gas_x.Controller.Types.{Response}
use pay_gas_x.Controller.Responses.{error_resp, success_resp, handled}
use pay_gas_x.Controller.Handlers.{AbiOps, simulation_failed, simulate_ops, send, submit}
use pay_gas_x.Controller.Handlers.Simulation.{
  Simulated, FirstRejected, simulate_ops-none_iff, simulate_ops_names_first,
}

module _ (g : Geth) where
  -- The response `r` to the batch `ops` from the state `s`, and the state `t` after it.
  pub data Submitted (s : State g) (ops : AbiOps g) (r : Response) (t : State g) : Type 0 where
    -- The first that fails its simulation is named.
    rejected :
        (k : ℕ) (e : Text)
        → FirstRejected g s ops k e t
        → r ≡ error_resp 400 (simulation_failed g k e)
        → Submitted s ops r t
    -- All pass, and the call of the contract fails.
    not_sent :
        (u : State g) (e : Text)
        → Simulated g s ops u
        → Eth.handle_ops g ops u ≡ (done (err e), t)
        → r ≡ error_resp 500 (text "failed to send HandleOps call: " ++ e)
        → Submitted s ops r t
    -- All pass, and the call of the contract returns a transaction.
    sent :
        (u : State g) (tx_hash : Text)
        → Simulated g s ops u
        → Eth.handle_ops g ops u ≡ (done (ok tx_hash), t)
        → r ≡ success_resp (handled (record { tx_hash = tx_hash }))
        → Submitted s ops r t

  send-Submitted :
      (s u t : State g) (ops : AbiOps g) (r : Response)
      → Simulated g s ops u
      → send g ops u ≡ (done r, t)
      → Submitted s ops r t
  unfolding send
  send-Submitted s u t ops r q h = elim (Outcome-cases (Eth.handle_ops g ops u).0) [
    | inl (x, e) ↦ elim (Result-cases x) [
      | inl (tx_hash, f) ↦ sent u tx_hash q (ground arith) (ground arith)
      | inr (m, f) ↦ not_sent u m q (ground arith) (ground arith)
    ]
    | inr other ↦ absurd (ground arith)
  ]

  pub submit-Submitted :
      (s t : State g) (ops : AbiOps g) (r : Response)
      → submit g (ok ops) s ≡ (done r, t)
      → Submitted s ops r t
  unfolding submit
  submit-Submitted s t ops r h = elim (Outcome-cases (simulate_ops g 0 ops s).0) [
    | inl (x, e) ↦ elim (Option-cases x) [
      | inl f ↦
          let u = (simulate_ops g 0 ops s).1 in
          send-Submitted s u t ops r ((simulate_ops-none_iff g 0 ops s u).0 (ground arith))
            (ground arith)
      | inr (m, f) ↦
          let (k, e', first, n) = simulate_ops_names_first g ops s t {m = m} (ground arith) in
          rejected k e' first (ground arith)
    ]
    | inr other ↦ absurd (ground arith)
  ]
