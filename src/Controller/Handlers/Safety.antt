-- ===== src/Controller/Handlers/Safety.antt =====
-- When `HandleOps` of bundler/src/controller/main.go may send.
use pay_gas_x.Base.{ℕ, ◌≡◌, ap, ◌≢◌, inl, inr, Text, done, arith}
use pay_gas_x.Geth.{Geth}
use pay_gas_x.Host.{State}
use pay_gas_x.Eth.Frame.{NoSend, node-simulate}
use pay_gas_x.Controller.Types.{Request, Response}
use pay_gas_x.Controller.Responses.{error_resp, success_resp}
use pay_gas_x.Controller.Handlers.{AbiOps, handle_ops}
use pay_gas_x.Controller.Handlers.Frame.{node-simulate_ops}
use pay_gas_x.Controller.Handlers.Simulation.{Simulated, FirstRejected, simulate_ops-none_iff}
use pay_gas_x.Controller.Handlers.Answers.{
  no_operations, not_parsed, rejected, not_sent, sent, handle_ops-Answers,
}

module _ (g : Geth) (law : NoSend g) where
  pub node-Simulated : (ops : AbiOps g) (s t : State g) → Simulated g s ops t → t.node ≡ s.node
  node-Simulated ops s t h =
      let e = (simulate_ops-none_iff g 0 ops s t).1 h in
      ground (arith, e, node-simulate_ops g law 0 ops s)

  node-FirstRejected :
      (ops : AbiOps g) (s t : State g) {k : ℕ} {e : Text}
      → FirstRejected g s ops k e t
      → t.node ≡ s.node
  node-FirstRejected ops s t f = ground (
    arith,
    f.bad_fails,
    node-simulate g law f.bad f.reached,
    node-Simulated f.before s f.reached f.before_pass,
  )

  -- Where `NoSend` keeps transactions from the node, an answer other than 200 and 500 leaves the
  -- node as it was.
  pub handle_ops_refused :
      (request : Request) (s t : State g) (r : Response)
      → handle_ops g request s ≡ (done r, t)
      → r.status_code ≢ 200
      → r.status_code ≢ 500
      → t.node ≡ s.node
  handle_ops_refused request s t r h ok_ne failed_ne = elim (handle_ops-Answers g request s t r h) [
    | inl (e, p, q, n) ↦ ap (λ (x : State g). x.node) n
    | inr (req, p, no_operations x y z) ↦ ap (λ (x : State g). x.node) z
    | inr (req, p, not_parsed k e f y z) ↦ ap (λ (x : State g). x.node) z
    | inr (req, p, rejected ops k e q f y) ↦ node-FirstRejected ops s t f
    | inr (req, p, not_sent ops u e q f y z) ↦
        absurd (failed_ne (unfold error_resp in ground arith))
    | inr (req, p, sent ops u e q f y z) ↦ absurd (ok_ne (unfold success_resp in ground arith))
  ]
