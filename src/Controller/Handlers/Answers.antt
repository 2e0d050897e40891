-- ===== src/Controller/Handlers/Answers.antt =====
-- What `HandleOps` of bundler/src/controller/main.go answers, case by case.
use pay_gas_x.Base.{
  ℕ, ◌++◌, ◌≡◌, refl, ◌∙◌, ap, ◌⊎◌, inl, inr, List, [], ◌∷◌, Text, text, ok, err, Result-cases,
  Outcome-cases, done, arith,
}
use pay_gas_x.Geth.{Geth}
use pay_gas_x.Host.{State}
use pay_gas_x.Eth as Eth
use pay_gas_x.Controller.Types.{UserOperation, HandleOpsRequest, Request, Response}
use pay_gas_x.Controller.Request.{unmarshal_request}
use pay_gas_x.Controller.Responses.{error_resp, success_resp, handled}
use pay_gas_x.Controller.Handlers.{
  AbiOps, parse_failed, parse_ops, simulation_failed, submit, process, handle_ops,
}
use pay_gas_x.Controller.Handlers.Submit as Submitted
use pay_gas_x.Controller.Handlers.Submit.{submit-Submitted}
use pay_gas_x.Controller.Handlers.Parse.{
  Parsed, FirstFailure, parse_ops_ok_iff, parse_ops_names_first,
}
use pay_gas_x.Controller.Handlers.Simulation.{Simulated, FirstRejected}

module _ (g : Geth) where
  -- The response `r` to the operations `uos` from the state `s`, and the state `t` after it.
  pub data Answers (s : State g) (uos : List UserOperation) (r : Response) (t : State g)
      : Type 0 where
    -- The list is empty.
    no_operations :
        uos ≡ [] → r ≡ error_resp 400 (text "no user operations") → t ≡ s → Answers s uos r t
    -- The first operation that does not parse is named, and nothing else happens.
    not_parsed :
        (k : ℕ) (e : Text)
        → FirstFailure g uos k e
        → r ≡ error_resp 400 (parse_failed g k e)
        → t ≡ s
        → Answers s uos r t
    -- All parse; the first that fails its simulation is named.
    rejected :
        (ops : AbiOps g) (k : ℕ) (e : Text)
        → Parsed g uos ops
        → FirstRejected g s ops k e t
        → r ≡ error_resp 400 (simulation_failed g k e)
        → Answers s uos r t
    -- All parse and pass, and the call of the contract fails.
    not_sent :
        (ops : AbiOps g) (u : State g) (e : Text)
        → Parsed g uos ops
        → Simulated g s ops u
        → Eth.handle_ops g ops u ≡ (done (err e), t)
        → r ≡ error_resp 500 (text "failed to send HandleOps call: " ++ e)
        → Answers s uos r t
    -- All parse and pass, and the call of the contract returns a transaction.
    sent :
        (ops : AbiOps g) (u : State g) (tx_hash : Text)
        → Parsed g uos ops
        → Simulated g s ops u
        → Eth.handle_ops g ops u ≡ (done (ok tx_hash), t)
        → r ≡ success_resp (handled (record { tx_hash = tx_hash }))
        → Answers s uos r t

  submit-Answers :
      (s t : State g) (uos : List UserOperation) (ops : AbiOps g) (r : Response)
      → Parsed g uos ops
      → submit g (ok ops) s ≡ (done r, t)
      → Answers s uos r t
  submit-Answers s t uos ops r p h = elim (submit-Submitted g s t ops r h) [
    | Submitted.rejected k e f q ↦ rejected ops k e p f q
    | Submitted.not_sent u e f q a ↦ not_sent ops u e p f q a
    | Submitted.sent u tx_hash f q a ↦ sent ops u tx_hash p f q a
  ]

  -- Whenever the operations of a request are answered, the answer is one of these five.
  process-Answers :
      (s t : State g) (uos : List UserOperation) (r : Response)
      → process g uos s ≡ (done r, t)
      → Answers s uos r t
  unfolding process
  process-Answers s t [] r h = no_operations refl (ground arith) (ground arith)
  process-Answers s t (uo ∷ uos) r h = elim (Outcome-cases (parse_ops g 0 (uo ∷ uos))) [
    | inl (x, e) ↦ elim (Result-cases x) [
      | inl (ops, f) ↦
          submit-Answers s t (uo ∷ uos) ops r
            ((parse_ops_ok_iff g 0 (uo ∷ uos) ops).0 (e ∙ ap done f)) (ground arith)
      | inr (m, f) ↦
          let (k, e', first, n) = parse_ops_names_first g (uo ∷ uos) {m = m} (e ∙ ap done f) in
          not_parsed k e' first (unfold submit in ground arith) (unfold submit in ground arith)
    ]
    | inr other ↦ absurd (ground arith)
  ]

  -- A request that is answered was not read, with the answer 400, or its operations were answered
  -- in one of the five ways.
  pub handle_ops-Answers :
      (request : Request) (s t : State g) (r : Response)
      → handle_ops g request s ≡ (done r, t)
      → ((e : Text) × (unmarshal_request request.body ≡ err e)
          × (r ≡ error_resp 400 (text "failed to parse request body: " ++ e))
          × (t ≡ s))
        ⊎ ((req : HandleOpsRequest) × (unmarshal_request request.body ≡ ok req)
            × Answers s req.user_operations r t)
  unfolding handle_ops
  handle_ops-Answers request s t r h = elim (Result-cases (unmarshal_request request.body)) [
    | inl (req, e) ↦ inr (req, e, process-Answers s t req.user_operations r (ground arith))
    | inr (m, e) ↦ inl (m, e, ground arith, ground arith)
  ]
