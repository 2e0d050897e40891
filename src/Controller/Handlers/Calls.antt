-- ===== src/Controller/Handlers/Calls.antt =====
-- The calls of the contract that `HandleOps` of bundler/src/controller/main.go makes.
pub mod Loop
use mathlib.Core.Path.{subst}
use mathlib.Core.List.{append-nil}
use pay_gas_x.Base.{
  ℕ, ◌+◌, ◌≡◌, refl, ◌∙◌, ap, sym, ◌⊎◌, inl, inr, List, [], ◌∷◌, ◌++◌, map, none, some, Option,
  Outcome, Option-cases, Text, ◌≢◌, Result, ok, err, Result-cases, Outcome-cases, done, arith,
}
use pay_gas_x.Geth.{Geth}
use pay_gas_x.Host.{State}
use pay_gas_x.Abi.Types as Abi
use pay_gas_x.Eth as Eth
use pay_gas_x.Eth.Calls.{
  Call, Runs, Runs-append, simulation, sending, simulate-CallsOnce, handle_ops-SendsOnce,
}
use pay_gas_x.Controller.Types.{UserOperation, HandleOpsRequest, Request, Response}
use pay_gas_x.Controller.Request.{unmarshal_request}
use pay_gas_x.Controller.Handlers.{
  AbiOps, parse_ops, simulate_ops, send, submit, process, handle_ops,
}
use pay_gas_x.Controller.Handlers.Calls.Loop.{Simulates, simulate_ops-Simulates}
use pay_gas_x.Controller.Handlers.Parse.{Parsed, parse_ops_ok_iff}

module _ (g : Geth) where
  -- The calls for a batch: simulations of its operations from the first on, in order; and if all are
  -- simulated, at most one call that sends the whole batch.
  pub data AreFor (ops : AbiOps g) : List (Call g.Address) → Type 0 where
    simulating :
        (before after : AbiOps g) → ops ≡ before ++ after → AreFor ops (map (simulation g) before)
    then_sending :
        (beneficiary : g.Address)
        → AreFor ops (map (simulation g) ops ++ sending g ops beneficiary ∷ [])

  -- The calls for a batch, made from the state `s` and leading to `t`.
  abbrev pub CallsFor : AbiOps g → State g → State g → Type 0
  CallsFor ops s t = (cs : List (Call g.Address)) × Runs g s.node cs t.node × AreFor ops cs

  node-send :
      (ops : AbiOps g) (u : State g) → (send g ops u).1.node ≡ (Eth.handle_ops g ops u).1.node
  unfolding send
  node-send ops u = ground arith

  send-CallsFor :
      (ops : AbiOps g) (s u : State g)
      → Runs g s.node (map (simulation g) ops) u.node
      → CallsFor ops s (send g ops u).1
  send-CallsFor ops s u r = elim (handle_ops-SendsOnce g ops u) [
    | inl (b, c) ↦ (
      map (simulation g) ops ++ sending g ops b ∷ [],
      Runs-append g (map (simulation g) ops) (sending g ops b ∷ []) s.node u.node
          (send g ops u).1.node r
          (subst (λ m. Runs g u.node (sending g ops b ∷ []) m) (sym (node-send ops u)) c),
      then_sending b,
    )
    | inr same ↦ (
      map (simulation g) ops,
      subst (λ m. Runs g s.node (map (simulation g) ops) m) (sym (node-send ops u ∙ same)) r,
      simulating ops [] (sym (append-nil ops)),
    )
  ]

  -- The second loop passes, and the batch is sent, or nothing follows it.
  sends_or_ends :
      (ops : AbiOps g) (s : State g)
      → (((simulate_ops g 0 ops s).0 ≡ done none)
          × (submit g (ok ops) s ≡ send g ops (simulate_ops g 0 ops s).1))
        ⊎ ((submit g (ok ops) s).1.node ≡ (simulate_ops g 0 ops s).1.node)
  unfolding submit
  sends_or_ends ops s = elim (Outcome-cases (simulate_ops g 0 ops s).0) [
    | inl (r, e) ↦ elim (Option-cases r) [
      | inl f ↦ inl (e ∙ ap done f, ground arith)
      | inr (m, f) ↦ inr (ground arith)
    ]
    | inr other ↦ inr (ground arith)
  ]

  submit-CallsFor : (ops : AbiOps g) (s : State g) → CallsFor ops s (submit g (ok ops) s).1
  submit-CallsFor ops s =
      let sims = simulate_ops-Simulates g ops 0 s in
      let u : State g = (simulate_ops g 0 ops s).1 in
      elim (sends_or_ends ops s) [
        | inl (e, same) ↦
            let all =
              subst (λ l. Runs g s.node (map (simulation g) l) u.node) (sims.complete e)
                sims.runs in
            subst (λ (x : Outcome Response × State g). CallsFor ops s x.1) (sym same)
              (send-CallsFor ops s u all)
        | inr same ↦ (
          map (simulation g) sims.before,
          subst (λ m. Runs g s.node (map (simulation g) sims.before) m) (sym same) sims.runs,
          simulating sims.before sims.after sims.split,
        )
      ]

  -- What the operations of a request parse to, and the calls for them.
  abbrev Calls : List UserOperation → State g → State g → Type 0
  Calls uos s t = (t.node ≡ s.node) ⊎ ((ops : AbiOps g) × (Parsed g uos ops) × CallsFor ops s t)

  process-Calls : (uos : List UserOperation) (s : State g) → Calls uos s (process g uos s).1
  unfolding process
  process-Calls [] s = inl refl
  process-Calls (uo ∷ uos) s = elim (Outcome-cases (parse_ops g 0 (uo ∷ uos))) [
    | inl (r, e) ↦ elim (Result-cases r) [
      | inl (ops, f) ↦
          let same : submit g (ok ops) s ≡ process g (uo ∷ uos) s = ground arith in
          inr (
            ops,
            (parse_ops_ok_iff g 0 (uo ∷ uos) ops).0 (e ∙ ap done f),
            subst (λ (x : Outcome Response × State g). CallsFor ops s x.1) same
                (submit-CallsFor ops s),
          )
      | inr (m, f) ↦ inl (unfold submit in ground arith)
    ]
    | inr other ↦ inl (ground arith)
  ]

  -- Whatever a request holds and however it ends, also where it panics, `HandleOps` leaves the node
  -- as it was, or the body decoded and all its operations parsed, and the node is where these calls
  -- of `Transact` take it: simulations with `NoSend` set of the operations from the first on, in
  -- their order; and only after all of them, at most one call of `handleOps` with the whole batch.
  pub handle_ops-Calls :
      (request : Request) (s : State g)
      → ((handle_ops g request s).1.node ≡ s.node)
        ⊎ ((req : HandleOpsRequest) × (ops : AbiOps g) × (unmarshal_request request.body ≡ ok req)
            × Parsed g req.user_operations ops
            × CallsFor ops s (handle_ops g request s).1)
  unfolding handle_ops
  handle_ops-Calls request s = elim (Result-cases (unmarshal_request request.body)) [
    | inl (req, e) ↦
        let same : process g req.user_operations s ≡ handle_ops g request s = ground arith in
        elim (process-Calls req.user_operations s) [
          | inl k ↦ inl (ap (λ (x : Outcome Response × State g). x.1.node) (sym same) ∙ k)
          | inr (ops, p, c) ↦ inr (
            req,
            ops,
            e,
            p,
            subst (λ (x : Outcome Response × State g). CallsFor ops s x.1) same c,
          )
        ]
    | inr (m, e) ↦ inl (ground arith)
  ]
