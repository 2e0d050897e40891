-- ===== src/Server/Laws.antt =====
-- The routes of bundler/src/main.go, and what a run of the Lambda keeps.
use pay_gas_x.Base.{
  ◌≡◌, ◌≢◌, refl, ◌⊎◌, ◌∙◌, ap, sym, inl, inr, Bool-cases, none, some, Option-cases, Text, text,
  text_eq, text_eq_iff, ne_of_text_eq, done, arith,
}
use pay_gas_x.Geth.{Geth}
use pay_gas_x.Host.{State}
use pay_gas_x.Eth.Frame.{NoSend, SameGlobals}
use pay_gas_x.Controller.Types.{Request, Response}
use pay_gas_x.Controller.Handlers.{healthz, handle_ops}
use pay_gas_x.Controller.Handlers.Frame.{handler-SameGlobals, healthz_keeps}
use pay_gas_x.Controller.Handlers.Safety.{handle_ops_refused}
use pay_gas_x.Server.{Sprint, lookup, bad_request, not_found, route, handler}

module _ (g : Geth) (sprint : Sprint) where
  -- Which handler a request reaches, by its path parameter `proxy`.
  abbrev Routes : Request → State g → Type 0
  Routes request s =
      ((lookup (text "proxy") request.path_parameters ≡ none)
        × (handler g sprint request s ≡ (done bad_request, s)))
      ⊎ (((lookup (text "proxy") request.path_parameters ≡ some (text "healthz"))
            × (handler g sprint request s ≡ healthz g request s))
          ⊎ (((lookup (text "proxy") request.path_parameters ≡ some (text "handle"))
                × (handler g sprint request s ≡ handle_ops g request s))
              ⊎ ((path : Text) × (lookup (text "proxy") request.path_parameters ≡ some path)
                  × (path ≢ text "healthz")
                  × (path ≢ text "handle")
                  × (handler g sprint request s ≡ (done (not_found (sprint request)), s)))))

  -- Every request takes one of four ways: without a path parameter the answer is 400, `healthz` and
  -- `handle` reach their handlers, and any other path is answered 404 with nothing changed.
  pub handler-Routes : (request : Request) (s : State g) → Routes request s
  unfolding handler route
  handler-Routes request s = elim (Option-cases (lookup (text "proxy") request.path_parameters)) [
    | inl e ↦ inl (e, ground arith)
    | inr (path, e) ↦ elim (Bool-cases (text_eq path (text "healthz"))) [
      | inl p ↦
          let q = (text_eq_iff path (text "healthz")).0 p in inr (inl (e ∙ ap some q, ground arith))
      | inr p ↦ elim (Bool-cases (text_eq path (text "handle"))) [
        | inl q ↦
            let r = (text_eq_iff path (text "handle")).0 q in
            inr (inr (inl (e ∙ ap some r, ground arith)))
        | inr q ↦ inr (
            inr (
              inr (
                path,
                e,
                ne_of_text_eq path (text "healthz") p,
                ne_of_text_eq path (text "handle") q,
                ground arith,
              )))
      ]
    ]
  ]

  -- No request changes the configuration or the client, whatever comes of it.
  pub answer-SameGlobals :
      (request : Request) (s : State g) → SameGlobals s (handler g sprint request s).1
  answer-SameGlobals request s = elim (handler-Routes request s) [
    | inl (e, p) ↦ ground arith
    | inr (inl (e, p)) ↦ ground (arith, healthz_keeps g request s)
    | inr (inr (inl (e, p))) ↦ ground (arith, handler-SameGlobals g request s)
    | inr (inr (inr (path, e, x, y, p))) ↦ ground arith
  ]

  -- An answer other than 200 and 500, to any request, leaves the node as it was, where `NoSend`
  -- keeps transactions from the node.
  pub refused_keeps_node :
      NoSend g
      → (request : Request) (s t : State g) (r : Response)
      → handler g sprint request s ≡ (done r, t)
      → r.status_code ≢ 200
      → r.status_code ≢ 500
      → t.node ≡ s.node
  refused_keeps_node law request s t r h x y = elim (handler-Routes request s) [
    | inl (e, p) ↦ ground arith
    | inr (inl (e, p)) ↦ ground (arith, healthz_keeps g request s)
    | inr (inr (inl (e, p))) ↦ handle_ops_refused g law request s t r (sym p ∙ h) x y
    | inr (inr (inr (path, e, _, _, p))) ↦ ground arith
  ]

  -- A state that the Lambda can reach from `s` by answering requests, one after the other.
  pub data Served (s : State g) : State g → Type 0 where
    start : Served s s
    answer :
        {t : State g} (request : Request) → Served s t → Served s (handler g sprint request t).1

  -- The configuration and the client stay the same for the whole life of the Lambda.
  pub Served-SameGlobals : (s : State g) {t : State g} → Served s t → SameGlobals s t
  Served-SameGlobals s start = record { same_config = refl; same_client = refl }
  Served-SameGlobals s (answer {t = t} request h) =
      ground (arith, Served-SameGlobals s h, answer-SameGlobals request t)
