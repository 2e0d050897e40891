-- ===== src/Tests/Server.antt =====
-- The routes and the life of the Lambda over the small chain.
use pay_gas_x.Base.{◌≡◌, refl, [], ◌∷◌, text, done, arith}
use pay_gas_x.Host.{State}
use pay_gas_x.Eth.Frame.{SameGlobals}
use pay_gas_x.Controller.Types.{Response}
use pay_gas_x.Controller.Responses.{error_resp}
use pay_gas_x.Server.{handler, not_found}
use pay_gas_x.Server.Laws.{Served, start, answer, refused_keeps_node, Served-SameGlobals}
use pay_gas_x.Tests.Instances.{toy, ready, good, unsigned, sprint, post}
use pay_gas_x.Tests.Laws.{toy-NoSend}
use pay_gas_x.Tests.Runs.{serves}

abbrev warned : State toy
warned = record ready { log = text "Simulation failed. Error: account: wrong signature" ∷ [] }

abbrev refusal : Response
refusal = error_resp 400 (text "failed to simulate user operation #1: account: wrong signature")

refused_keeps_node_example : warned.node ≡ ready.node
unfolding error_resp
refused_keeps_node_example =
    refused_keeps_node toy sprint toy-NoSend (post (good ∷ unsigned ∷ [])) ready warned refusal
      (unfold serves in refl) (omega arith) (omega arith)

two_requests :
    Served toy sprint ready
      (handler toy sprint
        (post (good ∷ []))
        (handler toy sprint (post (good ∷ unsigned ∷ [])) ready).1).1
two_requests = answer (post (good ∷ [])) (answer (post (good ∷ unsigned ∷ [])) start)

Served-SameGlobals_example :
    SameGlobals ready
      (handler toy sprint
        (post (good ∷ []))
        (handler toy sprint (post (good ∷ unsigned ∷ [])) ready).1).1
Served-SameGlobals_example = Served-SameGlobals toy sprint ready two_requests

unknown_path :
    serves (record { path_parameters = (text "proxy", text "x") ∷ []; body = text "b" }) ready
    ≡ (done (not_found (text "b")), ready)
unfolding serves
unknown_path = refl
