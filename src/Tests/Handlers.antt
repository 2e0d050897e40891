-- ===== src/Tests/Handlers.antt =====
-- The handlers over the small chain.
use pay_gas_x.Base.{ℕ, ◌≡◌, refl, ◌⊎◌, ◌↔◌, List, [], ◌∷◌, ◌++◌, none, Text, text, ok, err, done}
use pay_gas_x.Host.{State}
use pay_gas_x.Abi.Types.{UserOperation}
use pay_gas_x.Controller.Types.{HandleOpsRequest, Response}
use pay_gas_x.Controller.Request.{unmarshal_request}
use pay_gas_x.Controller.Responses.{error_resp, success_resp, handled}
use pay_gas_x.Controller.Handlers.{parse_failed, simulation_failed, simulate_ops, handle_ops}
use pay_gas_x.Controller.Handlers.Parse.{Parsed, FirstFailure, parse_ops_names_first}
use pay_gas_x.Controller.Handlers.Simulation.{
  Simulated, FirstRejected, simulate_ops-none_iff, simulate_ops_names_first,
}
use pay_gas_x.Controller.Handlers.Answers.{Answers, handle_ops-Answers}
use pay_gas_x.Controller.Handlers.Success.{Succeeds, handle_ops-Succeeds}
use pay_gas_x.Controller.Handlers.Calls.{CallsFor, handle_ops-Calls}
use pay_gas_x.Tests.Instances.{toy, ready, operation, good, unsigned, garbled, post}
use pay_gas_x.Tests.Laws.{toy-NoSend}
use pay_gas_x.Tests.Runs.{handles}

abbrev answer : Response
answer = success_resp (handled (record { tx_hash = text "handleOpsk" }))

abbrev after : State toy
after = record ready { node = 1 }

handle_ops-Succeeds_example : Succeeds toy toy-NoSend (post (good ∷ [])) ready after answer
unfolding success_resp
handle_ops-Succeeds_example =
    handle_ops-Succeeds toy toy-NoSend (post (good ∷ [])) ready after answer
      (unfold handles in refl) refl

handle_ops-Answers_example :
    ((e : Text) × (unmarshal_request (post (good ∷ unsigned ∷ [])).body ≡ err e)
      × (error_resp 400 (text "failed to simulate user operation #1: account: wrong signature")
          ≡ error_resp 400 (text "failed to parse request body: " ++ e))
      × (record ready { log = text "Simulation failed. Error: account: wrong signature" ∷ [] }
          ≡ ready))
    ⊎ ((req : HandleOpsRequest) × (unmarshal_request (post (good ∷ unsigned ∷ [])).body ≡ ok req)
        × Answers toy ready req.user_operations
            (error_resp 400 (text "failed to simulate user operation #1: account: wrong signature"))
            (record ready { log = text "Simulation failed. Error: account: wrong signature" ∷ [] }))
handle_ops-Answers_example =
    handle_ops-Answers toy (post (good ∷ unsigned ∷ [])) ready
      (record ready { log = text "Simulation failed. Error: account: wrong signature" ∷ [] })
      (error_resp 400 (text "failed to simulate user operation #1: account: wrong signature"))
      (unfold handles in refl)

abbrev call_data_error : Text
call_data_error = text "failed to parse call data: illegal base64 data at input byte 0"

parse_ops_names_first_example :
    (k : ℕ) × (e : Text) × FirstFailure toy (good ∷ garbled ∷ []) k e
    × (parse_failed toy 1 call_data_error ≡ parse_failed toy k e)
parse_ops_names_first_example =
    parse_ops_names_first toy (good ∷ garbled ∷ []) (unfold handles in refl)

abbrev warned : State toy
warned = record ready { log = text "Simulation failed. Error: account: wrong signature" ∷ [] }

abbrev two_ops : List (UserOperation Text)
two_ops = operation (2 ∷ []) ∷ operation [] ∷ []

simulate_ops-none_iff_example :
    (simulate_ops toy 0 two_ops ready ≡ (done none, ready)) ↔ Simulated toy ready two_ops ready
simulate_ops-none_iff_example = simulate_ops-none_iff toy 0 two_ops ready ready

simulate_ops_names_first_example :
    (k : ℕ) × (e : Text) × FirstRejected toy ready two_ops k e warned
    × (simulation_failed toy 1 (text "account: wrong signature") ≡ simulation_failed toy k e)
simulate_ops_names_first_example =
    simulate_ops_names_first toy two_ops ready warned (unfold handles in refl)

handle_ops-Calls_example :
    ((handle_ops toy (post (good ∷ unsigned ∷ [])) ready).1.node ≡ 0)
    ⊎ ((req : HandleOpsRequest) × (ops : List (UserOperation Text)) × (unmarshal_request
            (post (good ∷ unsigned ∷ [])).body
          ≡ ok req)
        × Parsed toy req.user_operations ops
        × CallsFor toy ops ready (handle_ops toy (post (good ∷ unsigned ∷ [])) ready).1)
handle_ops-Calls_example = handle_ops-Calls toy (post (good ∷ unsigned ∷ [])) ready
