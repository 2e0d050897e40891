-- ===== src/Tests/Bodies.antt =====
-- Bodies of answers, read as JSON.
use pay_gas_x.Base.{◌≡◌, refl, ◌↔◌, [], ◌∷◌, none, some, text, All}
use pay_gas_x.GoLib.Json.{read_object, read_members, read_string, read_pieces, runes}
use pay_gas_x.GoLib.Json.Plain.{IsPlain}
use pay_gas_x.Controller.Responses.{handled, error_resp, success_resp}
use pay_gas_x.Controller.Bodies.{error_resp_body_iff, success_resp-members}

-- The error of `json.Unmarshal` for the body `"` is one that breaks the body of the answer.
quoted_error :
    read_object (error_resp 400 (text "invalid character '\"' after object key")).body ≡ none
unfolding error_resp read_object read_members read_string read_pieces runes
quoted_error = refl

error_resp_body_iff_example :
    (read_object (error_resp 400 (text "no user operations")).body
      ≡ some ((text "message", text "no user operations") ∷ []))
    ↔ All IsPlain (text "no user operations")
error_resp_body_iff_example = error_resp_body_iff 400 (text "no user operations")

success_resp-members_example :
    ((success_resp (handled (record { tx_hash = text "0x<1>" }))).status_code ≡ 200)
    × (read_object (success_resp (handled (record { tx_hash = text "0x<1>" }))).body
        ≡ some ((text "tx_hash", text "0x<1>") ∷ []))
success_resp-members_example = success_resp-members (handled (record { tx_hash = text "0x<1>" }))
