-- ===== src/Tests/Json.antt =====
-- JSON read into the structs of a request.
use pay_gas_x.Base.{map, ◌≡◌, refl, ◌++◌, List, [], ◌∷◌, some, Text, text, Result, ok, err}
use pay_gas_x.GoLib.Json.{runes}
use pay_gas_x.GoLib.Scanner.{scan, read_json, run, at_eof}
use pay_gas_x.GoLib.Decode.{
  decode_string, decode_pointer, decode_slice, decode_struct, field_of, store_items, store_members,
  type_error,
}
use pay_gas_x.GoLib.JsonValue.{
  Members, null, number, string, array, object, no_items, item, no_members, member,
}
use pay_gas_x.Controller.Request.Meaning.{described, objects, unmarshal_request-described}
use pay_gas_x.Controller.Types.{HandleOpsRequest}
use pay_gas_x.Controller.Request.{zero_operation, decode_request, unmarshal_request}

abbrev unmarshal : Text → Result HandleOpsRequest
unfolding unmarshal_request read_json run scan at_eof decode_request decode_string decode_pointer
    decode_slice decode_struct field_of store_items store_members type_error runes
unmarshal = unmarshal_request

-- A key is matched whatever the case of its letters, and one that no field has is skipped.
folded :
    unmarshal (text "{ \"User_Operations\" : [{\"SENDER\": \"0\\u0078a\", \"x\": [-1.5e3, {}]}] }")
    ≡ ok (record { user_operations = record zero_operation { sender = some (text "0xa") } ∷ [] })
unfolding unmarshal
folded = refl

-- A second list is read into the elements of the first.
merged :
    unmarshal (
      text "{\"user_operations\":[{\"sender\":\"a\"},{\"nonce\":\"1\"}],"
      ++ text "\"user_operations\":[{\"nonce\":\"2\"}]}")
    ≡ ok (record {
      user_operations =
          record zero_operation { sender = some (text "a"); nonce = some (text "2") } ∷ [];
    })
unfolding unmarshal
merged = refl

truncated : unmarshal (text "{\"user_operations\":") ≡ err (text "unexpected end of JSON input")
unfolding unmarshal
truncated = refl

unquoted :
    unmarshal (text "{\"user_operations\":[{sender}]}")
    ≡ err (text "invalid character 's' looking for beginning of object key string")
unfolding unmarshal
unquoted = refl

mistyped :
    unmarshal (text "{\"user_operations\":[{\"nonce\":4}]}")
    ≡ err (
        text "json: cannot unmarshal number into Go struct field "
        ++ text "UserOperation.user_operations.nonce of type string")
unfolding unmarshal
mistyped = refl

no_list :
    unmarshal (text "[]")
    ≡ err (text "json: cannot unmarshal array into Go value of type controller.HandleOpsRequest")
unfolding unmarshal
no_list = refl

-- Two operations, with their members in any order, one of them twice and one of no field.
abbrev described_body : Text
described_body =
    text "{\"User_operations\": [{\"signature\":\"AQ==\",\"Nonce\":\"1\",\"extra\":[7],"
    ++ text "\"nonce\":\"2\",\"sender\":null}, {}]}"

abbrev described_objects : List Members
described_objects =
    member (text "signature") (string (text "AQ==")) (
      member (text "Nonce") (string (text "1")) (
        member (text "extra") (array (item (number (text "7")) no_items))
          (member (text "nonce") (string (text "2")) (member (text "sender") null no_members))))
    ∷ no_members
    ∷ []

described_read :
    read_json described_body
    ≡ ok (object (member (text "User_operations") (array (objects described_objects)) no_members))
unfolding read_json run scan at_eof runes
described_read = refl

described_first :
    map described described_objects
    ≡ record zero_operation { nonce = some (text "2"); signature = some (text "AQ==") }
      ∷ zero_operation
      ∷ []
described_first = refl

unmarshal_request-described_example :
    unmarshal_request described_body
    ≡ ok (record { user_operations = map described described_objects })
unmarshal_request-described_example =
    unmarshal_request-described described_body (text "User_operations") described_objects
      described_read refl
      (
        (
          tt,
          (
            tt,
            (
              (
                refl,
                (
                  refl,
                  (
                    refl,
                    (refl, (refl, (refl, (refl, (refl, (refl, (refl, (refl, (refl, tt))))))))),
                  ),
                ),
              ),
              (tt, (tt, tt)),
            ),
          ),
        ),
        (tt, tt),
      )
