-- ===== src/Controller/Request/RoundTrip.antt =====
-- A body for `HandleOps` of bundler/src/controller/main.go, as `json.Marshal` writes it.
use pay_gas_x.Base.{
  List-cases, inl, inr, ◌≤◌, ◌≡◌, refl, ◌∙◌, ap, List, [], ◌∷◌, Option, none, some, Text, text, ok,
  arith,
}
use pay_gas_x.GoLib.JsonValue.{
  Json, Items, null, string, array, object, no_items, item, no_members, member,
}
use pay_gas_x.GoLib.Print.{print, depth, HasNoNumber, depth_items, HaveNoNumber}
use pay_gas_x.GoLib.Scanner.{read_json}
use pay_gas_x.GoLib.Scanner.RoundTrip.{read_json-print}
use pay_gas_x.GoLib.Decode.{
  Context, decode_string, decode_pointer, decode_slice, decode_struct, field_of, store_items,
  store_members,
}
use pay_gas_x.Controller.Types.{UserOperation, HandleOpsRequest}
use pay_gas_x.Controller.Request.{
  zero_operation, string_pointer, decode_operation, decode_request, stored, decode_read,
  unmarshal_request,
}

abbrev optional : Option Text → Json
optional none = null
optional (some s) = string s

abbrev operation_json : UserOperation → Json
operation_json u = object (
    member (text "sender") (optional u.sender) (
      member (text "nonce") (optional u.nonce) (
        member (text "init_code") (optional u.init_code) (
          member (text "call_data") (optional u.call_data) (
            member (text "call_gas") (optional u.call_gas) (
              member (text "verification_gas") (optional u.verification_gas) (
                member (text "pre_verification_gas") (optional u.pre_verification_gas) (
                  member (text "max_fee_per_gas") (optional u.max_fee_per_gas) (
                    member (text "max_priority_fee_per_gas") (optional u.max_priority_fee_per_gas) (
                      member (text "paymaster") (optional u.paymaster) (
                        member (text "paymaster_data") (optional u.paymaster_data)
                          (member (text "signature") (optional u.signature) no_members))))))))))))

abbrev operations_json : List UserOperation → Items
operations_json [] = no_items
operations_json (u ∷ us) = item (operation_json u) (operations_json us)

abbrev pub request_json : HandleOpsRequest → Json
request_json r =
    object (member (text "user_operations") (array (operations_json r.user_operations)) no_members)

-- The body that a client sends for the request.
unfoldable pub marshal_request : HandleOpsRequest → Text
marshal_request r = print (request_json r)

decode_optional :
    (c : Option Context) (o : Option Text) → string_pointer c (optional o) none ≡ (o, none)
unfolding decode_pointer decode_string
decode_optional c none = refl
decode_optional c (some s) = refl

decode_operation_json :
    (c : Option Context) (u : UserOperation)
    → decode_operation c (operation_json u) zero_operation ≡ (u, none)
unfolding decode_struct store_members field_of
decode_operation_json c u = simp decode_optional

operations_decoded :
    (c : Option Context) (us : List UserOperation)
    → store_items zero_operation decode_operation c (operations_json us) []
      ≡ (record { elements = us; stale = [] }, none)
unfolding store_items
operations_decoded c [] = refl
operations_decoded c (u ∷ us) = simp (decode_operation_json c u, operations_decoded c us)

request_decoded :
    (r : HandleOpsRequest)
    → decode_request none (request_json r) (record { elements = []; stale = [] })
      ≡ (record { elements = r.user_operations; stale = [] }, none)
unfolding decode_request decode_struct store_members field_of decode_slice
request_decoded r = elim (List-cases r.user_operations) [
  | inl e ↦ rw e refl
  | inr (u, us, e) ↦ rw e (simp (operations_decoded _ (u ∷ us)))
]

depth-optional : (o : Option Text) → depth (optional o) ≡ 0
unfolding depth
depth-optional none = refl
depth-optional (some s) = refl

depth-operation_json : (u : UserOperation) → depth (operation_json u) ≡ 1
unfolding depth
depth-operation_json u = simp depth-optional

depth-operations_json : (us : List UserOperation) → depth_items (operations_json us) ≤ 1
unfolding depth
depth-operations_json [] = omega arith
depth-operations_json (u ∷ us) = omega (arith, depth-operation_json u, depth-operations_json us)

optional-HasNoNumber : (o : Option Text) → HasNoNumber (optional o)
unfolding HasNoNumber
optional-HasNoNumber none = tt
optional-HasNoNumber (some s) = tt

operation-HasNoNumber : (u : UserOperation) → HasNoNumber (operation_json u)
unfolding HasNoNumber
operation-HasNoNumber u = (
  optional-HasNoNumber u.sender,
  (
    optional-HasNoNumber u.nonce,
    (
      optional-HasNoNumber u.init_code,
      (
        optional-HasNoNumber u.call_data,
        (
          optional-HasNoNumber u.call_gas,
          (
            optional-HasNoNumber u.verification_gas,
            (
              optional-HasNoNumber u.pre_verification_gas,
              (
                optional-HasNoNumber u.max_fee_per_gas,
                (
                  optional-HasNoNumber u.max_priority_fee_per_gas,
                  (
                    optional-HasNoNumber u.paymaster,
                    (optional-HasNoNumber u.paymaster_data, (optional-HasNoNumber u.signature, tt)),
                  ),
                ),
              ),
            ),
          ),
        ),
      ),
    ),
  ),
)

operations-HaveNoNumber : (us : List UserOperation) → HaveNoNumber (operations_json us)
unfolding HasNoNumber
operations-HaveNoNumber [] = tt
operations-HaveNoNumber (u ∷ us) = (operation-HasNoNumber u, operations-HaveNoNumber us)

pub request_is_read :
    (r : HandleOpsRequest) → read_json (print (request_json r)) ≡ ok (request_json r)
unfolding depth HasNoNumber
request_is_read r =
    let l : depth (request_json r) ≤ 10000 =
      omega (arith, depth-operations_json r.user_operations) in
    let n : HasNoNumber (request_json r) = (operations-HaveNoNumber r.user_operations, tt) in
    read_json-print (request_json r) n l

-- A request that is written is read as it was, fields that are missing included.
pub unmarshal_request-marshal_request :
    (r : HandleOpsRequest) → unmarshal_request (marshal_request r) ≡ ok r
unfolding unmarshal_request decode_read marshal_request
unmarshal_request-marshal_request r =
    ap decode_read (request_is_read r) ∙ ap stored (request_decoded r)
