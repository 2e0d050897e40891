-- ===== src/Controller/Request/Meaning.antt =====
-- What a body for `HandleOps` of bundler/src/controller/main.go means.
use pay_gas_x.Base.{◌≡◌, refl, ◌∙◌, ap, All, List, [], ◌∷◌, Option, none, Text, text, map, ok}
use pay_gas_x.GoLib.JsonValue.{Items, Members, array, object, no_items, item, no_members, member}
use pay_gas_x.GoLib.Scanner.{read_json}
use pay_gas_x.GoLib.Decode.{Context, decode_struct, decode_slice, store_items, store_members}
use pay_gas_x.GoLib.Decode.Names.{folded, only_member}
use pay_gas_x.Controller.Types.{UserOperation}
use pay_gas_x.Controller.Request.{
  zero_operation, decode_operation, decode_request, decode_read, stored, unmarshal_request,
}
use pay_gas_x.Controller.Request.Operation.{operation_of, AllFit, members_stored}

-- The operation of an object: of each field, the last member of its name.
abbrev pub described : Members → UserOperation
described members = operation_of members zero_operation

abbrev pub objects : List Members → Items
objects [] = no_items
objects (members ∷ rest) = item (object members) (objects rest)

operation_decoded :
    (c : Option Context) (members : Members)
    → AllFit members
    → decode_operation c (object members) zero_operation ≡ (described members, none)
unfolding decode_struct
operation_decoded c members h = members_stored c members zero_operation h

operations_decoded :
    (c : Option Context) (os : List Members)
    → All AllFit os
    → store_items zero_operation decode_operation c (objects os) []
      ≡ (record { elements = map described os; stale = [] }, none)
unfolding store_items
operations_decoded c [] h = refl
operations_decoded c (members ∷ os) (h, hs) =
    simp (operation_decoded c members h, operations_decoded c os hs)

slice_decoded :
    (c : Option Context) (os : List Members)
    → All AllFit os
    → decode_slice zero_operation decode_operation
        (text "[]controller.UserOperation")
        c
        (array (objects os))
        (record { elements = []; stale = [] })
      ≡ (record { elements = map described os; stale = [] }, none)
unfolding decode_slice
slice_decoded c [] h = refl
slice_decoded c (members ∷ os) h = operations_decoded c (members ∷ os) h

request_decoded :
    (key : Text) (os : List Members)
    → folded key ≡ text "user_operations"
    → All AllFit os
    → decode_request none
        (object (member key (array (objects os)) no_members))
        (record { elements = []; stale = [] })
      ≡ (record { elements = map described os; stale = [] }, none)
unfolding decode_request decode_struct store_members
request_decoded key os e h =
    only_member (text "HandleOpsRequest") none key _ _ _ e ∙ slice_decoded _ os h

-- A body that is an object with one member, named user_operations in any case of its letters, which
-- is an array of objects, is a request with one operation for each of them, in their order. Each
-- field of an operation is the last member of its tag, in any case of its letters, and nil where that
-- is null or where there is none. The objects may have any members of other names. Members named by
-- a tag are null or strings.
pub unmarshal_request-described :
    (body key : Text) (os : List Members)
    → read_json body ≡ ok (object (member key (array (objects os)) no_members))
    → folded key ≡ text "user_operations"
    → All AllFit os
    → unmarshal_request body ≡ ok (record { user_operations = map described os })
unfolding unmarshal_request decode_read
unmarshal_request-described body key os r e h =
    ap decode_read r ∙ ap stored (request_decoded key os e h)
