-- ===== src/Tests/Signatures.antt =====
-- The bindings against their ABIs, over the small chain.
use pay_gas_x.Base.{◌≡◌, [], ◌∷◌, Text, none, some, text}
use pay_gas_x.Abi.Types.{address, big_int}
use pay_gas_x.Abi.EntryPoint.Metadata.{entry_point_abi}
use pay_gas_x.Abi.Signatures.{signature, outputs_of}
use pay_gas_x.Abi.Signatures.Functions.{entry_point_declared}
use pay_gas_x.Abi.Signatures.Declared.{outputs_declared}
use pay_gas_x.Abi.Signatures.EntryPoint as EntryPoint
use pay_gas_x.Abi.Signatures.Erc20 as Erc20
use pay_gas_x.Base.Int.{pos}

-- Arguments in another order are those of no function.
misplaced :
    outputs_of entry_point_abi (
      signature {A = Text} (text "withdrawTo") (big_int (some (pos 1)) ∷ address (text "0xa") ∷ []))
    ≡ none
misplaced = outputs_declared entry_point_abi entry_point_declared _
