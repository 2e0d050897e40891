-- ===== src/Abi/Signatures/Functions.antt =====
-- The functions that the ABIs of bundler/src/abi/entrypoint.go and erc20.go declare.
use pay_gas_x.Base.{◌++◌, ◌≡◌, refl, List, [], ◌∷◌, Text, text}
use pay_gas_x.GoLib.Json.{runes}
use pay_gas_x.GoLib.Scanner.{scan, run, at_eof, read_json}
use pay_gas_x.Abi.EntryPoint.Metadata.{entry_point_abi}
use pay_gas_x.Abi.Erc20.Metadata.{erc20_abi}
use pay_gas_x.Abi.Signatures.{functions, user_operation_type, user_op_info_type, deposit_info_type}

abbrev pub entry_point_functions : List (Text × Text)
entry_point_functions =
    (text "addStake(uint32)", text "()")
    ∷ (text "balanceOf(address)", text "(uint256)")
    ∷ (text "create2factory()", text "(address)")
    ∷ (text "depositTo(address)", text "()")
    ∷ (text "deposits(address)", text "(uint112,bool,uint112,uint32,uint64)")
    ∷ (text "getDepositInfo(address)", text "(" ++ deposit_info_type ++ text ")")
    ∷ (text "getRequestId(" ++ user_operation_type ++ text ")", text "(bytes32)")
    ∷ (text "getSenderAddress(bytes,uint256)", text "(address)")
    ∷ (text "getSenderStorage(address)", text "(uint256[])")
    ∷ (text "handleOps(" ++ user_operation_type ++ text "[],address)", text "()")
    ∷ (
      text "innerHandleOp("
          ++ user_operation_type
          ++ text ","
          ++ user_op_info_type
          ++ text ",bytes)",
      text "(uint256)",
    )
    ∷ (text "paymasterStake()", text "(uint256)")
    ∷ (text "simulateValidation(" ++ user_operation_type ++ text ")", text "(uint256,uint256)")
    ∷ (text "unlockStake()", text "()")
    ∷ (text "unstakeDelaySec()", text "(uint32)")
    ∷ (text "withdrawStake(address)", text "()")
    ∷ (text "withdrawTo(address,uint256)", text "()")
    ∷ []

pub entry_point_declared : functions entry_point_abi ≡ entry_point_functions
unfolding functions read_json run scan at_eof runes entry_point_abi
entry_point_declared = refl

abbrev pub erc20_functions : List (Text × Text)
erc20_functions =
    (text "name()", text "(string)")
    ∷ (text "approve(address,uint256)", text "(bool)")
    ∷ (text "totalSupply()", text "(uint256)")
    ∷ (text "transferFrom(address,address,uint256)", text "(bool)")
    ∷ (text "decimals()", text "(uint8)")
    ∷ (text "balanceOf(address)", text "(uint256)")
    ∷ (text "symbol()", text "(string)")
    ∷ (text "transfer(address,uint256)", text "(bool)")
    ∷ (text "allowance(address,address)", text "(uint256)")
    ∷ []

pub erc20_declared : functions erc20_abi ≡ erc20_functions
unfolding functions read_json run scan at_eof runes erc20_abi
erc20_declared = refl
