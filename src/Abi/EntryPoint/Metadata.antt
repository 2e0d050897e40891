-- ===== src/Abi/EntryPoint/Metadata.antt =====
-- The ABI of the contract EntryPoint, the text of `EntryPointMetaData.ABI` in
-- bundler/src/abi/entrypoint.go.
use pay_gas_x.Base.{Text, String, text, List, [], ◌∷◌, ◌++◌}

-- The lines of the text, which stands on one line in the source.
concat : List String → Text
concat [] = []
concat (s ∷ ss) = text s ++ concat ss

abbrev part_1 : List String
part_1 =
    "[{\"inputs\":[{\"internalType\":\"address\",\"name\":\"_create2factory\",\"type\":"
    ∷ "\"address\"},{\"internalType\":\"uint256\",\"name\":\"_paymasterStake\",\"type\":"
    ∷ "\"uint256\"},{\"internalType\":\"uint32\",\"name\":\"_unstakeDelaySec\",\"type\":"
    ∷ "\"uint32\"}],\"stateMutability\":\"nonpayable\",\"type\":\"constructor\"},{"
    ∷ "\"inputs\":[{\"internalType\":\"uint256\",\"name\":\"opIndex\",\"type\":\"uint256\"}"
    ∷ ",{\"internalType\":\"address\",\"name\":\"paymaster\",\"type\":\"address\"},{"
    ∷ "\"internalType\":\"string\",\"name\":\"reason\",\"type\":\"string\"}],\"name\":"
    ∷ "\"FailedOp\",\"type\":\"error\"},{\"anonymous\":false,\"inputs\":[{\"indexed\":true,"
    ∷ "\"internalType\":\"address\",\"name\":\"account\",\"type\":\"address\"},{\"indexed\""
    ∷ ":false,\"internalType\":\"uint256\",\"name\":\"totalDeposit\",\"type\":\"uint256\"}]"
    ∷ ",\"name\":\"Deposited\",\"type\":\"event\"},{\"anonymous\":false,\"inputs\":[{"
    ∷ "\"indexed\":true,\"internalType\":\"address\",\"name\":\"account\",\"type\":"
    ∷ "\"address\"},{\"indexed\":false,\"internalType\":\"uint256\",\"name\":"
    ∷ "\"totalStaked\",\"type\":\"uint256\"},{\"indexed\":false,\"internalType\":"
    ∷ "\"uint256\",\"name\":\"withdrawTime\",\"type\":\"uint256\"}],\"name\":"
    ∷ "\"StakeLocked\",\"type\":\"event\"},{\"anonymous\":false,\"inputs\":[{\"indexed\":tr"
    ∷ "ue,\"internalType\":\"address\",\"name\":\"account\",\"type\":\"address\"},{"
    ∷ "\"indexed\":false,\"internalType\":\"uint256\",\"name\":\"withdrawTime\",\"type\":"
    ∷ "\"uint256\"}],\"name\":\"StakeUnlocked\",\"type\":\"event\"},{\"anonymous\":false,"
    ∷ "\"inputs\":[{\"indexed\":true,\"internalType\":\"address\",\"name\":\"account\","
    ∷ "\"type\":\"address\"},{\"indexed\":false,\"internalType\":\"address\",\"name\":"
    ∷ "\"withdrawAddress\",\"type\":\"address\"},{\"indexed\":false,\"internalType\":"
    ∷ "\"uint256\",\"name\":\"amount\",\"type\":\"uint256\"}],\"name\":\"StakeWithdrawn\","
    ∷ "\"type\":\"event\"},{\"anonymous\":false,\"inputs\":[{\"indexed\":true,"
    ∷ "\"internalType\":\"bytes32\",\"name\":\"requestId\",\"type\":\"bytes32\"},{"
    ∷ "\"indexed\":true,\"internalType\":\"address\",\"name\":\"sender\",\"type\":"
    ∷ "\"address\"},{\"indexed\":true,\"internalType\":\"address\",\"name\":\"paymaster\","
    ∷ "\"type\":\"address\"},{\"indexed\":false,\"internalType\":\"uint256\",\"name\":"
    ∷ "\"nonce\",\"type\":\"uint256\"},{\"indexed\":false,\"internalType\":\"uint256\","
    ∷ "\"name\":\"actualGasCost\",\"type\":\"uint256\"},{\"indexed\":false,\"internalType\"" ∷ []

abbrev part_2 : List String
part_2 =
    ":\"uint256\",\"name\":\"actualGasPrice\",\"type\":\"uint256\"},{\"indexed\":false,"
    ∷ "\"internalType\":\"bool\",\"name\":\"success\",\"type\":\"bool\"}],\"name\":"
    ∷ "\"UserOperationEvent\",\"type\":\"event\"},{\"anonymous\":false,\"inputs\":[{"
    ∷ "\"indexed\":true,\"internalType\":\"bytes32\",\"name\":\"requestId\",\"type\":"
    ∷ "\"bytes32\"},{\"indexed\":true,\"internalType\":\"address\",\"name\":\"sender\","
    ∷ "\"type\":\"address\"},{\"indexed\":false,\"internalType\":\"uint256\",\"name\":"
    ∷ "\"nonce\",\"type\":\"uint256\"},{\"indexed\":false,\"internalType\":\"bytes\","
    ∷ "\"name\":\"revertReason\",\"type\":\"bytes\"}],\"name\":"
    ∷ "\"UserOperationRevertReason\",\"type\":\"event\"},{\"anonymous\":false,\"inputs\":[{"
    ∷ "\"indexed\":true,\"internalType\":\"address\",\"name\":\"account\",\"type\":"
    ∷ "\"address\"},{\"indexed\":false,\"internalType\":\"address\",\"name\":"
    ∷ "\"withdrawAddress\",\"type\":\"address\"},{\"indexed\":false,\"internalType\":"
    ∷ "\"uint256\",\"name\":\"amount\",\"type\":\"uint256\"}],\"name\":\"Withdrawn\","
    ∷ "\"type\":\"event\"},{\"inputs\":[{\"internalType\":\"uint32\",\"name\":"
    ∷ "\"_unstakeDelaySec\",\"type\":\"uint32\"}],\"name\":\"addStake\",\"outputs\":[],"
    ∷ "\"stateMutability\":\"payable\",\"type\":\"function\"},{\"inputs\":[{"
    ∷ "\"internalType\":\"address\",\"name\":\"account\",\"type\":\"address\"}],\"name\":"
    ∷ "\"balanceOf\",\"outputs\":[{\"internalType\":\"uint256\",\"name\":\"\",\"type\":"
    ∷ "\"uint256\"}],\"stateMutability\":\"view\",\"type\":\"function\"},{\"inputs\":[],"
    ∷ "\"name\":\"create2factory\",\"outputs\":[{\"internalType\":\"address\",\"name\":\"\""
    ∷ ",\"type\":\"address\"}],\"stateMutability\":\"view\",\"type\":\"function\"},{"
    ∷ "\"inputs\":[{\"internalType\":\"address\",\"name\":\"account\",\"type\":\"address\"}"
    ∷ "],\"name\":\"depositTo\",\"outputs\":[],\"stateMutability\":\"payable\",\"type\":"
    ∷ "\"function\"},{\"inputs\":[{\"internalType\":\"address\",\"name\":\"\",\"type\":"
    ∷ "\"address\"}],\"name\":\"deposits\",\"outputs\":[{\"internalType\":\"uint112\","
    ∷ "\"name\":\"deposit\",\"type\":\"uint112\"},{\"internalType\":\"bool\",\"name\":"
    ∷ "\"staked\",\"type\":\"bool\"},{\"internalType\":\"uint112\",\"name\":\"stake\","
    ∷ "\"type\":\"uint112\"},{\"internalType\":\"uint32\",\"name\":\"unstakeDelaySec\","
    ∷ "\"type\":\"uint32\"},{\"internalType\":\"uint64\",\"name\":\"withdrawTime\",\"type\""
    ∷ ":\"uint64\"}],\"stateMutability\":\"view\",\"type\":\"function\"},{\"inputs\":[{" ∷ []

abbrev part_3 : List String
part_3 =
    "\"internalType\":\"address\",\"name\":\"account\",\"type\":\"address\"}],\"name\":"
    ∷ "\"getDepositInfo\",\"outputs\":[{\"components\":[{\"internalType\":\"uint112\","
    ∷ "\"name\":\"deposit\",\"type\":\"uint112\"},{\"internalType\":\"bool\",\"name\":"
    ∷ "\"staked\",\"type\":\"bool\"},{\"internalType\":\"uint112\",\"name\":\"stake\","
    ∷ "\"type\":\"uint112\"},{\"internalType\":\"uint32\",\"name\":\"unstakeDelaySec\","
    ∷ "\"type\":\"uint32\"},{\"internalType\":\"uint64\",\"name\":\"withdrawTime\",\"type\""
    ∷ ":\"uint64\"}],\"internalType\":\"structStakeManager.DepositInfo\",\"name\":\"info\","
    ∷ "\"type\":\"tuple\"}],\"stateMutability\":\"view\",\"type\":\"function\"},{\"inputs\""
    ∷ ":[{\"components\":[{\"internalType\":\"address\",\"name\":\"sender\",\"type\":"
    ∷ "\"address\"},{\"internalType\":\"uint256\",\"name\":\"nonce\",\"type\":\"uint256\"},"
    ∷ "{\"internalType\":\"bytes\",\"name\":\"initCode\",\"type\":\"bytes\"},{"
    ∷ "\"internalType\":\"bytes\",\"name\":\"callData\",\"type\":\"bytes\"},{"
    ∷ "\"internalType\":\"uint256\",\"name\":\"callGas\",\"type\":\"uint256\"},{"
    ∷ "\"internalType\":\"uint256\",\"name\":\"verificationGas\",\"type\":\"uint256\"},{"
    ∷ "\"internalType\":\"uint256\",\"name\":\"preVerificationGas\",\"type\":\"uint256\"},{"
    ∷ "\"internalType\":\"uint256\",\"name\":\"maxFeePerGas\",\"type\":\"uint256\"},{"
    ∷ "\"internalType\":\"uint256\",\"name\":\"maxPriorityFeePerGas\",\"type\":\"uint256\"}"
    ∷ ",{\"internalType\":\"address\",\"name\":\"paymaster\",\"type\":\"address\"},{"
    ∷ "\"internalType\":\"bytes\",\"name\":\"paymasterData\",\"type\":\"bytes\"},{"
    ∷ "\"internalType\":\"bytes\",\"name\":\"signature\",\"type\":\"bytes\"}],"
    ∷ "\"internalType\":\"structUserOperation\",\"name\":\"userOp\",\"type\":\"tuple\"}],"
    ∷ "\"name\":\"getRequestId\",\"outputs\":[{\"internalType\":\"bytes32\",\"name\":\"\","
    ∷ "\"type\":\"bytes32\"}],\"stateMutability\":\"view\",\"type\":\"function\"},{"
    ∷ "\"inputs\":[{\"internalType\":\"bytes\",\"name\":\"initCode\",\"type\":\"bytes\"},{"
    ∷ "\"internalType\":\"uint256\",\"name\":\"salt\",\"type\":\"uint256\"}],\"name\":"
    ∷ "\"getSenderAddress\",\"outputs\":[{\"internalType\":\"address\",\"name\":\"\","
    ∷ "\"type\":\"address\"}],\"stateMutability\":\"view\",\"type\":\"function\"},{"
    ∷ "\"inputs\":[{\"internalType\":\"address\",\"name\":\"sender\",\"type\":\"address\"}]"
    ∷ ",\"name\":\"getSenderStorage\",\"outputs\":[{\"internalType\":\"uint256[]\",\"name\""
    ∷ ":\"senderStorageCells\",\"type\":\"uint256[]\"}],\"stateMutability\":\"view\"," ∷ []

abbrev part_4 : List String
part_4 =
    "\"type\":\"function\"},{\"inputs\":[{\"components\":[{\"internalType\":\"address\","
    ∷ "\"name\":\"sender\",\"type\":\"address\"},{\"internalType\":\"uint256\",\"name\":"
    ∷ "\"nonce\",\"type\":\"uint256\"},{\"internalType\":\"bytes\",\"name\":\"initCode\","
    ∷ "\"type\":\"bytes\"},{\"internalType\":\"bytes\",\"name\":\"callData\",\"type\":"
    ∷ "\"bytes\"},{\"internalType\":\"uint256\",\"name\":\"callGas\",\"type\":\"uint256\"},"
    ∷ "{\"internalType\":\"uint256\",\"name\":\"verificationGas\",\"type\":\"uint256\"},{"
    ∷ "\"internalType\":\"uint256\",\"name\":\"preVerificationGas\",\"type\":\"uint256\"},{"
    ∷ "\"internalType\":\"uint256\",\"name\":\"maxFeePerGas\",\"type\":\"uint256\"},{"
    ∷ "\"internalType\":\"uint256\",\"name\":\"maxPriorityFeePerGas\",\"type\":\"uint256\"}"
    ∷ ",{\"internalType\":\"address\",\"name\":\"paymaster\",\"type\":\"address\"},{"
    ∷ "\"internalType\":\"bytes\",\"name\":\"paymasterData\",\"type\":\"bytes\"},{"
    ∷ "\"internalType\":\"bytes\",\"name\":\"signature\",\"type\":\"bytes\"}],"
    ∷ "\"internalType\":\"structUserOperation[]\",\"name\":\"ops\",\"type\":\"tuple[]\"},{"
    ∷ "\"internalType\":\"addresspayable\",\"name\":\"beneficiary\",\"type\":\"address\"}],"
    ∷ "\"name\":\"handleOps\",\"outputs\":[],\"stateMutability\":\"nonpayable\",\"type\":"
    ∷ "\"function\"},{\"inputs\":[{\"components\":[{\"internalType\":\"address\",\"name\":"
    ∷ "\"sender\",\"type\":\"address\"},{\"internalType\":\"uint256\",\"name\":\"nonce\","
    ∷ "\"type\":\"uint256\"},{\"internalType\":\"bytes\",\"name\":\"initCode\",\"type\":"
    ∷ "\"bytes\"},{\"internalType\":\"bytes\",\"name\":\"callData\",\"type\":\"bytes\"},{"
    ∷ "\"internalType\":\"uint256\",\"name\":\"callGas\",\"type\":\"uint256\"},{"
    ∷ "\"internalType\":\"uint256\",\"name\":\"verificationGas\",\"type\":\"uint256\"},{"
    ∷ "\"internalType\":\"uint256\",\"name\":\"preVerificationGas\",\"type\":\"uint256\"},{"
    ∷ "\"internalType\":\"uint256\",\"name\":\"maxFeePerGas\",\"type\":\"uint256\"},{"
    ∷ "\"internalType\":\"uint256\",\"name\":\"maxPriorityFeePerGas\",\"type\":\"uint256\"}"
    ∷ ",{\"internalType\":\"address\",\"name\":\"paymaster\",\"type\":\"address\"},{"
    ∷ "\"internalType\":\"bytes\",\"name\":\"paymasterData\",\"type\":\"bytes\"},{"
    ∷ "\"internalType\":\"bytes\",\"name\":\"signature\",\"type\":\"bytes\"}],"
    ∷ "\"internalType\":\"structUserOperation\",\"name\":\"op\",\"type\":\"tuple\"},{"
    ∷ "\"components\":[{\"internalType\":\"bytes32\",\"name\":\"requestId\",\"type\":"
    ∷ "\"bytes32\"},{\"internalType\":\"uint256\",\"name\":\"prefund\",\"type\":\"uint256\"" ∷ []

abbrev part_5 : List String
part_5 =
    "},{\"internalType\":\"enumEntryPoint.PaymentMode\",\"name\":\"paymentMode\",\"type\""
    ∷ ":\"uint8\"},{\"internalType\":\"uint256\",\"name\":\"contextOffset\",\"type\":"
    ∷ "\"uint256\"},{\"internalType\":\"uint256\",\"name\":\"preOpGas\",\"type\":"
    ∷ "\"uint256\"}],\"internalType\":\"structEntryPoint.UserOpInfo\",\"name\":\"opInfo\","
    ∷ "\"type\":\"tuple\"},{\"internalType\":\"bytes\",\"name\":\"context\",\"type\":"
    ∷ "\"bytes\"}],\"name\":\"innerHandleOp\",\"outputs\":[{\"internalType\":\"uint256\","
    ∷ "\"name\":\"actualGasCost\",\"type\":\"uint256\"}],\"stateMutability\":\"nonpayable\""
    ∷ ",\"type\":\"function\"},{\"inputs\":[],\"name\":\"paymasterStake\",\"outputs\":[{"
    ∷ "\"internalType\":\"uint256\",\"name\":\"\",\"type\":\"uint256\"}],"
    ∷ "\"stateMutability\":\"view\",\"type\":\"function\"},{\"inputs\":[{\"components\":[{"
    ∷ "\"internalType\":\"address\",\"name\":\"sender\",\"type\":\"address\"},{"
    ∷ "\"internalType\":\"uint256\",\"name\":\"nonce\",\"type\":\"uint256\"},{"
    ∷ "\"internalType\":\"bytes\",\"name\":\"initCode\",\"type\":\"bytes\"},{"
    ∷ "\"internalType\":\"bytes\",\"name\":\"callData\",\"type\":\"bytes\"},{"
    ∷ "\"internalType\":\"uint256\",\"name\":\"callGas\",\"type\":\"uint256\"},{"
    ∷ "\"internalType\":\"uint256\",\"name\":\"verificationGas\",\"type\":\"uint256\"},{"
    ∷ "\"internalType\":\"uint256\",\"name\":\"preVerificationGas\",\"type\":\"uint256\"},{"
    ∷ "\"internalType\":\"uint256\",\"name\":\"maxFeePerGas\",\"type\":\"uint256\"},{"
    ∷ "\"internalType\":\"uint256\",\"name\":\"maxPriorityFeePerGas\",\"type\":\"uint256\"}"
    ∷ ",{\"internalType\":\"address\",\"name\":\"paymaster\",\"type\":\"address\"},{"
    ∷ "\"internalType\":\"bytes\",\"name\":\"paymasterData\",\"type\":\"bytes\"},{"
    ∷ "\"internalType\":\"bytes\",\"name\":\"signature\",\"type\":\"bytes\"}],"
    ∷ "\"internalType\":\"structUserOperation\",\"name\":\"userOp\",\"type\":\"tuple\"}],"
    ∷ "\"name\":\"simulateValidation\",\"outputs\":[{\"internalType\":\"uint256\",\"name\":"
    ∷ "\"preOpGas\",\"type\":\"uint256\"},{\"internalType\":\"uint256\",\"name\":"
    ∷ "\"prefund\",\"type\":\"uint256\"}],\"stateMutability\":\"nonpayable\",\"type\":"
    ∷ "\"function\"},{\"inputs\":[],\"name\":\"unlockStake\",\"outputs\":[],"
    ∷ "\"stateMutability\":\"nonpayable\",\"type\":\"function\"},{\"inputs\":[],\"name\":"
    ∷ "\"unstakeDelaySec\",\"outputs\":[{\"internalType\":\"uint32\",\"name\":\"\",\"type\""
    ∷ ":\"uint32\"}],\"stateMutability\":\"view\",\"type\":\"function\"},{\"inputs\":[{" ∷ []

abbrev part_6 : List String
part_6 =
    "\"internalType\":\"addresspayable\",\"name\":\"withdrawAddress\",\"type\":"
    ∷ "\"address\"}],\"name\":\"withdrawStake\",\"outputs\":[],\"stateMutability\":"
    ∷ "\"nonpayable\",\"type\":\"function\"},{\"inputs\":[{\"internalType\":"
    ∷ "\"addresspayable\",\"name\":\"withdrawAddress\",\"type\":\"address\"},{"
    ∷ "\"internalType\":\"uint256\",\"name\":\"withdrawAmount\",\"type\":\"uint256\"}],"
    ∷ "\"name\":\"withdrawTo\",\"outputs\":[],\"stateMutability\":\"nonpayable\",\"type\":"
    ∷ "\"function\"},{\"stateMutability\":\"payable\",\"type\":\"receive\"}]" ∷ []

unfoldable pub entry_point_abi : Text
unfolding concat
entry_point_abi =
    concat part_1
    ++ concat part_2
    ++ concat part_3
    ++ concat part_4
    ++ concat part_5
    ++ concat part_6
