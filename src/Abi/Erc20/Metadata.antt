-- ===== src/Abi/Erc20/Metadata.antt =====
-- The ABI of the contract ERC20, the text of `ERC20MetaData.ABI` in bundler/src/abi/erc20.go.
use pay_gas_x.Base.{Text, String, text, List, [], ◌∷◌, ◌++◌}

-- The lines of the text, which stands on one line in the source.
concat : List String → Text
concat [] = []
concat (s ∷ ss) = text s ++ concat ss

abbrev part_1 : List String
part_1 =
    "[{\"constant\":true,\"inputs\":[],\"name\":\"name\",\"outputs\":[{\"name\":"
    ∷ "\"\",\"type\":\"string\"}],\"payable\":false,\"stateMutability\":\"view\","
    ∷ "\"type\":\"function\"},{\"constant\":false,\"inputs\":[{\"name\":\"_spender\","
    ∷ "\"type\":\"address\"},{\"name\":\"_value\",\"type\":\"uint256\"}],\"name\":"
    ∷ "\"approve\",\"outputs\":[{\"name\":\"\",\"type\":\"bool\"}],\"payable\":false,"
    ∷ "\"stateMutability\":\"nonpayable\",\"type\":\"function\"},{\"constant\":true,"
    ∷ "\"inputs\":[],\"name\":\"totalSupply\",\"outputs\":[{\"name\":\"\",\"type\":"
    ∷ "\"uint256\"}],\"payable\":false,\"stateMutability\":\"view\",\"type\":\"function\"},"
    ∷ "{\"constant\":false,\"inputs\":[{\"name\":\"_from\",\"type\":\"address\"},"
    ∷ "{\"name\":\"_to\",\"type\":\"address\"},{\"name\":\"_value\",\"type\":\"uint256\"}],"
    ∷ "\"name\":\"transferFrom\",\"outputs\":[{\"name\":\"\",\"type\":\"bool\"}],"
    ∷ "\"payable\":false,\"stateMutability\":\"nonpayable\",\"type\":\"function\"},"
    ∷ "{\"constant\":true,\"inputs\":[],\"name\":\"decimals\",\"outputs\":[{\"name\":"
    ∷ "\"\",\"type\":\"uint8\"}],\"payable\":false,\"stateMutability\":\"view\",\"type\":"
    ∷ "\"function\"},{\"constant\":true,\"inputs\":[{\"name\":\"_owner\",\"type\":"
    ∷ "\"address\"}],\"name\":\"balanceOf\",\"outputs\":[{\"name\":\"balance\",\"type\":"
    ∷ "\"uint256\"}],\"payable\":false,\"stateMutability\":\"view\",\"type\":\"function\"},"
    ∷ "{\"constant\":true,\"inputs\":[],\"name\":\"symbol\",\"outputs\":[{\"name\":"
    ∷ "\"\",\"type\":\"string\"}],\"payable\":false,\"stateMutability\":\"view\","
    ∷ "\"type\":\"function\"},{\"constant\":false,\"inputs\":[{\"name\":\"_to\",\"type\":"
    ∷ "\"address\"},{\"name\":\"_value\",\"type\":\"uint256\"}],\"name\":\"transfer\","
    ∷ "\"outputs\":[{\"name\":\"\",\"type\":\"bool\"}],\"payable\":false,\"stateMutability\""
    ∷ ":\"nonpayable\",\"type\":\"function\"},{\"constant\":true,\"inputs\":[{\"name\":"
    ∷ "\"_owner\",\"type\":\"address\"},{\"name\":\"_spender\",\"type\":\"address\"}],"
    ∷ "\"name\":\"allowance\",\"outputs\":[{\"name\":\"\",\"type\":\"uint256\"}],"
    ∷ "\"payable\":false,\"stateMutability\":\"view\",\"type\":\"function\"},{\"payable\":"
    ∷ "true,\"stateMutability\":\"payable\",\"type\":\"fallback\"},{\"anonymous\":"
    ∷ "false,\"inputs\":[{\"indexed\":true,\"name\":\"owner\",\"type\":\"address\"},"
    ∷ "{\"indexed\":true,\"name\":\"spender\",\"type\":\"address\"},{\"indexed\":"
    ∷ "false,\"name\":\"value\",\"type\":\"uint256\"}],\"name\":\"Approval\",\"type\":" ∷ []

abbrev part_2 : List String
part_2 =
    "\"event\"},{\"anonymous\":false,\"inputs\":[{\"indexed\":true,\"name\":\"from\","
    ∷ "\"type\":\"address\"},{\"indexed\":true,\"name\":\"to\",\"type\":\"address\"},"
    ∷ "{\"indexed\":false,\"name\":\"value\",\"type\":\"uint256\"}],\"name\":\"Transfer\","
    ∷ "\"type\":\"event\"}]" ∷ []

unfoldable pub erc20_abi : Text
unfolding concat
erc20_abi = concat part_1 ++ concat part_2
