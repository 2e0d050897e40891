-- ===== src/Abi/Erc20/Direct.antt =====
-- The calls of bundler/src/abi/erc20.go that name no method of the contract: `Fallback`, and the methods of
-- `ERC20Raw`, `ERC20CallerRaw` and `ERC20TransactorRaw`.
use pay_gas_x.Base.{ℕ, List, Text, Result, M}
use pay_gas_x.Geth.{Geth, TransactOpts}
use pay_gas_x.Abi.Types.{Value}
use pay_gas_x.Abi.Calls.{Calls}
use pay_gas_x.Abi.Erc20.{Erc20Transactor, Erc20Raw, Erc20CallerRaw, Erc20TransactorRaw}

module _ (g : Geth) (b : Calls g) where
  -- The method of `ERC20Transactor`
  unfoldable pub fallback :
      Erc20Transactor g.BoundContract
      → TransactOpts g.Address g.Transaction
      → List ℕ
      → M g.Node (Result g.Transaction)
  fallback t opts calldata = b.raw_transact t.contract opts calldata

  unfoldable pub raw_call :
      Erc20Raw g.BoundContract
      → b.CallOpts
      → Text
      → List (Value g.Address)
      → M g.Node (Result (List b.Any))
  raw_call c opts method params = b.call c.contract.caller.contract opts method params

  unfoldable pub caller_raw_call :
      Erc20CallerRaw g.BoundContract
      → b.CallOpts
      → Text
      → List (Value g.Address)
      → M g.Node (Result (List b.Any))
  caller_raw_call c opts method params = b.call c.contract.contract opts method params

  unfoldable pub raw_transfer :
      Erc20Raw g.BoundContract
      → TransactOpts g.Address g.Transaction
      → M g.Node (Result g.Transaction)
  raw_transfer c opts = b.transfer c.contract.transactor.contract opts

  unfoldable pub raw_transact :
      Erc20Raw g.BoundContract
      → TransactOpts g.Address g.Transaction
      → Text
      → List (Value g.Address)
      → M g.Node (Result g.Transaction)
  raw_transact c opts method params = g.transact c.contract.transactor.contract opts method params

  unfoldable pub transactor_raw_transfer :
      Erc20TransactorRaw g.BoundContract
      → TransactOpts g.Address g.Transaction
      → M g.Node (Result g.Transaction)
  transactor_raw_transfer c opts = b.transfer c.contract.contract opts

  unfoldable pub transactor_raw_transact :
      Erc20TransactorRaw g.BoundContract
      → TransactOpts g.Address g.Transaction
      → Text
      → List (Value g.Address)
      → M g.Node (Result g.Transaction)
  transactor_raw_transact c opts method params = g.transact c.contract.contract opts method params
