-- ===== src/Abi/EntryPoint/Direct.antt =====
-- The calls of bundler/src/abi/entrypoint.go that name no method of the contract: `Receive`, and the methods of
-- `EntryPointRaw`, `EntryPointCallerRaw` and `EntryPointTransactorRaw`.
use pay_gas_x.Base.{List, [], Text, Result, M}
use pay_gas_x.Geth.{Geth, TransactOpts}
use pay_gas_x.Abi.Types.{Value}
use pay_gas_x.Abi.Calls.{Calls}
use pay_gas_x.Abi.EntryPoint.{
  EntryPointTransactor, EntryPointRaw, EntryPointCallerRaw, EntryPointTransactorRaw,
}

module _ (g : Geth) (b : Calls g) where
  -- The method of `EntryPointTransactor`
  unfoldable pub receive :
      EntryPointTransactor g.BoundContract
      → TransactOpts g.Address g.Transaction
      → M g.Node (Result g.Transaction)
  receive t opts = b.raw_transact t.contract opts []

  unfoldable pub raw_call :
      EntryPointRaw g.BoundContract
      → b.CallOpts
      → Text
      → List (Value g.Address)
      → M g.Node (Result (List b.Any))
  raw_call c opts method params = b.call c.contract.caller.contract opts method params

  unfoldable pub caller_raw_call :
      EntryPointCallerRaw g.BoundContract
      → b.CallOpts
      → Text
      → List (Value g.Address)
      → M g.Node (Result (List b.Any))
  caller_raw_call c opts method params = b.call c.contract.contract opts method params

  unfoldable pub raw_transfer :
      EntryPointRaw g.BoundContract
      → TransactOpts g.Address g.Transaction
      → M g.Node (Result g.Transaction)
  raw_transfer c opts = b.transfer c.contract.transactor.contract opts

  unfoldable pub raw_transact :
      EntryPointRaw g.BoundContract
      → TransactOpts g.Address g.Transaction
      → Text
      → List (Value g.Address)
      → M g.Node (Result g.Transaction)
  raw_transact c opts method params = g.transact c.contract.transactor.contract opts method params

  unfoldable pub transactor_raw_transfer :
      EntryPointTransactorRaw g.BoundContract
      → TransactOpts g.Address g.Transaction
      → M g.Node (Result g.Transaction)
  transactor_raw_transfer c opts = b.transfer c.contract.contract opts

  unfoldable pub transactor_raw_transact :
      EntryPointTransactorRaw g.BoundContract
      → TransactOpts g.Address g.Transaction
      → Text
      → List (Value g.Address)
      → M g.Node (Result g.Transaction)
  transactor_raw_transact c opts method params = g.transact c.contract.contract opts method params
