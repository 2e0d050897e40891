-- ===== src/Abi/Signatures/Erc20.antt =====
-- The methods of the binding of bundler/src/abi/erc20.go against its ABI.
use pay_gas_x.Base.{[], Option, none}
use pay_gas_x.Base.Int.{ℤ}
use pay_gas_x.Geth.{Geth, TransactOpts}
use pay_gas_x.Abi.Calls.{Calls}
use pay_gas_x.Abi.Erc20.Metadata.{erc20_abi}
use pay_gas_x.Abi.Erc20.Transactor as Transactor
use pay_gas_x.Abi.Erc20.Caller as Caller
use pay_gas_x.Abi.Signatures.{Sends, Reads}

module _ (g : Geth) (b : Calls g) (contract : g.BoundContract) where
  -- Every method that sends a transaction, with any arguments.
  pub record TransactorConforms (opts : TransactOpts g.Address g.Transaction) : Type 0 where
    pub approve :
        (spender : g.Address) (value : Option ℤ)
        → Sends g erc20_abi contract opts
            (Transactor.approve g (record { contract = contract }) opts spender value)
    pub transfer :
        (to : g.Address) (value : Option ℤ)
        → Sends g erc20_abi contract opts
            (Transactor.transfer g (record { contract = contract }) opts to value)
    pub transfer_from :
        (from : g.Address) (to : g.Address) (value : Option ℤ)
        → Sends g erc20_abi contract opts
            (Transactor.transfer_from g (record { contract = contract }) opts from to value)

  -- Every method that reads, with any arguments.
  pub record CallerConforms (opts : b.CallOpts) : Type 1 where
    pub allowance :
        (owner : g.Address) (spender : g.Address)
        → Reads g erc20_abi b none contract opts
            (Caller.allowance g b (record { contract = contract }) opts owner spender)
    pub balance_of :
        (owner : g.Address)
        → Reads g erc20_abi b none contract opts
            (Caller.balance_of g b (record { contract = contract }) opts owner)
    pub decimals :
        Reads g erc20_abi b 0 contract opts
          (Caller.decimals g b (record { contract = contract }) opts)
    pub name :
        Reads g erc20_abi b [] contract opts (Caller.name g b (record { contract = contract }) opts)
    pub symbol :
        Reads g erc20_abi b [] contract opts
          (Caller.symbol g b (record { contract = contract }) opts)
    pub total_supply :
        Reads g erc20_abi b none contract opts
          (Caller.total_supply g b (record { contract = contract }) opts)

  -- The methods of the binding, those that send and those that read.
  pub record Conforms (opts : TransactOpts g.Address g.Transaction) (call_opts : b.CallOpts)
      : Type 1 where
    pub transactor : TransactorConforms opts
    pub caller : CallerConforms call_opts
