-- ===== src/Abi/Erc20/TransactorSession.antt =====
-- `ERC20TransactorSession` in bundler/src/abi/erc20.go.
use pay_gas_x.Base.{ℕ, List, Option, Result, M}
use pay_gas_x.Base.Int.{ℤ}
use pay_gas_x.Geth.{Geth, TransactOpts}
use pay_gas_x.Abi.Calls.{Calls}
use pay_gas_x.Abi.Erc20.{Erc20Transactor}
use pay_gas_x.Abi.Erc20.Transactor
use pay_gas_x.Abi.Erc20.Direct

pub record Erc20TransactorSession (g : Geth) : Type 0 where
  pub contract : Erc20Transactor g.BoundContract
  pub transact_opts : TransactOpts g.Address g.Transaction

module _ (g : Geth) (b : Calls g) (s : Erc20TransactorSession g) where
  unfoldable pub approve : g.Address → Option ℤ → M g.Node (Result g.Transaction)
  approve spender value = Transactor.approve g s.contract s.transact_opts spender value

  unfoldable pub transfer : g.Address → Option ℤ → M g.Node (Result g.Transaction)
  transfer to value = Transactor.transfer g s.contract s.transact_opts to value

  unfoldable pub transfer_from : g.Address → g.Address → Option ℤ → M g.Node (Result g.Transaction)
  transfer_from from to value = Transactor.transfer_from g s.contract s.transact_opts from to value

  unfoldable pub fallback : List ℕ → M g.Node (Result g.Transaction)
  fallback calldata = Direct.fallback g b s.contract s.transact_opts calldata
