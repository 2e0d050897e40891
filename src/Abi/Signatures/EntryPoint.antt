-- ===== src/Abi/Signatures/EntryPoint.antt =====
-- The methods of the binding of bundler/src/abi/entrypoint.go against its ABI.
use pay_gas_x.Base.{◌>>=◌, ◌≡◌, ℕ, List, [], ◌∷◌, Option, some, none, text, reads}
use pay_gas_x.Base.Int.{ℤ}
use pay_gas_x.Geth.{Geth, TransactOpts}
use pay_gas_x.Abi.Types.{UserOperation, EntryPointUserOpInfo, zero_bytes_32, address}
use pay_gas_x.Abi.Calls.{Calls}
use pay_gas_x.Abi.EntryPoint.Metadata.{entry_point_abi}
use pay_gas_x.Abi.EntryPoint.Transactor as Transactor
use pay_gas_x.Abi.EntryPoint.Caller as Caller
use pay_gas_x.Abi.EntryPoint.Caller.{zero_deposit_info, deposits_returned}
use pay_gas_x.Abi.Signatures.{outputs_of, signature, parens, Sends, Reads}

module _ (g : Geth) (b : Calls g) (contract : g.BoundContract) where
  -- Every method that sends a transaction, with any arguments.
  pub record TransactorConforms (opts : TransactOpts g.Address g.Transaction) : Type 0 where
    pub add_stake :
        (n : ℕ)
        → Sends g entry_point_abi contract opts
            (Transactor.add_stake g (record { contract = contract }) opts n)
    pub deposit_to :
        (a : g.Address)
        → Sends g entry_point_abi contract opts
            (Transactor.deposit_to g (record { contract = contract }) opts a)
    pub handle_ops :
        (ops : List (UserOperation g.Address)) (a : g.Address)
        → Sends g entry_point_abi contract opts
            (Transactor.handle_ops g (record { contract = contract }) opts ops a)
    pub inner_handle_op :
        (op : UserOperation g.Address) (info : EntryPointUserOpInfo) (context : List ℕ)
        → Sends g entry_point_abi contract opts
            (Transactor.inner_handle_op g (record { contract = contract }) opts op info context)
    pub simulate_validation :
        (op : UserOperation g.Address)
        → Sends g entry_point_abi contract opts
            (Transactor.simulate_validation g (record { contract = contract }) opts op)
    pub unlock_stake :
        Sends g entry_point_abi contract opts
          (Transactor.unlock_stake g (record { contract = contract }) opts)
    pub withdraw_stake :
        (a : g.Address)
        → Sends g entry_point_abi contract opts
            (Transactor.withdraw_stake g (record { contract = contract }) opts a)
    pub withdraw_to :
        (a : g.Address) (amount : Option ℤ)
        → Sends g entry_point_abi contract opts
            (Transactor.withdraw_to g (record { contract = contract }) opts a amount)

  -- Every method that reads, with any arguments, but `deposits`, which has five results.
  pub record CallerConforms (opts : b.CallOpts) : Type 1 where
    pub balance_of :
        (a : g.Address)
        → Reads g entry_point_abi b none contract opts
            (Caller.balance_of g b (record { contract = contract }) opts a)
    pub create2factory :
        Reads g entry_point_abi b g.zero_address contract opts
          (Caller.create2factory g b (record { contract = contract }) opts)
    pub get_deposit_info :
        (a : g.Address)
        → Reads g entry_point_abi b zero_deposit_info contract opts
            (Caller.get_deposit_info g b (record { contract = contract }) opts a)
    pub get_request_id :
        (op : UserOperation g.Address)
        → Reads g entry_point_abi b zero_bytes_32 contract opts
            (Caller.get_request_id g b (record { contract = contract }) opts op)
    pub get_sender_address :
        (init_code : List ℕ) (salt : Option ℤ)
        → Reads g entry_point_abi b g.zero_address contract opts
            (Caller.get_sender_address g b (record { contract = contract }) opts init_code salt)
    pub get_sender_storage :
        (a : g.Address)
        → Reads g entry_point_abi b [] contract opts
            (Caller.get_sender_storage g b (record { contract = contract }) opts a)
    pub paymaster_stake :
        Reads g entry_point_abi b none contract opts
          (Caller.paymaster_stake g b (record { contract = contract }) opts)
    pub unstake_delay_sec :
        Reads g entry_point_abi b 0 contract opts
          (Caller.unstake_delay_sec g b (record { contract = contract }) opts)
    pub deposits :
        (a : g.Address)
        → (Caller.deposits g b (record { contract = contract }) opts a ≡ (
            b.call contract opts (text "deposits") (address a ∷ []) >>= λ r.
            reads (λ _. deposits_returned g b (record { contract = contract }) r)))
          × (outputs_of entry_point_abi (signature (text "deposits") (address a ∷ []))
              ≡ some (
                  parens (
                    text "uint112"
                    ∷ text "bool"
                    ∷ text "uint112"
                    ∷ text "uint32"
                    ∷ text "uint64"
                    ∷ [])))

  -- The methods of the binding, those that send and those that read.
  pub record Conforms (opts : TransactOpts g.Address g.Transaction) (call_opts : b.CallOpts)
      : Type 1 where
    pub transactor : TransactorConforms opts
    pub caller : CallerConforms call_opts
