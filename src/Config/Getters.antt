-- ===== src/Config/Getters.antt =====
-- `GetChainID`, `GetBundler`, `GetBundlerAddress` and `GetEntrypointContractAddress` of
-- bundler/src/config/main.go. The argument is the package variable `C`.
use pay_gas_x.Base.{
  ◌++◌, Option, none, some, Text, text, ok, err, Outcome, done, panicked, and_then,
}
use pay_gas_x.Base.Int.{ℤ}
use pay_gas_x.GoLib.BigInt.{set_string}
use pay_gas_x.Geth.{Geth}
use pay_gas_x.Config.Types.{Config}

-- What a nil pointer that is read panics with.
abbrev pub nil_dereference : Text
nil_dereference = text "runtime error: invalid memory address or nil pointer dereference"

unfoldable pub get_chain_id : Option Config → Outcome ℤ
get_chain_id none = panicked nil_dereference
get_chain_id (some c) = elim (set_string c.chain.chain_id) [
  | some id ↦ done id
  | none ↦ panicked (text "failed to parse chain id: " ++ c.chain.chain_id)
]

module _ (g : Geth) where
  unfoldable pub get_bundler : Option Config → Outcome g.PrivateKey
  get_bundler none = panicked nil_dereference
  get_bundler (some c) = elim (g.to_ecdsa (g.hex_to_bytes c.chain.secret_key)) [
    | ok sk ↦ done sk
    | err e ↦ panicked (text "failed to parse paymaster secret key: " ++ e)
  ]

  unfoldable pub get_bundler_address : Option Config → Outcome g.Address
  get_bundler_address c = and_then (get_bundler c) (λ sk. done (g.pubkey_to_address sk))

  unfoldable pub get_entrypoint_contract_address : Option Config → Outcome g.Address
  get_entrypoint_contract_address none = panicked nil_dereference
  get_entrypoint_contract_address (some c) =
      done (g.hex_to_address c.chain.entrypoint_contract_address)
