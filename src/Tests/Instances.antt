-- ===== src/Tests/Instances.antt =====
-- A small chain, a process and requests, at which the theorems are applied.
use pay_gas_x.Base.{
  ℕ, ◌+◌, false, List, [], ◌∷◌, ◌++◌, Option, none, some, Text, text, Result, ok, err, Outcome,
  done, if◌then◌else◌,
}
use pay_gas_x.Base.Int.{ℤ, pos}
use pay_gas_x.Geth.{Geth, TransactOpts}
use pay_gas_x.Host.{Host, State}
use pay_gas_x.Config.Types.{Config}
use pay_gas_x.Abi.Types as Abi
use pay_gas_x.Abi.Types.{Value, user_op}
use pay_gas_x.Controller.Types.{UserOperation, Request}
use pay_gas_x.Controller.Request.RoundTrip.{marshal_request}
use pay_gas_x.Server.{Sprint}

-- Addresses, keys and transactions are texts; the node counts the transactions that reach it.
abbrev pub Opts : Type 0
Opts = TransactOpts Text Text

abbrev pub keyed : List ℕ → ℤ → Opts
keyed key id = record {
  from = key;
  nonce = none;
  signer = λ a tx. done (ok (tx ++ key));
  value = none;
  gas_price = none;
  gas_fee_cap = none;
  gas_tip_cap = none;
  gas_limit = 0;
  context = none;
  no_send = false;
}

-- An operation without a signature is refused.
abbrev pub refusal : List (Value Text) → Option Text
refusal (user_op op ∷ _) = elim op.signature [
  | [] ↦ some (text "account: wrong signature")
  | _ ∷ _ ↦ none
]
refusal _ = none

abbrev pub transact : Text → Opts → Text → List (Value Text) → ℕ → Outcome (Result Text) × ℕ
transact c opts method params n = elim (refusal params) [
  | some e ↦ (done (err e), n)
  | none ↦ (opts.signer opts.from method, if opts.no_send then n else n + 1)
]

abbrev pub toy : Geth
toy = record {
  Address = Text;
  PrivateKey = List ℕ;
  Client = Text;
  ParsedAbi = Unit;
  BoundContract = Text;
  Transaction = Text;
  Signer = ℤ;
  Node = ℕ;
  zero_address = text "0x0";
  hex_to_address = λ t. t;
  address_hex = λ a. a;
  hex_to_bytes = λ t. t;
  to_ecdsa = elim [ [] ↦ err (text "invalid length, need 256 bits") | b ∷ bs ↦ ok (b ∷ bs) ];
  pubkey_to_address = λ k. text "0x" ++ k;
  sign = λ h k. ok k;
  latest_signer_for_chain_id = λ id. id;
  signer_hash = λ s tx. tx;
  with_signature = λ tx s sig. ok (tx ++ sig);
  tx_hash_hex = λ tx. tx;
  dial = λ url n. ok url;
  abi_json = λ t. ok tt;
  new_bound_contract = λ a p x y z. a;
  new_keyed_transactor_with_chain_id = λ k id. ok (keyed k id);
  transact = transact;
}

abbrev pub config : Config
config = record {
  chain = record {
    chain_id = text "80001";
    rpc_server = text "rpc";
    secret_key = text "k";
    entrypoint_contract_address = text "0xe";
  };
  test = none;
}

-- The file and the secret that hold it.
abbrev pub config_text : Text
config_text =
    text "{\"chain\": {\"id\": \"80001\", \"rpc_server\": \"rpc\", \"secret_key\": \"k\","
    ++ text " \"entrypoint_contract_address\": \"0xe\"}}\n"

abbrev pub fresh : State toy
fresh = record { config = none; client = none; node = 0; log = [] }

abbrev pub ready : State toy
ready = record { config = some config; client = some (text "rpc"); node = 0; log = [] }

abbrev pub host : Host
host = record {
  AwsConfig = Unit;
  read_file = λ f. ok config_text;
  lookup_env = λ n. some (text "secret");
  load_default_config = ok tt;
  get_secret_value = λ c n v. ok (some config_text);
}

-- Bytes of the operation, written in base64: 1 and 2, 255, and a signature.
abbrev pub operation : List ℕ → Abi.UserOperation Text
operation signature = record {
  sender = text "0xa";
  nonce = some (pos 4);
  init_code = [];
  call_data = 1 ∷ 2 ∷ [];
  call_gas = some (pos 89128);
  verification_gas = some (pos 103600);
  pre_verification_gas = some (pos 21000);
  max_fee_per_gas = some (pos 180000000000);
  max_priority_fee_per_gas = some (pos 30000000000);
  paymaster = text "0x0";
  paymaster_data = 255 ∷ [];
  signature = signature;
}

abbrev pub written : Text → Text → Text → UserOperation
written nonce call_data signature = record {
  sender = some (text "0xa");
  nonce = some nonce;
  init_code = some [];
  call_data = some call_data;
  call_gas = some (text "89128");
  verification_gas = some (text "103600");
  pre_verification_gas = some (text "21000");
  max_fee_per_gas = some (text "180000000000");
  max_priority_fee_per_gas = some (text "30000000000");
  paymaster = some (text "0x0");
  paymaster_data = some (text "/w==");
  signature = some signature;
}

abbrev pub good : UserOperation
good = written (text "4") (text "AQI=") (text "Ag==")

abbrev pub unsigned : UserOperation
unsigned = written (text "4") (text "AQI=") []

abbrev pub garbled : UserOperation
garbled = written (text "4") (text "AQI") (text "Ag==")

abbrev pub uncounted : UserOperation
uncounted = written (text "four") (text "AQI=") (text "Ag==")

abbrev pub senderless : UserOperation
senderless = record good { sender = none }

abbrev pub sprint : Sprint
sprint request = request.body

-- A request of the Lambda with such a body, and one with such operations.
abbrev pub posted : Text → Request
posted body = record { path_parameters = (text "proxy", text "handle") ∷ []; body = body }

abbrev pub post : List UserOperation → Request
post uos = posted (marshal_request (record { user_operations = uos }))
