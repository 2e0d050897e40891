-- ===== src/Controller/ToAbi/RoundTrip.antt =====
-- A client's encoding of an operation, which `ToABIStruct` undoes.
use mathlib.Core.Option
use pay_gas_x.Base.{All, ◌≡◌, refl, sym, Option, some, Text, ok, done, arith}
use pay_gas_x.Base.Int.{ℤ}
use pay_gas_x.GoLib.Base64.{IsByte, encode}
use pay_gas_x.GoLib.BigInt.{int_string}
use pay_gas_x.Geth.{Geth}
use pay_gas_x.Util.{parse_address_string, parse_big_int_string}
use pay_gas_x.Util.Laws.{parse_big_int_string-int_string, parse_base64_string-encode}
use pay_gas_x.Abi.Types as Abi
use pay_gas_x.Controller.Types.{UserOperation}
use pay_gas_x.Controller.ToAbi.{to_abi_struct}
use pay_gas_x.Controller.ToAbi.Fields.{Translates, to_abi_struct_ok_iff}

-- `HexToAddress` reads what `Address.Hex` writes.
pub record HexRoundTrip (g : Geth) : Type 0 where
  pub hex_to_address-address_hex : (a : g.Address) → g.hex_to_address (g.address_hex a) ≡ a

module _ (g : Geth) where
  -- Addresses in hexadecimal, numbers in decimal, bytes in base64.
  unfoldable pub request_of : Abi.UserOperation g.Address → UserOperation
  request_of op = record {
    sender = some (g.address_hex op.sender);
    nonce = Option.map int_string op.nonce;
    init_code = some (encode op.init_code);
    call_data = some (encode op.call_data);
    call_gas = Option.map int_string op.call_gas;
    verification_gas = Option.map int_string op.verification_gas;
    pre_verification_gas = Option.map int_string op.pre_verification_gas;
    max_fee_per_gas = Option.map int_string op.max_fee_per_gas;
    max_priority_fee_per_gas = Option.map int_string op.max_priority_fee_per_gas;
    paymaster = some (g.address_hex op.paymaster);
    paymaster_data = some (encode op.paymaster_data);
    signature = some (encode op.signature);
  }

  abbrev IsNumberField : Option ℤ → Type 0
  IsNumberField field = (z : ℤ) × (field ≡ some z)

  -- No number is nil, and the fields of bytes hold bytes.
  pub record IsWellFormed (op : Abi.UserOperation g.Address) : Type 0 where
    pub nonce : IsNumberField op.nonce
    pub init_code : All IsByte op.init_code
    pub call_data : All IsByte op.call_data
    pub call_gas : IsNumberField op.call_gas
    pub verification_gas : IsNumberField op.verification_gas
    pub pre_verification_gas : IsNumberField op.pre_verification_gas
    pub max_fee_per_gas : IsNumberField op.max_fee_per_gas
    pub max_priority_fee_per_gas : IsNumberField op.max_priority_fee_per_gas
    pub paymaster_data : All IsByte op.paymaster_data
    pub signature : All IsByte op.signature

  reads_number :
      (field : Option ℤ)
      → IsNumberField field
      → (s : Text) × (Option.map int_string field ≡ some s) × (field ≡ parse_big_int_string s)
  reads_number field (z, e) =
      (int_string z, rw e, ground (arith, parse_big_int_string-int_string z))

  request_of-Translates :
      HexRoundTrip g
      → (op : Abi.UserOperation g.Address) → IsWellFormed op
      → Translates g (request_of op) op
  unfolding request_of parse_address_string
  request_of-Translates law op w = record {
    sender = (g.address_hex op.sender, refl, sym (law.hex_to_address-address_hex op.sender));
    nonce = reads_number op.nonce w.nonce;
    init_code = (encode op.init_code, refl, parse_base64_string-encode op.init_code w.init_code);
    call_data = (encode op.call_data, refl, parse_base64_string-encode op.call_data w.call_data);
    call_gas = reads_number op.call_gas w.call_gas;
    verification_gas = reads_number op.verification_gas w.verification_gas;
    pre_verification_gas = reads_number op.pre_verification_gas w.pre_verification_gas;
    max_fee_per_gas = reads_number op.max_fee_per_gas w.max_fee_per_gas;
    max_priority_fee_per_gas = reads_number op.max_priority_fee_per_gas w.max_priority_fee_per_gas;
    paymaster =
        (g.address_hex op.paymaster, refl, sym (law.hex_to_address-address_hex op.paymaster));
    paymaster_data = (
      encode op.paymaster_data,
      refl,
      parse_base64_string-encode op.paymaster_data w.paymaster_data,
    );
    signature = (encode op.signature, refl, parse_base64_string-encode op.signature w.signature);
  }

  -- Where `HexToAddress` undoes `Address.Hex`, an operation without a nil number, written as a
  -- request with hexadecimal addresses, decimal numbers and base64 bytes, is made again from it.
  pub to_abi_struct-request_of :
      HexRoundTrip g
      → (op : Abi.UserOperation g.Address) → IsWellFormed op
      → to_abi_struct g (request_of op) ≡ done (ok op)
  to_abi_struct-request_of law op w =
      (to_abi_struct_ok_iff g (request_of op) op).1 (request_of-Translates law op w)
