-- ===== src/Controller/ToAbi/Presence.antt =====
-- Missing fields and fields that do not parse, in `ToABIStruct`.
use pay_gas_x.Base.{
  ℕ, List, ◌++◌, ◌≡◌, ◌⊎◌, inl, inr, Option, some, Text, text, Result, Outcome-cases, ok, err, done,
  panicked, arith,
}
use pay_gas_x.Geth.{Geth}
use pay_gas_x.Util.{parse_base64_string}
use pay_gas_x.Config.Getters.{nil_dereference}
use pay_gas_x.Abi.Types as Abi
use pay_gas_x.Controller.Types.{UserOperation}
use pay_gas_x.Controller.ToAbi.{to_abi_struct}

abbrev pub IsPresent : Option Text → Type 0
IsPresent field = (s : Text) × (field ≡ some s)

-- All twelve fields are there.
pub record IsComplete (uo : UserOperation) : Type 0 where
  pub sender : IsPresent uo.sender
  pub nonce : IsPresent uo.nonce
  pub init_code : IsPresent uo.init_code
  pub call_data : IsPresent uo.call_data
  pub call_gas : IsPresent uo.call_gas
  pub verification_gas : IsPresent uo.verification_gas
  pub pre_verification_gas : IsPresent uo.pre_verification_gas
  pub max_fee_per_gas : IsPresent uo.max_fee_per_gas
  pub max_priority_fee_per_gas : IsPresent uo.max_priority_fee_per_gas
  pub paymaster : IsPresent uo.paymaster
  pub paymaster_data : IsPresent uo.paymaster_data
  pub signature : IsPresent uo.signature

-- A field that is there and is not the base64 text of any bytes, and the error that tells of it.
abbrev pub FailsWith : Option Text → Text → Text → Type 0
FailsWith field message m =
    (s : Text) × (e : Text) × (field ≡ some s)
    × (parse_base64_string s ≡ err e)
    × (m ≡ message ++ e)

abbrev pub Decodes : Option Text → Type 0
Decodes field = (s : Text) × (bs : List ℕ) × (field ≡ some s) × (parse_base64_string s ≡ ok bs)

-- The error tells of the first of the four fields of bytes that does not decode.
abbrev pub NamesFirst : UserOperation → Text → Type 0
NamesFirst uo m =
    FailsWith uo.call_data (text "failed to parse call data: ") m
    ⊎ ((Decodes uo.call_data × FailsWith uo.init_code (text "failed to parse init code: ") m)
        ⊎ ((Decodes uo.call_data
              × Decodes uo.init_code
              × FailsWith uo.signature (text "failed to parse signature: ") m)
            ⊎ (Decodes uo.call_data
                × Decodes uo.init_code
                × Decodes uo.signature
                × FailsWith uo.paymaster_data (text "failed to parse paymaster data: ") m)))

module _ (g : Geth) (uo : UserOperation) where
  -- With every field there the call returns.
  pub to_abi_struct_of_IsComplete :
      IsComplete uo → (r : Result (Abi.UserOperation g.Address)) × (to_abi_struct g uo ≡ done r)
  unfolding to_abi_struct
  to_abi_struct_of_IsComplete c = elim (Outcome-cases (to_abi_struct g uo)) [
    | inl found ↦ found
    | inr other ↦ absurd (ground arith)
  ]

  -- When `ToABIStruct` panics, it is the dereference of a nil pointer, and the request lacks one of
  -- its twelve fields.
  pub to_abi_struct_panics :
      (m : Text) → to_abi_struct g uo ≡ panicked m → (m ≡ nil_dereference) × (IsComplete uo → ⊥)
  unfolding to_abi_struct
  to_abi_struct_panics m h = ground arith

  -- When `ToABIStruct` returns an error, one of call data, init code, signature and paymaster data is
  -- not the base64 text of any bytes; those before it in this order decode, and the message is the
  -- name of the field followed by the decoder's error.
  pub to_abi_struct_err : {m : Text} → to_abi_struct g uo ≡ done (err m) → NamesFirst uo m
  unfolding to_abi_struct
  to_abi_struct_err h = ground arith
