-- ===== src/Controller/ToAbi/Numbers.antt =====
-- Texts that are no numerals in the fields of numbers.
use pay_gas_x.Base.{
  ℕ, List, ◌≡◌, inl, inr, Option, none, some, Text, ok, Result-cases, Option-cases, done, arith,
}
use pay_gas_x.Geth.{Geth}
use pay_gas_x.Util.{parse_big_int_string, parse_base64_string}
use pay_gas_x.Util.Laws.{IsNumeral, parse_big_int_string_iff}
use pay_gas_x.Abi.Types as Abi
use pay_gas_x.Controller.Types.{UserOperation}
use pay_gas_x.Controller.ToAbi.{to_abi_struct}
use pay_gas_x.Controller.ToAbi.Presence.{IsComplete, to_abi_struct_of_IsComplete}

not_numeral : (s : Text) → (IsNumeral s → ⊥) → parse_big_int_string s ≡ none
not_numeral s h = elim (Option-cases (parse_big_int_string s)) [
  | inl e ↦ e
  | inr found ↦ absurd (h ((parse_big_int_string_iff s).0 found))
]

-- A field of bytes that decodes.
abbrev Decodable : Option Text → Type 0
Decodable field = (s : Text) × (bs : List ℕ) × (field ≡ some s) × (parse_base64_string s ≡ ok bs)

-- The four fields of bytes decode.
pub record BytesDecode (uo : UserOperation) : Type 0 where
  pub init_code : Decodable uo.init_code
  pub call_data : Decodable uo.call_data
  pub paymaster_data : Decodable uo.paymaster_data
  pub signature : Decodable uo.signature

module _ (g : Geth) (uo : UserOperation) where
  -- A complete operation whose fields of bytes decode is accepted whatever its numbers are: where
  -- the nonce is no numeral, the call returns no error and the struct holds a nil nonce.
  pub to_abi_struct_nil_nonce :
      IsComplete uo
      → BytesDecode uo
      → (nonce : Text) → uo.nonce ≡ some nonce
      → (IsNumeral nonce → ⊥)
      → (op : Abi.UserOperation g.Address) × (to_abi_struct g uo ≡ done (ok op)) × (op.nonce ≡ none)
  unfolding to_abi_struct
  to_abi_struct_nil_nonce c b nonce e h =
      let (r, f) = to_abi_struct_of_IsComplete g uo c in
      let n : parse_big_int_string nonce ≡ none = not_numeral nonce h in
      elim (Result-cases r) [
        | inl (op, p) ↦ (op, ground arith, ground arith)
        | inr (m, p) ↦ absurd (ground arith)
      ]
