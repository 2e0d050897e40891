-- ===== src/Controller/Request/Operation.antt =====
-- What an object for a `UserOperation` of bundler/src/controller/main.go means: each field by the
-- members of its name.

use pay_gas_x.Base.{
  sym, false, inl, inr, ◌≡◌, refl, ◌∙◌, ap, All, List, Option, none, some, Text, text, text_eq, map,
  if◌then◌else◌,
}
use pay_gas_x.GoLib.JsonValue.{
  bool, number, Json, Members, null, string, array, object, no_members, member,
}
use pay_gas_x.GoLib.Decode.{
  inside, Context, Decoded, Field, find, field_of, decode_string, decode_pointer, store_member,
  store_members,
}
use pay_gas_x.GoLib.Decode.Names.{folded, cases, none_found, field_of-folded}
use pay_gas_x.Controller.Types.{UserOperation}
use pay_gas_x.Controller.Request.{operation_fields}

-- The tags of the fields.
abbrev tags : List Text
tags = map (λ f. f.name) operation_fields

abbrev pointer_to : Json → Option Text
pointer_to (string s) = some s
pointer_to _ = none

-- The last member of the name, in any case of its letters, else what the field held.
abbrev last_value : Text → Members → Option Text → Option Text
last_value tag no_members old = old
last_value tag (member key v members) old =
    last_value tag members (if text_eq (folded key) tag then pointer_to v else old)

abbrev pub operation_of : Members → UserOperation → UserOperation
operation_of members u = record {
  sender = last_value (text "sender") members u.sender;
  nonce = last_value (text "nonce") members u.nonce;
  init_code = last_value (text "init_code") members u.init_code;
  call_data = last_value (text "call_data") members u.call_data;
  call_gas = last_value (text "call_gas") members u.call_gas;
  verification_gas = last_value (text "verification_gas") members u.verification_gas;
  pre_verification_gas = last_value (text "pre_verification_gas") members u.pre_verification_gas;
  max_fee_per_gas = last_value (text "max_fee_per_gas") members u.max_fee_per_gas;
  max_priority_fee_per_gas =
      last_value (text "max_priority_fee_per_gas") members u.max_priority_fee_per_gas;
  paymaster = last_value (text "paymaster") members u.paymaster;
  paymaster_data = last_value (text "paymaster_data") members u.paymaster_data;
  signature = last_value (text "signature") members u.signature;
}

-- A member that a field can hold, or of a name that no field has.
abbrev Fits : Text → Json → Type 0
Fits key null = Unit
Fits key (string s) = Unit
Fits key v = All (λ tag. text_eq (folded key) tag ≡ false) tags

abbrev pub AllFit : Members → Type 0
AllFit no_members = Unit
AllFit (member key v members) = Fits key v × AllFit members

-- The tags are in small letters, so that a name that is one of them matches in both ways.
field_of_tag : (key : Text) → field_of key operation_fields ≡ find folded key operation_fields
unfolding field_of
field_of_tag key =
    elim (cases (λ k. field_of k operation_fields ≡ find folded k operation_fields) tags key
      (
        refl,
        (refl, (refl, (refl, (refl, (refl, (refl, (refl, (refl, (refl, (refl, (refl, tt))))))))))),
      )) [
        | inl e ↦ e
        | inr a ↦ field_of-folded key operation_fields (none_found (λ k. k) key operation_fields a)
      ]

abbrev stored_in :
    Option (Field UserOperation) → Option Context → Json → UserOperation → Decoded UserOperation
stored_in f c v u = elim f [
  | none ↦ (u, none)
  | some f ↦ let (b, m) = f.store (inside (text "UserOperation") f.name c) v u in (b, m)
]

-- The operation with a value for the field of that tag.
abbrev set : Text → Option Text → UserOperation → UserOperation
set k o u = record {
  sender = if text_eq k (text "sender") then o else u.sender;
  nonce = if text_eq k (text "nonce") then o else u.nonce;
  init_code = if text_eq k (text "init_code") then o else u.init_code;
  call_data = if text_eq k (text "call_data") then o else u.call_data;
  call_gas = if text_eq k (text "call_gas") then o else u.call_gas;
  verification_gas = if text_eq k (text "verification_gas") then o else u.verification_gas;
  pre_verification_gas =
      if text_eq k (text "pre_verification_gas") then o else u.pre_verification_gas;
  max_fee_per_gas = if text_eq k (text "max_fee_per_gas") then o else u.max_fee_per_gas;
  max_priority_fee_per_gas =
      if text_eq k (text "max_priority_fee_per_gas") then o else u.max_priority_fee_per_gas;
  paymaster = if text_eq k (text "paymaster") then o else u.paymaster;
  paymaster_data = if text_eq k (text "paymaster_data") then o else u.paymaster_data;
  signature = if text_eq k (text "signature") then o else u.signature;
}

Stores : Text → Type 0
Stores k =
    (c : Option Context) (u : UserOperation)
    → (stored_in (find (λ t. t) k operation_fields) c null u ≡ (set k none u, none))
      × ((s : Text)
          → stored_in (find (λ t. t) k operation_fields) c (string s) u ≡ (set k (some s) u, none))

tag_Stores : All Stores tags
unfolding decode_pointer decode_string Stores
tag_Stores = (
  λ c u. (refl, λ s. refl),
  (
    λ c u. (refl, λ s. refl),
    (
      λ c u. (refl, λ s. refl),
      (
        λ c u. (refl, λ s. refl),
        (
          λ c u. (refl, λ s. refl),
          (
            λ c u. (refl, λ s. refl),
            (
              λ c u. (refl, λ s. refl),
              (
                λ c u. (refl, λ s. refl),
                (
                  λ c u. (refl, λ s. refl),
                  (
                    λ c u. (refl, λ s. refl),
                    (λ c u. (refl, λ s. refl), (λ c u. (refl, λ s. refl), tt)),
                  ),
                ),
              ),
            ),
          ),
        ),
      ),
    ),
  ),
)

-- A field that no tag names stays as it is.
set_other :
    (k : Text) (o : Option Text) (u : UserOperation)
    → All (λ tag. text_eq k tag ≡ false) tags
    → set k o u ≡ u
set_other k o u (a, (b, (c, (d, (e, (f, (g, (h, (i, (j, (l, (m, _)))))))))))) =
    simp (a, b, c, d, e, f, g, h, i, j, l, m)

skipped :
    (c : Option Context) (k : Text) (v : Json) (u : UserOperation) (o : Option Text)
    → All (λ tag. text_eq k tag ≡ false) tags
    → stored_in (find (λ t. t) k operation_fields) c v u ≡ (set k o u, none)
skipped c k v u o a =
    ap (λ f. stored_in f c v u) (none_found (λ t. t) k operation_fields a)
    ∙ ap (λ w. (w, none)) (sym (set_other k o u a))

stored_at :
    (c : Option Context) (key : Text) (v : Json) (u : UserOperation)
    → Fits key v
    → stored_in (find (λ t. t) (folded key) operation_fields) c v u
      ≡ (set (folded key) (pointer_to v) u, none)
unfolding Stores
stored_at c key null u h = elim (cases Stores tags (folded key) tag_Stores) [
  | inl st ↦ (st c u).0
  | inr a ↦ skipped c (folded key) null u none a
]
stored_at c key (string s) u h = elim (cases Stores tags (folded key) tag_Stores) [
  | inl st ↦ (st c u).1 s
  | inr a ↦ skipped c (folded key) (string s) u (some s) a
]
stored_at c key (bool b) u h = skipped c (folded key) (bool b) u none h
stored_at c key (number n) u h = skipped c (folded key) (number n) u none h
stored_at c key (array vs) u h = skipped c (folded key) (array vs) u none h
stored_at c key (object ms) u h = skipped c (folded key) (object ms) u none h

member_stored :
    (c : Option Context) (key : Text) (v : Json) (u : UserOperation)
    → Fits key v
    → store_member (text "UserOperation") operation_fields c key v (u, none)
      ≡ (set (folded key) (pointer_to v) u, none)
unfolding store_member
member_stored c key v u h = ap (λ f. stored_in f c v u) (field_of_tag key) ∙ stored_at c key v u h

pub members_stored :
    (c : Option Context) (members : Members) (u : UserOperation)
    → AllFit members
    → store_members (text "UserOperation") operation_fields c members (u, none)
      ≡ (operation_of members u, none)
unfolding store_members
members_stored c no_members u h = refl
members_stored c (member key v members) u (h, hs) =
    ap (store_members (text "UserOperation") operation_fields c members) (member_stored c key v u h)
    ∙ members_stored c members (set (folded key) (pointer_to v) u) hs
