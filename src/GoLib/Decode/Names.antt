-- ===== src/GoLib/Decode/Names.antt =====
-- Which field of a struct the decoder of GoLib/Decode.antt finds by a name.
use mathlib.Core.Path.{subst}
use pay_gas_x.Base.{
  sym, Bool, Bool-cases, false, inl, inr, ◌≡◌, ◌⊎◌, refl, ◌∙◌, ap, All, List, [], ◌∷◌, Option, none,
  some, Text, text_eq, text_eq_iff, map, if◌then◌else◌,
}
use pay_gas_x.GoLib.JsonValue.{Json}
use pay_gas_x.GoLib.Decode.{inside, Context, Field, fold, find, field_of, store_member}

-- The small letters of a name.
abbrev pub folded : Text → Text
folded key = map fold key

-- What holds of each tag holds of a name that is one of them.
pub cases :
    (P : Text → Type 0) (ts : List Text) (k : Text)
    → All P ts
    → P k ⊎ All (λ tag. text_eq k tag ≡ false) ts
cases P [] k h = inr tt
cases P (t ∷ ts) k h = elim (Bool-cases (text_eq k t)) [
  | inl e ↦ inl (subst P (sym ((text_eq_iff k t).0 e)) h.0)
  | inr e ↦ elim (cases P ts k h.1) [ inl p ↦ inl p | inr a ↦ inr (e, a) ]
]

pub none_found :
    {A : Type 0} (change : Text → Text) (k : Text) (fs : List (Field A))
    → All (λ tag. text_eq (change k) tag ≡ false) (map (λ f. f.name) fs)
    → find change k fs ≡ none
none_found change k [] h = refl
none_found change k (f ∷ fs) h = rw h.0 (none_found change k fs h.1)

pub field_of-folded :
    {A : Type 0} (key : Text) (fs : List (Field A))
    → find (λ k. k) key fs ≡ none
    → field_of key fs ≡ find folded key fs
unfolding field_of
field_of-folded {A} key fs h =
    ap (λ (o : Option (Field A)). elim o [ some f ↦ some f | none ↦ find folded key fs ]) h

-- A field that is the only one.
only_field :
    {A : Type 0} (key : Text) (f : Field A) → folded key ≡ f.name → field_of key (f ∷ []) ≡ some f
unfolding field_of
only_field {A} key f h =
    let if_f : Bool → Option (Field A) = λ b. if b then some f else none in
    elim (Bool-cases (text_eq key f.name)) [
      | inl e ↦ ap (λ b. elim (if_f b) [ some g ↦ some g | none ↦ find folded key (f ∷ []) ]) e
      | inr e ↦
          field_of-folded key (f ∷ []) (ap if_f e) ∙ ap if_f ((text_eq_iff (folded key) f.name).1 h)
    ]

pub only_member :
    {A : Type 0} (struct_name : Text) (c : Option Context) (key : Text) (v : Json) (f : Field A)
    (a : A)
    → folded key ≡ f.name
    → store_member struct_name (f ∷ []) c key v (a, none)
      ≡ f.store (inside struct_name f.name c) v a
unfolding store_member
only_member {A} struct_name c key v f a h =
    ap
      (λ (o : Option (Field A)). elim o [
        | none ↦ (a, none)
        | some g ↦ g.store (inside struct_name g.name c) v a
      ])
      (only_field key f h)
