-- ===== src/GoLib/Json/Objects.antt =====
-- The objects that `json.Marshal` writes, GoLib/Marshal.antt, are read back.
use mathlib.Core.List.{append_assoc}
use pay_gas_x.Base.{
  ℕ, zero, suc, ◌<◌, ◌≡◌, refl, ◌∙◌, ap, List, [], ◌∷◌, ◌++◌, length, length-append, none, some,
  Text, arith,
}
use pay_gas_x.GoLib.Marshal.{marshal_string, marshal_field, more_fields, marshal_object}
use pay_gas_x.GoLib.Json.{
  read_string, skip, expect, read_member, at_end, add_member, read_members, read_object,
}
use pay_gas_x.GoLib.Json.RoundTrip.{read_string-marshal_string}

skip-marshal_string : (s rest : Text) → skip (marshal_string s ++ rest) ≡ marshal_string s ++ rest
unfolding marshal_string
skip-marshal_string s rest = refl

-- A written string, past the spaces before it, of which there are none.
read_value : (s rest : Text) → read_string (skip (marshal_string s ++ rest)) ≡ some (s, rest)
read_value s rest = ap read_string (skip-marshal_string s rest) ∙ read_string-marshal_string s rest

read_member-marshal_field :
    (f : Text × Text) (rest : Text) → read_member (marshal_field f ++ rest) ≡ some (f, rest)
read_member-marshal_field (name, value) rest =
    let p : read_string (skip ((marshal_string name ++ b':' ∷ marshal_string value) ++ rest))
        ≡ some (name, b':' ∷ (marshal_string value ++ rest)) =
      ap (λ t. read_string (skip t))
        (append_assoc (marshal_string name) (b':' ∷ marshal_string value) rest)
      ∙ read_value name (b':' ∷ (marshal_string value ++ rest)) in
    let q = read_value value rest in rw p (rw q refl)

members_last :
    (n : ℕ) (t : Text) (f : Text × Text)
    → read_member t ≡ some (f, b'}' ∷ [])
    → read_members (suc n) t ≡ some (f ∷ [])
unfolding read_members
members_last n t f h =
    ap
      (λ m. elim m [
        | none ↦ none
        | some (f, r) ↦ elim (expect b',' r) [
          | some rest ↦ add_member f (read_members n rest)
          | none ↦ elim (expect b'}' r) [ none ↦ none | some rest ↦ at_end (f ∷ []) rest ]
        ]
      ])
      h

members_more :
    (n : ℕ) (t : Text) (f : Text × Text) (rest : Text)
    → read_member t ≡ some (f, b',' ∷ rest)
    → read_members (suc n) t ≡ add_member f (read_members n rest)
unfolding read_members
members_more n t f rest h =
    ap
      (λ m. elim m [
        | none ↦ none
        | some (f, r) ↦ elim (expect b',' r) [
          | some rest ↦ add_member f (read_members n rest)
          | none ↦ elim (expect b'}' r) [ none ↦ none | some rest ↦ at_end (f ∷ []) rest ]
        ]
      ])
      h

length-more_fields : (fs : List (Text × Text)) → length fs < length (more_fields fs)
unfolding more_fields
length-more_fields [] = omega arith
length-more_fields (f ∷ fs) =
    omega (arith, length-append (marshal_field f) (more_fields fs), length-more_fields fs)

read_members-marshal :
    (n : ℕ) (f : Text × Text) (fs : List (Text × Text))
    → length fs < n
    → read_members n (marshal_field f ++ more_fields fs) ≡ some (f ∷ fs)
unfolding more_fields
read_members-marshal zero f fs h = absurd (omega arith)
read_members-marshal (suc n) f [] h =
    members_last n (marshal_field f ++ b'}' ∷ []) f (read_member-marshal_field f (b'}' ∷ []))
read_members-marshal (suc n) f (d ∷ fs) h =
    members_more n (marshal_field f ++ b',' ∷ (marshal_field d ++ more_fields fs)) f
      (marshal_field d ++ more_fields fs)
      (read_member-marshal_field f (b',' ∷ (marshal_field d ++ more_fields fs)))
    ∙ ap (add_member f) (read_members-marshal n d fs (omega arith))

-- Any names and strings that `json.Marshal` has written as an object read back, in their order.
pub read_object-marshal_object :
    (fs : List (Text × Text)) → read_object (marshal_object fs) ≡ some fs
unfolding read_object marshal_object
read_object-marshal_object [] = refl
read_object-marshal_object (f ∷ fs) =
    let l : length fs < length (marshal_object (f ∷ fs)) =
      omega (arith, length-append (marshal_field f) (more_fields fs), length-more_fields fs) in
    let e = read_members-marshal (length (marshal_object (f ∷ fs))) f fs l in
    unfold marshal_string in e
