-- ===== src/Controller/Bodies.antt =====
-- What a client reads of the bodies of `errorResp` and `successResp`, bundler/src/controller/main.go,
-- as JSON.
use pay_gas_x.Base.{
  ℕ, ◌≤◌, ◌≡◌, refl, ◌↔◌, ◌∙◌, ap, sym, inl, inr, List, [], ◌∷◌, ◌++◌, All, length, Option, none,
  some, Option-cases, Text, text, arith,
}
use pay_gas_x.GoLib.Json.{
  Piece, plain, read_pieces, runes, read_string, expect, at_end, add_member, read_members,
  read_object, ◌>>=◌,
}
use pay_gas_x.GoLib.Json.Objects.{read_object-marshal_object}
use pay_gas_x.GoLib.Json.Plain.{IsPlain, read_pieces_plain, runes-char, plain_of_read, length-runes}
use pay_gas_x.Controller.Responses.{Body, health, handled, marshal, error_resp, success_resp}

-- The members that the fields of a struct become, by their `json` tags.
abbrev pub members : Body → List (Text × Text)
members (health r) =
    (text "hello", r.hello)
    ∷ (text "bundler_eoa", r.bundler_eoa)
    ∷ (text "chain_id", r.chain_id)
    ∷ (text "entrypoint_contract_address", r.entrypoint_contract_address)
    ∷ []
members (handled r) = (text "tx_hash", r.tx_hash) ∷ []

-- `successResp` of either struct answers 200, and its body reads as an object of the struct's
-- fields, in their order and whatever characters they hold.
pub success_resp-members :
    (b : Body)
    → ((success_resp b).status_code ≡ 200) × (read_object (success_resp b).body ≡ some (members b))
unfolding success_resp marshal
success_resp-members (health r) = (refl, read_object-marshal_object (members (health r)))
success_resp-members (handled r) = (refl, read_object-marshal_object (members (handled r)))

-- What is made of the string after `{"message": "`: the member, and the members after it.
abbrev message_member : Option (List Piece × Text) → Option ((Text × Text) × Text)
message_member o = do
  (value, rest) ← elim o [ none ↦ none | some (ps, rest) ↦ some (runes ps, rest) ]
  some ((text "message", value), rest)

abbrev members_from : ℕ → Option ((Text × Text) × Text) → Option (List (Text × Text))
members_from n o = elim o [
  | none ↦ none
  | some (f, r) ↦ elim (expect b',' r) [
    | some rest ↦ add_member f (read_members n rest)
    | none ↦ elim (expect b'}' r) [ none ↦ none | some rest ↦ at_end (f ∷ []) rest ]
  ]
]

abbrev after_message : ℕ → Option (List Piece × Text) → Option (List (Text × Text))
after_message n o = members_from n (message_member o)

-- The text of the body after its first character.
abbrev tail : Text → Text
tail m = text "\"message\": \"" ++ m ++ text "\"}"

error_body :
    (code : ℕ) (m : Text)
    → read_object (error_resp code m).body
      ≡ after_message (length (tail m)) (read_pieces plain (m ++ b'"' ∷ b'}' ∷ []))
unfolding error_resp read_object read_members read_string read_pieces runes
error_body code m = refl

-- The first member of an object that is read is the one that was read first.
members_from-head :
    (n : ℕ) (f d : Text × Text) (r : Text) (ds : List (Text × Text))
    → members_from n (some (f, r)) ≡ some (d ∷ ds)
    → (f ≡ d) × (1 ≤ length r)
members_from-head n f d [] ds h = cc
members_from-head n f d (c ∷ r) ds h = elim (Option-cases (expect b',' (c ∷ r))) [
  | inl e ↦ elim (Option-cases (expect b'}' (c ∷ r))) [
    | inl g ↦ absurd (ground arith)
    | inr (rest, g) ↦ (ground arith, omega arith)
  ]
  | inr (rest, e) ↦ elim (Option-cases (read_members n rest)) [
    | inl g ↦ absurd (ground arith)
    | inr (fs, g) ↦ (ground arith, omega arith)
  ]
]

-- The body of an error reads as an object of strings with the message as its only member exactly
-- where no character of the message needs an escape: none is a `"`, a backslash or a control
-- character.
pub error_resp_body_iff :
    (code : ℕ) (m : Text)
    → (read_object (error_resp code m).body ≡ some ((text "message", m) ∷ [])) ↔ All IsPlain m
error_resp_body_iff code m =
    let n = length (tail m) in
    (
      λ h. elim (Option-cases (read_pieces plain (m ++ b'"' ∷ b'}' ∷ []))) [
        | inl e ↦ absurd (
            let z : none ≡ some ((text "message", m) ∷ []) =
              sym (error_body code m ∙ ap (after_message n) e) ∙ h in
            cc)
        | inr ((ps, r), e) ↦
            let (f, k) =
              members_from-head n (text "message", runes ps) (text "message", m) r []
                (sym (error_body code m ∙ ap (after_message n) e) ∙ h) in
            let g : runes ps ≡ m = ap (λ p. p.1) f in
            let l : length m ≤ length ps =
              omega (arith, length-runes ps, ap (λ (t : Text). length t) g) in
            plain_of_read m (b'}' ∷ []) ps r e l k
      ],
      λ h.
          error_body code m
          ∙ ap (after_message n) (read_pieces_plain m (b'}' ∷ []) h)
          ∙ ap (λ t. some ((text "message", t) ∷ [])) (runes-char m),
    )
