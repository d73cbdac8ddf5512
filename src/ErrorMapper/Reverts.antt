-- ===== src/ErrorMapper/Reverts.antt =====
-- When a thrown value decodes to a revert.
use Prim.Native.String.{count}
use climate_chain.Shared.{
  ◌<◌, ◌≤◌, ltb, String, ◌≡◌, refl, sym, ◌∙◌, ◌↔◌, ◌⊎◌, inl, inr, Option, none, some, List, [], ◌∷◌,
  All, arith, Bool-cases, Option-cases,
}
use climate_chain.Js.{Value, as_string, prop}
use climate_chain.ErrorMapper.{
  ParsedError, hex_payload, read_revert_data, first_parsed, decoded, decode_revert,
}

-- A text of more than the two characters of `0x`.
abbrev pub IsPayload : Value → String → Type 0
IsPayload v payload = (as_string v ≡ some payload) × (2 < count payload)

abbrev pub IsNoPayload : Value → Type 0
IsNoPayload v =
    (as_string v ≡ none) ⊎ ((text : String) × (as_string v ≡ some text) × (count text ≤ 2))

hex_payload_cases :
    (v : Value)
    → ((hex_payload v ≡ none) × IsNoPayload v)
      ⊎ ((payload : String) × (hex_payload v ≡ some payload) × IsPayload v payload)
unfolding hex_payload
hex_payload_cases v = elim (Option-cases (as_string v)) [
  | inl missing ↦ inl (rw (missing, hex_payload) refl, inl missing)
  | inr (text, present) ↦ elim (Bool-cases (ltb 2 (count text))) [
    | inl long ↦ inr (text, rw (present, long, hex_payload) refl, (present, ground arith))
    | inr short ↦ inl (rw (present, short, hex_payload) refl, inr (text, present, ground arith))
  ]
]

IsPayload-IsNoPayload : (v : Value) (payload : String) → IsPayload v payload → IsNoPayload v → ⊥
IsPayload-IsNoPayload v payload (present, long) (inl missing) = cc
IsPayload-IsNoPayload v payload (present, long) (inr (text, other, short)) =
    let same : text ≡ payload = cc in omega (arith, rw (same) at short)

IsPayload-inj : (v : Value) (p q : String) → IsPayload v p → IsPayload v q → p ≡ q
IsPayload-inj v p q (a, long) (b, long') = cc

-- The value has the payload of a revert, in its `data` or else in its `info.error.data`.
abbrev pub HasPayload : Value → String → Type 0
HasPayload thrown payload =
    IsPayload (prop "data" thrown) payload
    ⊎ (IsNoPayload (prop "data" thrown)
        × IsPayload (prop "data" (prop "error" (prop "info" thrown))) payload)

HasPayload-inj : (thrown : Value) (p q : String) → HasPayload thrown p → HasPayload thrown q → p ≡ q
HasPayload-inj thrown p q (inl a) (inl b) = IsPayload-inj _ p q a b
HasPayload-inj thrown p q (inl a) (inr (no_data, b)) =
    elim (IsPayload-IsNoPayload _ p a no_data) [ ]
HasPayload-inj thrown p q (inr (no_data, a)) (inl b) =
    elim (IsPayload-IsNoPayload _ q b no_data) [ ]
HasPayload-inj thrown p q (inr (no_data, a)) (inr (no_data', b)) = IsPayload-inj _ p q a b

read_revert_data_cases :
    (thrown : Value)
    → ((read_revert_data thrown ≡ none)
        × IsNoPayload (prop "data" thrown)
        × IsNoPayload (prop "data" (prop "error" (prop "info" thrown))))
      ⊎ ((payload : String) × (read_revert_data thrown ≡ some payload) × HasPayload thrown payload)
unfolding read_revert_data
read_revert_data_cases thrown = elim (hex_payload_cases (prop "data" thrown)) [
  | inr (payload, read, it) ↦ inr (payload, rw (read, read_revert_data) refl, inl it)
  | inl (missing, no_data) ↦
      elim (hex_payload_cases (prop "data" (prop "error" (prop "info" thrown)))) [
        | inr (payload, read, it) ↦
            inr (payload, rw (missing, read, read_revert_data) refl, inr (no_data, it))
        | inl (nested, no_nested) ↦
            inl (rw (missing, nested, read_revert_data) refl, no_data, no_nested)
      ]
]

module _ {Interface : Type 0} (parse_error : Interface → String → Option ParsedError)
    (string_of : Value → String) where
  -- It has no such payload, or none of the interfaces, whichever and in whatever place, decodes it.
  abbrev pub IsUndecoded : Value → List Interface → Type 0
  IsUndecoded thrown interfaces =
      (IsNoPayload (prop "data" thrown)
        × IsNoPayload (prop "data" (prop "error" (prop "info" thrown))))
      ⊎ ((payload : String) × HasPayload thrown payload
          × All (λ iface. parse_error iface payload ≡ none) interfaces)

  first_parsed-none :
      (payload : String) (interfaces : List Interface)
      → (first_parsed parse_error string_of payload interfaces ≡ none)
        ↔ All (λ iface. parse_error iface payload ≡ none) interfaces
  unfolding first_parsed
  first_parsed-none payload [] = (λ h. tt, λ h. refl)
  first_parsed-none payload (iface ∷ interfaces) =
      let (there, back) = first_parsed-none payload interfaces in
      elim (Option-cases (parse_error iface payload)) [
        | inl unknown ↦ (
          λ h. (unknown, there (rw (unknown, first_parsed) at h)),
          λ h. rw (unknown, first_parsed) (back h.1),
        )
        | inr (parsed, known) ↦ (
          λ h. let wrong : some (decoded parsed) ≡ none = rw (known, first_parsed) at h in cc,
          λ h. let wrong : some parsed ≡ none = sym known ∙ h.0 in cc,
        )
      ]

  pub decode_revert_iff :
      (thrown : Value) (interfaces : List Interface)
      → (decode_revert parse_error string_of thrown interfaces ≡ none)
        ↔ IsUndecoded thrown interfaces
  unfolding decode_revert
  decode_revert_iff thrown interfaces = elim (read_revert_data_cases thrown) [
    | inl (unread, no_data, no_nested) ↦
        (λ h. inl (no_data, no_nested), λ h. rw (unread, decode_revert) refl)
    | inr (payload, read, it) ↦ (
      λ h.
          inr
            (payload, it, (first_parsed-none payload interfaces).0 (rw (read, decode_revert) at h)),
      λ h. elim h [
        | inl (no_data, no_nested) ↦ elim it [
          | inl direct ↦ elim (IsPayload-IsNoPayload _ payload direct no_data) [ ]
          | inr (missing, nested) ↦ elim (IsPayload-IsNoPayload _ payload nested no_nested) [ ]
        ]
        | inr (other, its, all) ↦
            let same : other ≡ payload = HasPayload-inj thrown other payload its it in
            rw (read, decode_revert) ((first_parsed-none payload interfaces).1 (rw (same) at all))
      ],
    )
  ]
