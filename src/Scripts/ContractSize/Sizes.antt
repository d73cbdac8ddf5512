-- ===== src/Scripts/ContractSize/Sizes.antt =====
-- Where the sizes that are compared come from.
use mathlib.Core.List.{Memᴰ}
use mathlib.Core.Path.{subst}
use climate_chain.Shared.{
  String, ◌≡◌, refl, sym, ap, false, ◌∙◌, inl, inr, true, some, List, [], ◌∷◌, ◌||◌, not, All,
  str_eq, eq_iff, includes, or_else, Bool-cases, Option-cases,
}
use climate_chain.Shared.Dict.{Dict, get, set, get-set}
use climate_chain.Js.{
  Value, undefined, null, as_string, prop, Result, ok, throw, bind_ok, ok_inj, throw-ne-ok,
}
use climate_chain.Registry.Json.{member}
use climate_chain.Scripts.ContractSize.{
  ContractSizeEntry, target_contracts, deployed_bytecode_size_in_bytes, select_artifact,
  select_artifacts, missing_from, entries_of, sizes_unless_missing, get_current_sizes,
}

-- One of the artifact files was read, names the contract, and holds the bytecode whose size the entry
-- has.
pub record IsSized (files : List (Result Value)) (name : String) (e : ContractSizeEntry)
    : Type 0 where
  pub artifact : Value
  pub read : Memᴰ (ok artifact) files
  pub names : as_string (prop "contractName" artifact) ≡ some name
  pub entry_name : e.contract_name ≡ name
  pub measured :
      e.deployed_bytecode_bytes
      ≡ deployed_bytecode_size_in_bytes
          (or_else (as_string (prop "deployedBytecode" artifact)) "0x")

-- The sizes have an entry of the contract.
abbrev pub IsTracked : List (Result Value) → List ContractSizeEntry → String → Type 0
IsTracked files current name = (e : ContractSizeEntry) × Memᴰ e current × IsSized files name e

AllSized : List (Result Value) → Dict ContractSizeEntry → Type 0
AllSized files m =
    (name : String) (e : ContractSizeEntry) → get name m ≡ some e → IsSized files name e

none_sized : (files : List (Result Value)) → AllSized files []
unfolding AllSized get
none_sized files name e found = cc

member_ok : (v : Value) (k : String) (f : Value) → member v k ≡ ok f → f ≡ prop k v
member_ok undefined k f done = elim (throw-ne-ok done) [ ]
member_ok null k f done = elim (throw-ne-ok done) [ ]
member_ok v k f done = sym (ok_inj done)

get_entry :
    (name : String) (m : Dict ContractSizeEntry) (e : ContractSizeEntry)
    → get name m ≡ some e
    → Memᴰ e (entries_of m)
unfolding get
get_entry name [] e found = cc
get_entry name ((j, d) ∷ m) e found = elim (Bool-cases (str_eq j name)) [
  | inl same ↦ let this : some d ≡ some e = rw (same, get) at found in Memᴰ.head cc
  | inr other ↦ Memᴰ.tail (get_entry name m e (rw (other, get) at found))
]

set-AllSized :
    (files : List (Result Value)) (m : Dict ContractSizeEntry) (name : String)
    (d : ContractSizeEntry)
    → IsSized files name d
    → AllSized files m
    → AllSized files (set name d m)
unfolding AllSized
set-AllSized files m name d this sized k e found = elim (Bool-cases (str_eq name k)) [
  | inl same ↦
      let one : some d ≡ some e = rw (get-set, same) at found in
      let entry : d ≡ e = cc in
      subst (λ x. IsSized files x e) ((eq_iff name k).0 same)
        (subst (IsSized files name) entry this)
  | inr other ↦ sized k e (rw (get-set, other) at found)
]

-- A field that is no text, or an empty one, names no contract.
named_field :
    (field : Value)
    → (str_eq (or_else (as_string field) "") ""
        || not (includes target_contracts (or_else (as_string field) "")))
      ≡ false
    → as_string field ≡ some (or_else (as_string field) "")
named_field field kept = elim (Option-cases (as_string field)) [
  | inl missing ↦ let wrong : true ≡ false = rw (missing) at kept in cc
  | inr (s, present) ↦ rw (present) refl
]

select_artifact-AllSized :
    (files : List (Result Value)) (m m' : Dict ContractSizeEntry) (artifact : Value)
    → Memᴰ (ok artifact) files
    → AllSized files m
    → select_artifact m artifact ≡ ok m'
    → AllSized files m'
unfolding select_artifact AllSized
select_artifact-AllSized files m m' artifact read sized done =
    let (field, asked, d1) = bind_ok (member artifact "contractName") _ m' done in
    let name = or_else (as_string field) "" in
    let entry : ContractSizeEntry = record {
      contract_name = name;
      deployed_bytecode_bytes =
          deployed_bytecode_size_in_bytes
            (or_else (as_string (prop "deployedBytecode" artifact)) "0x");
    } in
    elim (Bool-cases (str_eq name "" || not (includes target_contracts name))) [
      | inl skipped ↦ subst (AllSized files) (ok_inj (rw (skipped) at d1)) sized
      | inr kept ↦
          let this : IsSized files name entry = record {
            artifact = artifact;
            read = read;
            names =
                ap as_string (sym (member_ok artifact "contractName" field asked))
                ∙ named_field field kept;
            entry_name = refl;
            measured = refl;
          } in
          let stored : set name entry m ≡ m' = ok_inj (rw (kept) at d1) in
          subst (AllSized files) stored (set-AllSized files m name entry this sized)
    ]

select_artifacts-AllSized :
    (files rest : List (Result Value)) (m m' : Dict ContractSizeEntry)
    → ((r : Result Value) → Memᴰ r rest → Memᴰ r files)
    → AllSized files m
    → select_artifacts m rest ≡ ok m'
    → AllSized files m'
unfolding select_artifacts
select_artifacts-AllSized files [] m m' within sized done =
    subst (AllSized files) (ok_inj done) sized
select_artifacts-AllSized files (r ∷ rest) m m' within sized done =
    let (artifact, read, d1) = bind_ok r _ m' done in
    let (m1, selected, d2) = bind_ok (select_artifact m artifact) _ m' d1 in
    select_artifacts-AllSized files rest m1 m' (λ x here. within x (Memᴰ.tail here))
      (select_artifact-AllSized files m m1 artifact (within (ok artifact) (Memᴰ.head (sym read)))
        sized selected)
      d2

missing_from_nil :
    (names : List String) (m : Dict ContractSizeEntry)
    → missing_from names m ≡ []
    → All (λ name. (e : ContractSizeEntry) × (get name m ≡ some e)) names
unfolding missing_from
missing_from_nil [] m done = tt
missing_from_nil (name ∷ names) m done = elim (Option-cases (get name m)) [
  | inl missing ↦
      let wrong : name ∷ missing_from names m ≡ [] = rw (missing, missing_from) at done in cc
  | inr (e, found) ↦ ((e, found), missing_from_nil names m (rw (found, missing_from) at done))
]

missing_from-IsTracked :
    (files : List (Result Value)) (m : Dict ContractSizeEntry) (current : List ContractSizeEntry)
    (names : List String)
    → AllSized files m
    → ((e : ContractSizeEntry) → Memᴰ e (entries_of m) → Memᴰ e current)
    → All (λ name. (e : ContractSizeEntry) × (get name m ≡ some e)) names
    → All (IsTracked files current) names
unfolding AllSized
missing_from-IsTracked files m current [] sized within all = tt
missing_from-IsTracked files m current (name ∷ names) sized within ((e, found), all) = (
  (e, within e (get_entry name m e found), sized name e found),
  missing_from-IsTracked files m current names sized within all,
)

none_missing :
    (sorted : List ContractSizeEntry → List ContractSizeEntry) (m : Dict ContractSizeEntry)
    (current : List ContractSizeEntry) (missing : List String)
    → missing_from target_contracts m ≡ missing
    → sizes_unless_missing sorted m missing ≡ ok current
    → (missing_from target_contracts m ≡ []) × (sorted (entries_of m) ≡ current)
unfolding sizes_unless_missing
none_missing sorted m current [] this done = (this, ok_inj done)
none_missing sorted m current (name ∷ names) this done = elim (throw-ne-ok done) [ ]

-- Sizes that are given come from the files that were found, and have an entry of every tracked contract.
pub get_current_sizes_ok :
    (sorted : List ContractSizeEntry → List ContractSizeEntry)
    (artifacts : Result (List (Result Value))) (current : List ContractSizeEntry)
    → ((es : List ContractSizeEntry) (e : ContractSizeEntry) → Memᴰ e es → Memᴰ e (sorted es))
    → get_current_sizes sorted artifacts ≡ ok current
    → (files : List (Result Value)) × (artifacts ≡ ok files)
      × All (IsTracked files current) target_contracts
unfolding get_current_sizes
get_current_sizes_ok sorted (throw e) current keeps done = elim (throw-ne-ok done) [ ]
get_current_sizes_ok sorted (ok files) current keeps done =
    let (selected, all, d1) = bind_ok (select_artifacts [] files) _ current done in
    let (none_left, same) = none_missing sorted selected current _ refl d1 in
    let sized : AllSized files selected =
      select_artifacts-AllSized files files [] selected (λ r here. here) (none_sized files) all in
    (
      files,
      refl,
      missing_from-IsTracked files selected current target_contracts sized
          (λ e here. subst (Memᴰ e) same (keeps (entries_of selected) e here))
          (missing_from_nil target_contracts selected none_left),
    )
