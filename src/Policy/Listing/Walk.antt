-- ===== src/Policy/Listing/Walk.antt =====
-- A client that advances its offset by the limit that each page reports, over the paging of the contract:
-- `_paginatePolicies` of contracts/contracts/InsuranceProvider.sol, whose numbers do not overflow here.
use mathlib.Core.Path.{subst}
use climate_chain.Shared.{
  ℕ, zero, suc, ◌+◌, ◌-◌, ◌≤◌, ◌<◌, ◌==◌, min, String, ◌≡◌, refl, sym, ap, ◌∙◌, inl, inr, true,
  ◌||◌, Option, none, List, [], ◌∷◌, ◌++◌, map, arith, leb, ltb, if◌then◌else◌, length, take, drop,
  length-take, length-drop, take-append-drop, Bool-cases, leb→le, take-all, take-nil, drop-all,
  drop-drop, map-take, map-drop, map-append, length-map,
}
use climate_chain.Config.Types.{BlockchainConfig}
use climate_chain.ChainProvider.{is_enabled}
use climate_chain.EvmAddress.{normalize_evm_address}
use climate_chain.Js.{Value, str, Result, ok, throw, ◌>>=◌}
use climate_chain.ErrorMapper.{ParsedError}
use climate_chain.RegionCode.{Bytes32}
use climate_chain.Policy.Chain.Types.{ChainPolicy}
use climate_chain.Policy.Chain.Reads.{Reader, read_policy}
use climate_chain.Policy.Chain.Reads.Laws.{ReadsTo, ReadsTo-take-drop}
use climate_chain.Policy.Chain.Reads.Pages.{list_policies-all_page}
use climate_chain.Policy.Listing.{PolicyResponse, to_policy_response, ListPoliciesQuery, list}

-- `_paginatePolicies`
abbrev pub paginate_policies : List String → (offset limit : ℕ) → List String
paginate_policies source offset limit =
    let total = length source in
    let end_exclusive = if ltb total (offset + limit) then total else offset + limit in
    if leb total offset || limit == 0
    then []
    else take (end_exclusive - offset) (drop offset source)

-- A page is what stands from the offset on, up to the limit.
paginate_policies_eq :
    (source : List String) (offset limit : ℕ)
    → paginate_policies source offset limit ≡ take limit (drop offset source)
paginate_policies_eq source offset limit =
    let left = length-drop offset source in
    elim (Bool-cases (leb (length source) offset)) [
      | inl past ↦ rw (past) (
          sym (
            ap (take limit) (drop-all offset source (leb→le (length source) offset past))
            ∙ take-nil limit))
      | inr inside ↦ elim (Bool-cases (limit == 0)) [
        | inl nothing ↦
            let e : 0 ≡ limit = ground arith in
            rw (inside, nothing) (ap (λ n. take n (drop offset source)) e)
        | inr something ↦ elim (Bool-cases (ltb (length source) (offset + limit))) [
          | inl short ↦
              rw (inside, something, short)
                (take-all (length source - offset) (drop offset source) (omega (arith, left))
                  ∙ sym (take-all limit (drop offset source) (ground (arith, left))))
          | inr long ↦
              let e : offset + limit - offset ≡ limit = omega arith in
              rw (inside, something, long) (ap (λ n. take n (drop offset source)) e)
        ]
      ]
    ]

length-ReadsTo :
    {A : Type 0} (read : String → Result A) (addresses : List String) (xs : List A)
    → ReadsTo read addresses xs
    → length xs ≡ length addresses
length-ReadsTo read [] [] all = refl
length-ReadsTo read [] (x ∷ xs) all = elim all [ ]
length-ReadsTo read (a ∷ addresses) [] all = elim all [ ]
length-ReadsTo read (a ∷ addresses) (x ∷ xs) (here, later) =
    ap suc (length-ReadsTo read addresses xs later)

-- The contract holds these addresses, at a head that does not move while the client reads.
pub record Serves (reader : Reader) (block : ℕ) (addresses : List String) : Type 0 where
  pub connected : reader.provider ≡ ok tt
  pub pinned : reader.head ≡ ok block
  pub paged :
      (offset limit : ℕ)
      → reader.all_page block offset limit
        ≡ ok (paginate_policies addresses offset limit, length addresses)

module _ {Interface : Type 0} (parse_error : Interface → String → Option ParsedError)
    (string_of : Value → String) (interfaces : List Interface) (config : BlockchainConfig)
    (codec : Bytes32) (pick : Value → List Value → Value) (reader : Reader) where
  abbrev query_at : ℕ → ℕ → ListPoliciesQuery
  query_at limit offset = record { offset = offset; limit = limit; insured = none }

  -- The client asks for pages until one is empty, and gives up after so many rounds.
  pub walk : (rounds limit offset : ℕ) → Result (List PolicyResponse)
  walk zero limit offset = throw (str "more pages")
  walk (suc rounds) limit offset = do
    page ← list parse_error string_of interfaces config codec pick reader (query_at limit offset)
    if page.count == 0
        then ok []
        else do rest ← walk rounds limit (offset + page.limit); ok (page.items ++ rest)

  module _ (block : ℕ) (addresses : List String) (policies : List ChainPolicy)
      (serves : Serves reader block addresses)
      (reads : ReadsTo
        (read_policy codec (reader.policy block))
        (map normalize_evm_address addresses)
        policies)
      (enabled : is_enabled config ≡ true) where
    reads_at :
        (limit offset : ℕ)
        → ReadsTo
            (read_policy codec (reader.policy block))
            (map normalize_evm_address (paginate_policies addresses offset limit))
            (take limit (drop offset policies))
    reads_at limit offset =
        let read = read_policy codec (reader.policy block) in
        let same : take limit (drop offset (map normalize_evm_address addresses))
            ≡ map normalize_evm_address (paginate_policies addresses offset limit) =
          sym (
            ap (map normalize_evm_address) (paginate_policies_eq addresses offset limit)
            ∙ map-take normalize_evm_address limit (drop offset addresses)
            ∙ ap (take limit) (map-drop normalize_evm_address offset addresses)) in
        let later =
          (ReadsTo-take-drop read offset (map normalize_evm_address addresses) policies reads).1 in
        subst (λ ps. ReadsTo read ps (take limit (drop offset policies))) same
          (ReadsTo-take-drop read limit (drop offset (map normalize_evm_address addresses))
            (drop offset policies) later).0

    list_at :
        (limit offset : ℕ)
        → list parse_error string_of interfaces config codec pick reader (query_at limit offset)
          ≡ ok (record {
            items =
                map to_policy_response
                  (take (min limit config.max_page_size) (drop offset policies));
            total = length addresses;
            offset = offset;
            limit = min limit config.max_page_size;
            count = length (take (min limit config.max_page_size) (drop offset policies));
          })
    unfolding list
    list_at limit offset =
        let cap = min limit config.max_page_size in
        let found : List String × ℕ = (paginate_policies addresses offset cap, length addresses) in
        rw
          (list_policies-all_page parse_error string_of interfaces config codec pick reader offset
            limit block found (take cap (drop offset policies)) enabled serves.connected
            serves.pinned (serves.paged offset cap) (reads_at cap offset))
          refl

    walk_from :
        (rounds limit offset : ℕ)
        → 1 ≤ limit
        → 1 ≤ config.max_page_size
        → length policies - offset < rounds
        → walk rounds limit offset ≡ ok (map to_policy_response (drop offset policies))
    unfolding walk
    walk_from zero limit offset some_limit some_cap enough =
        let absurd : ⊥ = omega arith in elim absurd [ ]
    walk_from (suc rounds) limit offset some_limit some_cap enough =
        let cap = min limit config.max_page_size in
        let left = drop offset policies in
        let counted = length-take cap left in
        let remaining = length-drop offset policies in
        elim (Bool-cases (length (take cap left) == 0)) [
          | inl empty ↦
              let nothing : length policies ≤ offset = ground (arith, counted, remaining) in
              rw (list_at limit offset, empty)
                (ap (λ xs. ok (map to_policy_response xs)) (sym (drop-all offset policies nothing)))
          | inr some_left ↦
              let fewer : length policies - (offset + cap) < rounds =
                ground (arith, counted, remaining) in
              rw
                (
                  list_at limit offset,
                  some_left,
                  walk_from rounds limit (offset + cap) some_limit some_cap fewer,
                )
                (ap ok (
                  sym (map-append to_policy_response (take cap left) (drop (offset + cap) policies))
                  ∙ ap (λ xs. map to_policy_response (take cap left ++ xs))
                      (sym (drop-drop offset cap policies))
                  ∙ ap (map to_policy_response) (take-append-drop cap left)))
        ]

  -- Where the node is configured, the cap and the requested limit are positive, and the contract's list and the
  -- head stay the same and every policy of the list can be read: a client that starts at 0 and advances
  -- by the limit that each page reports is given every policy, once and in the order of the contract, and comes to
  -- an empty page after no more requests than there are policies and one.
  pub walk-all :
      (block : ℕ) (addresses : List String) (policies : List ChainPolicy) (limit : ℕ)
      → Serves reader block addresses
      → ReadsTo
          (read_policy codec (reader.policy block))
          (map normalize_evm_address addresses)
          policies
      → is_enabled config ≡ true
      → 1 ≤ limit
      → 1 ≤ config.max_page_size
      → walk (suc (length addresses)) limit 0 ≡ ok (map to_policy_response policies)
  walk-all block addresses policies limit serves reads enabled some_limit some_cap =
      let many =
        length-ReadsTo (read_policy codec (reader.policy block))
          (map normalize_evm_address addresses) policies reads in
      let same = length-map normalize_evm_address addresses in
      walk_from block addresses policies serves reads enabled (suc (length addresses)) limit 0
        some_limit some_cap (omega (arith, many, same))
