-- ===== src/Authority.antt =====
-- The authority rules of src/mini_code_agent/memory_models.py: what an origin may create, and what may
-- be derived from sources.
use mini_code_agent_langgrap.Prelude.{
  ◌≡◌, ℕ, ◌≤◌, Bool, false, not, ◌||◌, List, [], ◌∷◌, String, Result, ok, ◌==◌, ltb, leb, contains,
  concat, if◌then◌else◌, arith,
}
use mini_code_agent_langgrap.Prelude.Results.{
  ◌>>=◌, ◌>>◌, raise_if, raise, >>=-eq-ok, raise_if-eq-ok,
}
use mini_code_agent_langgrap.Prelude.Library.{Library}
use mini_code_agent_langgrap.Mutations.{authority_rank}

abbrev pub memory_origins : List String
memory_origins = "user" ∷ "trusted_tool" ∷ "agent" ∷ "external" ∷ []

abbrev pub memory_authorities : List String
memory_authorities = "none" ∷ "inform" ∷ "act" ∷ []

-- `_ORIGIN_MAX_AUTHORITY[origin]`
unfoldable pub origin_max_authority : String → Result String
origin_max_authority origin =
    if origin == "external"
    then ok "none"
    else if origin == "agent"
    then ok "inform"
    else if origin == "trusted_tool"
    then ok "inform"
    else if origin == "user"
    then ok "act"
    else raise "KeyError" origin

unfoldable pub validate_authority : Library → String → String → Result (Unit {0})
validate_authority lib origin authority = do
  raise_if (not (contains origin memory_origins)) "ValueError"
      (concat ("unsupported memory origin: " ∷ origin ∷ []))
  raise_if (not (contains authority memory_authorities)) "ValueError"
      (concat ("unsupported memory authority: " ∷ authority ∷ []))
  maximum ← origin_max_authority origin
  limit ← authority_rank maximum
  rank ← authority_rank authority
  raise_if (ltb limit rank) "ValueError" (
      concat (
        "origin "
        ∷ lib.repr origin
        ∷ " cannot create "
        ∷ lib.repr authority
        ∷ " authority memory"
        ∷ []))

abbrev minimum : ℕ → ℕ → ℕ
minimum a b = if leb a b then a else b

-- `min(_AUTHORITY_RANK[item] for item in source_authorities)`, of a tuple that starts with the first.
unfoldable pub minimum_rank : String → List String → Result ℕ
minimum_rank a [] = authority_rank a
minimum_rank a (b ∷ rest) = do
  rank ← authority_rank a
  least ← minimum_rank b rest
  ok (minimum rank least)

unfoldable pub any_unsupported : List String → Bool
any_unsupported [] = false
any_unsupported (a ∷ rest) = not (contains a memory_authorities) || any_unsupported rest

unfoldable pub validate_derived_authority : String → List String → Result (Unit {0})
unfolding any_unsupported minimum_rank
validate_derived_authority authority [] = ok tt
validate_derived_authority authority (a ∷ rest) = do
  raise_if (not (contains authority memory_authorities) || any_unsupported (a ∷ rest)) "ValueError"
      "unsupported memory authority"
  least ← minimum_rank a rest
  rank ← authority_rank authority
  raise_if (ltb least rank) "ValueError" "derived memory cannot increase source authority"

-- The rank of `authority` is at most that of each of the sources.
pub data IsBelow (rank : ℕ) : List String → Type 0 where
  no_source : IsBelow rank []
  below :
      (a : String) (rest : List String) (n : ℕ)
      → authority_rank a ≡ ok n
      → rank ≤ n
      → IsBelow rank rest
      → IsBelow rank (a ∷ rest)

minimum_rank-IsBelow :
    (a : String) (rest : List String) (rank least : ℕ)
    → minimum_rank a rest ≡ ok least
    → rank ≤ least
    → IsBelow rank (a ∷ rest)
unfolding minimum_rank
minimum_rank-IsBelow a [] rank least h le = below a [] least h le no_source
minimum_rank-IsBelow a (b ∷ rest) rank least h le =
    let (n, e, h1) = >>=-eq-ok (authority_rank a) _ h in
    let (m, e', h2) = >>=-eq-ok (minimum_rank b rest) _ h1 in
    below a (b ∷ rest) n e (ground arith) (minimum_rank-IsBelow b rest rank m e' (ground arith))

-- A derived authority that is admitted is at most the authority of every source, where there is one.
pub validate_derived_authority-IsBelow :
    (authority : String) (a : String) (rest : List String)
    → validate_derived_authority authority (a ∷ rest) ≡ ok tt
    → (rank : ℕ) × (authority_rank authority ≡ ok rank) × IsBelow rank (a ∷ rest)
unfolding validate_derived_authority
validate_derived_authority-IsBelow authority a rest h =
    let (_, _, h1) =
      >>=-eq-ok
        (raise_if (not (contains authority memory_authorities) || any_unsupported (a ∷ rest)) _ _) _
        h in
    let (least, e, h2) = >>=-eq-ok (minimum_rank a rest) _ h1 in
    let (rank, e', h3) = >>=-eq-ok (authority_rank authority) _ h2 in
    let within = raise_if-eq-ok (ltb least rank) _ _ h3 in
    (rank, e', minimum_rank-IsBelow a rest rank least e (ground arith))
