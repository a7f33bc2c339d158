-- ===== src/Mint/Units.antt =====
-- The units of a request's proofs and outputs: checkProofsAreSameUnit (internal/mint/mint.go),
-- checkMessagesAreSameUnit and verifyOutputs (internal/mint/utils.go).
pub mod SameUnit
use nutmix.Prelude.{
  ℕ, String, List, [], ◌∷◌, Option, none, some, str_eq, if◌then◌else◌, ltb, length, insert,
}
use nutmix.Cashu.Errors.{
  Result, ok, err, Error, ◌>>=◌, fail_if, keyset_not_know, not_same_units, unit_not_supported,
}
use nutmix.Cashu.Types.{CashuUnit, Proof, BlindedMessage, BasicKeysetResponse}
use nutmix.Cashu.Externals.{Externals}
use nutmix.Cashu.Convert.{unit_from_string}

-- `seenKeys[id].Unit`: a later keyset replaces an earlier one with its id.
abbrev pub seen_unit : List BasicKeysetResponse → String → Option String
seen_unit [] id = none
seen_unit (k ∷ ks) id = elim (seen_unit ks id) [
  | some u ↦ some u
  | none ↦ if str_eq k.id id then some k.unit else none
]

-- The loop that both checks share: the set of units seen so far, and the error for a second unit.
gather_units : List BasicKeysetResponse → Error → List String → List String → Result (List String)
gather_units keys mixed units [] = ok units
gather_units keys mixed units (id ∷ ids) = elim (seen_unit keys id) [
  | none ↦ err (keyset_not_know ∷ [])
  | some u ↦
      let rest = gather_units keys mixed (insert u units) ids in
      if ltb 1 (length (insert u units)) then err mixed else rest
]

-- `for unit := range units`: there is one at most.
unit_of_set : Externals → Error → List String → Result CashuUnit
unit_of_set x no_unit [] = err no_unit
unit_of_set x no_unit (u ∷ us) = unit_from_string x u

abbrev pub proof_ids : List Proof → List String
proof_ids [] = []
proof_ids (p ∷ ps) = p.id ∷ proof_ids ps

abbrev pub message_ids : List BlindedMessage → List String
message_ids [] = []
message_ids (m ∷ ms) = m.id ∷ message_ids ms

module _ (x : Externals) where
  unfoldable pub check_proofs_are_same_unit :
      List Proof → List BasicKeysetResponse → Result CashuUnit
  unfolding gather_units unit_of_set
  check_proofs_are_same_unit proofs keys =
      gather_units keys (not_same_units ∷ []) [] (proof_ids proofs)
      >>= unit_of_set x (unit_not_supported ∷ [])

  unfoldable pub check_messages_are_same_unit :
      List BlindedMessage → List BasicKeysetResponse → Result CashuUnit
  unfolding gather_units unit_of_set
  check_messages_are_same_unit messages keys =
      gather_units keys [] [] (message_ids messages) >>= unit_of_set x []

  unfoldable pub verify_outputs : List BlindedMessage → List BasicKeysetResponse → Result CashuUnit
  unfolding check_messages_are_same_unit
  verify_outputs outputs keys = check_messages_are_same_unit outputs keys
