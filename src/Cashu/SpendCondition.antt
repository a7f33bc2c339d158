-- ===== src/Cashu/SpendCondition.antt =====
-- Spend conditions and witnesses: their data and decoding (api/cashu/spend_condition.go).
pub mod Signatures
pub mod Tags
pub mod Verify
pub mod SigAll
use nutmix.Prelude.{
  ℕ, ◌+◌, String, List, [], ◌∷◌, Bool, true, false, Option, none, some, str_eq, if◌then◌else◌, ltb,
  length, map, ◌++◌, ◌&&◌, ◌||◌, is_empty, ◌==◌,
}
use nutmix.Cashu.Errors.{
  Result, ok, err, ◌>>=◌, fail_if, join, Error, malformed_tag, invalid_tag_name, invalid_tag_value,
  invalid_sig_flag, could_not_parse_spend_condition, could_not_parse_witness,
  invalid_spend_condition, invalid_hex_preimage, invalid_preimage,
}
use nutmix.Cashu.Types.{PublicKey, Signature, Proof}
use nutmix.Cashu.Externals.{Externals}

pub data SpendConditionType : Type 0 where
  any_one_can_spend p2pk htlc : SpendConditionType

-- `unset` is the zero value.
pub data SigFlag : Type 0 where
  unset sig_all sig_inputs : SigFlag

abbrev pub is_sig_all : SigFlag → Bool
is_sig_all sig_all = true
is_sig_all _ = false

pub data Tag : Type 0 where
  sigflag pubkeys n_sigs locktime refund n_sig_refund : Tag

pub record TagsInfo : Type 0 where
  pub original_tag : String
  pub pubkeys : List PublicKey
  pub refund : List PublicKey
  pub sigflag : SigFlag
  pub n_sigs : ℕ
  pub locktime : ℕ
  pub n_sig_refund : ℕ

pub record SpendCondition : Type 0 where
  pub type : SpendConditionType
  pub nonce : String
  pub payload : String
  pub tags : TagsInfo

pub record Witness : Type 0 where
  pub preimage : String
  pub signatures : List Signature

-- Tags.String and TagFromString
unfoldable pub tag_string : Tag → String
tag_string sigflag = "sigflag"
tag_string pubkeys = "pubkeys"
tag_string n_sigs = "n_sigs"
tag_string locktime = "locktime"
tag_string refund = "refund"
tag_string n_sig_refund = "n_sigs_refund"

unfoldable pub tag_from_string : String → Result Tag
tag_from_string s =
    if str_eq s "sigflag"
    then ok sigflag
    else if str_eq s "pubkeys"
    then ok pubkeys
    else if str_eq s "n_sigs"
    then ok n_sigs
    else if str_eq s "locktime"
    then ok locktime
    else if str_eq s "refund"
    then ok refund
    else if str_eq s "n_sigs_refund"
    then ok n_sig_refund
    else err (invalid_tag_name ∷ [])

-- SigFlag.String and SigFlagFromString
unfoldable pub sig_flag_string : SigFlag → String
sig_flag_string unset = ""
sig_flag_string sig_all = "SIG_ALL"
sig_flag_string sig_inputs = "SIG_INPUTS"

unfoldable pub sig_flag_from_string : String → Result SigFlag
sig_flag_from_string s =
    if str_eq s "SIG_ALL"
    then ok sig_all
    else if str_eq s "SIG_INPUTS"
    then ok sig_inputs
    else err (invalid_tag_value ∷ [])

-- SpendConditionType.UnmarshalJSON, on the raw JSON text: any other text is taken for a plain secret.
unfoldable pub spend_condition_type_unmarshal_json : String → SpendConditionType
spend_condition_type_unmarshal_json b =
    if str_eq b "\"P2PK\"" || str_eq b "P2PK"
    then p2pk
    else if str_eq b "\"HTLC\"" || str_eq b "HTLC"
    then htlc
    else any_one_can_spend

-- SpendCondition.HasSigAll and SpendCondition.CheckValid
unfoldable pub has_sig_all : SpendCondition → Bool
has_sig_all sc = is_sig_all sc.tags.sigflag

unfoldable pub check_valid : SpendCondition → Result (Unit {0})
check_valid sc =
    fail_if (ltb 10 (length sc.tags.pubkeys + length sc.tags.refund)) (invalid_spend_condition ∷ [])

-- An option of an external call, with the error that the code wraps.
abbrev pub or_error : {A : Type 0} → Option A → Error → Result A
or_error none e = err e
or_error (some a) e = ok a

module _ (x : Externals) where
  -- `for _, pubkey := range tagInfo`: each key is decoded, parsed and appended.
  parse_keys : List PublicKey → List String → Result (List PublicKey)
  parse_keys keys [] = ok keys
  parse_keys keys (t ∷ ts) = or_error (x.hex_decode t) [] >>= λ bytes.
      or_error (x.parse_pub_key bytes) [] >>= λ k. parse_keys (keys ++ k ∷ []) ts

  -- One tag, its name and its values, put into the fields.
  parse_tag : TagsInfo → Tag → List String → Result TagsInfo
  unfolding parse_keys
  parse_tag t sigflag (v ∷ []) =
      join invalid_sig_flag (sig_flag_from_string v) >>= λ f. ok (record t { sigflag = f })
  parse_tag t pubkeys vs = parse_keys t.pubkeys vs >>= λ ks. ok (record t { pubkeys = ks })
  parse_tag t refund vs = parse_keys t.refund vs >>= λ ks. ok (record t { refund = ks })
  parse_tag t n_sigs (v ∷ []) = or_error (x.parse_uint v) [] >>= λ n. ok (record t { n_sigs = n })
  parse_tag t n_sig_refund (v ∷ []) =
      or_error (x.parse_uint v) [] >>= λ n. ok (record t { n_sig_refund = n })
  parse_tag t locktime (v ∷ []) =
      or_error (x.parse_uint v) [] >>= λ n. ok (record t { locktime = n })
  parse_tag t _ vs = err (malformed_tag ∷ [])

  -- A tag has a name and at least one value.
  parse_tag_texts : TagsInfo → List String → Result TagsInfo
  unfolding parse_tag
  parse_tag_texts t (name ∷ v ∷ vs) = tag_from_string name >>= λ tag. parse_tag t tag (v ∷ vs)
  parse_tag_texts t _ = err (malformed_tag ∷ [])

  parse_all_tags : TagsInfo → List (List String) → Result TagsInfo
  unfolding parse_tag_texts
  parse_all_tags t [] = ok t
  parse_all_tags t (texts ∷ rest) = parse_tag_texts t texts >>= λ t'. parse_all_tags t' rest

  abbrev pub no_tags : TagsInfo
  no_tags = record {
    original_tag = "";
    pubkeys = [];
    refund = [];
    sigflag = unset;
    n_sigs = 0;
    locktime = 0;
    n_sig_refund = 0;
  }

  -- TagsInfo.UnmarshalJSON, into a fresh value; the raw text is kept.
  unfoldable pub tags_info_unmarshal_json : String → Result TagsInfo
  unfolding parse_all_tags
  tags_info_unmarshal_json b = or_error (x.json_strings b) [] >>= λ texts.
      parse_all_tags no_tags texts >>= λ t. ok (record t { original_tag = b })

  -- SpendCondition.UnmarshalJSON: a JSON array, its first element the type and its second the data.
  -- Missing elements leave the zero values.
  spend_condition_unmarshal_json : List String → Result SpendCondition
  spend_condition_unmarshal_json [] =
      ok (record { type = any_one_can_spend; nonce = ""; payload = ""; tags = no_tags })
  spend_condition_unmarshal_json (kind ∷ []) = ok (record {
    type = spend_condition_type_unmarshal_json kind;
    nonce = "";
    payload = "";
    tags = no_tags;
  })
  spend_condition_unmarshal_json (kind ∷ body ∷ _) =
      or_error (x.json_condition_data body) [] >>= λ d.
      (elim d.2 [ none ↦ ok no_tags | some raw ↦ tags_info_unmarshal_json raw ]) >>= λ t.
      ok (record {
        type = spend_condition_type_unmarshal_json kind;
        nonce = d.0;
        payload = d.1;
        tags = t;
      })

  -- Proof.parseSpendCondition
  unfoldable pub parse_spend_condition : Proof → Result SpendCondition
  unfolding spend_condition_unmarshal_json
  parse_spend_condition p =
      join could_not_parse_spend_condition
        (or_error (x.json_array p.secret) [] >>= spend_condition_unmarshal_json)

  parse_signatures : List String → Result (List Signature)
  parse_signatures [] = ok []
  parse_signatures (s ∷ ss) = or_error (x.hex_decode s) [] >>= λ bytes.
      or_error (x.parse_signature bytes) [] >>= λ sig.
      parse_signatures ss >>= λ sigs. ok (sig ∷ sigs)

  -- Witness.UnmarshalJSON
  unfoldable pub witness_unmarshal_json : String → Result Witness
  unfolding parse_signatures
  witness_unmarshal_json b = or_error (x.json_witness b) [] >>= λ d.
      parse_signatures d.1 >>= λ sigs. ok (record { preimage = d.0; signatures = sigs })

  -- Proof.parseWitness
  unfoldable pub parse_witness : Proof → Result Witness
  parse_witness p =
      if str_eq p.witness ""
      then ok (record { preimage = ""; signatures = [] })
      else join could_not_parse_witness (witness_unmarshal_json p.witness)

  -- Proof.IsProofSpendConditioned: `none` for a secret that carries no condition.
  unfoldable pub is_proof_spend_conditioned : Proof → Result (Option SpendCondition)
  is_proof_spend_conditioned p = elim (x.json_array p.secret) [
    | none ↦ ok none
    | some [] ↦ err []
    | some (first ∷ []) ↦ err []
    | some (first ∷ second ∷ rest) ↦ or_error (x.json_string first) [] >>= λ kind.
        if str_eq kind "P2PK" || str_eq kind "HTLC"
        then (parse_spend_condition p >>= λ sc. ok (some sc))
        else ok none
  ]

  -- SpendCondition.VerifyPreimage
  unfoldable pub verify_preimage : SpendCondition → Witness → Result (Unit {0})
  verify_preimage sc w = or_error (x.hex_decode w.preimage) (invalid_hex_preimage ∷ []) >>= λ bytes.
      if str_eq (x.hex_encode (x.sha256 bytes)) sc.payload
      then ok tt
      else err (invalid_preimage ∷ [])
