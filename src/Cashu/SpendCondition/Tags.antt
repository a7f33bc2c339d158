-- ===== src/Cashu/SpendCondition/Tags.antt =====
-- The names of tags and flags: Tags.String and TagFromString (api/cashu/spend_condition.go).
use nutmix.Prelude.{◌≡◌, refl}
use nutmix.Cashu.Errors.{ok}
use nutmix.Cashu.SpendCondition.{
  Tag, sigflag, pubkeys, n_sigs, locktime, refund, n_sig_refund, tag_string, tag_from_string,
}

-- TagFromString reads back the name that Tags.String gives to a tag.
pub tag_from_string-tag_string : (t : Tag) → tag_from_string (tag_string t) ≡ ok t
unfolding tag_from_string tag_string
tag_from_string-tag_string sigflag = refl
tag_from_string-tag_string pubkeys = refl
tag_from_string-tag_string n_sigs = refl
tag_from_string-tag_string locktime = refl
tag_from_string-tag_string refund = refl
tag_from_string-tag_string n_sig_refund = refl
