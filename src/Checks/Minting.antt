-- ===== src/Checks/Minting.antt =====
-- Examples for new mint quotes and the names of tags.
use nutmix.Prelude.{◌≡◌, refl, none}
use nutmix.Cashu.Errors.{ok}
use nutmix.Cashu.Types.{PostMintQuoteBolt11Request, MintRequestDb, unpaid}
use nutmix.Cashu.Convert.{unit_from_string, unit_string}
use nutmix.Cashu.SpendCondition.{tag_string, tag_from_string, locktime}
use nutmix.Cashu.SpendCondition.Tags.{tag_from_string-tag_string}
use nutmix.Database.{save_mint_request}
use nutmix.Mint.Exec.{get_tx, clock, random_hash, network, commit, statement, pure, lift, ◌>>=◌}
use nutmix.Mint.Quotes.{
  bolt11, create_mint_quote, create_bolt11_mint_quote, validate_mint_configuration,
}
use nutmix.Mint.Quotes.Created.{Created, create_mint_quote-Created}
use nutmix.Checks.Fixtures.{env, empty_tables, start, paid_quote}

abbrev quote_request : PostMintQuoteBolt11Request
quote_request = record { description = none; pubkey = ""; unit = "sat"; amount = 7 }

abbrev new_quote : MintRequestDb
new_quote = record paid_quote { state = unpaid; expiry = 1902; seen_at = 1002 }

created :
    create_mint_quote env quote_request bolt11 (start empty_tables)
    ≡ (ok new_quote, (create_mint_quote env quote_request bolt11 (start empty_tables)).1)
unfolding create_mint_quote create_bolt11_mint_quote validate_mint_configuration unit_from_string
    unit_string save_mint_request get_tx clock random_hash network commit statement pure lift ◌>>=◌
created = refl

create_mint_quote-Created_example :
    (bolt11 ≡ bolt11)
    × Created env quote_request new_quote
        (create_mint_quote env quote_request bolt11 (start empty_tables)).1.committed
create_mint_quote-Created_example =
    create_mint_quote-Created env quote_request bolt11 (start empty_tables)
      (create_mint_quote env quote_request bolt11 (start empty_tables)).1 new_quote created

tag_from_string-tag_string_example : tag_from_string (tag_string locktime) ≡ ok locktime
tag_from_string-tag_string_example = tag_from_string-tag_string locktime
