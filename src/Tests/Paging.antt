-- ===== src/Tests/Paging.antt =====
-- The pages of the history of the scenario's wallet.
use distributed_wallet_api.Prelude.{◌+◌, ◌≡◌, refl, ap, some, [], pos, arith, ok, suc, length}
use distributed_wallet_api.Money.{number_from}
use distributed_wallet_api.Money.Digits.{numeral-IsNumeral}
use distributed_wallet_api.Store.Invariant.{entries_of}
use distributed_wallet_api.Pages.{Codec}
use distributed_wallet_api.Pages.Suffixes.{Numbering}
use distributed_wallet_api.Pages.Walk.{walk}
use distributed_wallet_api.Pages.Complete.{Lawful, walk_complete}
use distributed_wallet_api.Tests.Scenario.{won_db, won_db-Valid, won_wallet}

-- Cursors in the clear.
abbrev codec : Codec
codec = record {
  base64_encode = λ t. t;
  base64_decode = λ t. some t;
  parse_int64 = λ t. some (pos (number_from 0 t));
}

codec-Lawful : Lawful codec
codec-Lawful = record {
  decodes = λ t. refl;
  full = λ t h. h;
  parses = λ n h. ap (λ k. some (pos k)) (numeral-IsNumeral n).value;
}

from_one : Numbering (λ n. n + 1)
from_one = record { positive = λ n. omega arith; grows = λ m n h. omega (arith, h) }

walk_complete_example :
    walk codec (λ n. n + 1) 7 [] won_db (suc (length (entries_of 7 won_db.ledger))) []
    ≡ ok (entries_of 7 won_db.ledger)
walk_complete_example =
    walk_complete codec codec-Lawful (λ n. n + 1) from_one 7 [] won_db {w = won_wallet} won_db-Valid
      refl (omega arith, tt)
