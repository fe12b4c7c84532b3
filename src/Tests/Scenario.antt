-- ===== src/Tests/Scenario.antt =====
-- A wallet, its commands and a quiet environment, for the examples.
use distributed_wallet_api.Prelude.{
  ◌+ℤ◌, is_blank, trim_space, text_eq, ℕ, ◌+◌, ◌≡◌, refl, arith, true, false, ◌<◌, [], ◌∷◌, pos,
  codes, Text, nil_uuid,
}
use distributed_wallet_api.Money.{
  add, require_same_currency, wrap64, equals, compare_money, validate, Money, is_valid_iso4217,
}
use distributed_wallet_api.Money.Arith.{IsMoney}
use distributed_wallet_api.Wallet.{Wallet}
use distributed_wallet_api.Wallet.Movements.{IsWallet}
use distributed_wallet_api.Wallet.{credit_direction}
use distributed_wallet_api.Transaction.{WagerTransaction, win, processed, no_code}
use distributed_wallet_api.Transaction.{
  validate_external_metadata, validate_transaction_identity, validate_amount_for_kind,
  validate_reference_for_kind,
}
use distributed_wallet_api.Transaction.{check_origin, check_resolved, check_code, check_result}
use distributed_wallet_api.Transaction.Invariant.{IsTransaction}
use distributed_wallet_api.Ledger.{
  WalletLedgerEntry, restore_ledger_entry, build_ledger_entry, validate_ledger_arithmetic,
}
use distributed_wallet_api.Ledger.Chain.{Posted}
use distributed_wallet_api.Store.{Database, Ports, World}
use distributed_wallet_api.Store.Invariant.{TransactionOk, Valid}
use distributed_wallet_api.Process.{WagerCommand}
use distributed_wallet_api.Process.Applied.{Sound}

abbrev pub brl : ℕ → Money
brl n = record { cents = pos n; currency = codes "BRL" }

abbrev pub some_hash : Text
some_hash = codes "e3b0c44298fc1c149afbf4c8996fb92427ae41e4649b934ca495991b7852b855"

abbrev pub wallet_with : ℕ → Wallet
wallet_with n = record {
  id = 7;
  player_id = 8;
  balance = brl n;
  version = pos 1;
  created_at = 1;
  updated_at = 1;
}

abbrev pub win_command : WagerCommand
win_command = record {
  provider_id = codes "p1";
  external_transaction_id = codes "t1";
  idempotency_key = codes "k1";
  payload_hash = codes "aaaaaaaaaaaaaaaaaaaaaaaaaaaaaaaaaaaaaaaaaaaaaaaaaaaaaaaaaaaaaaaa";
  player_id = 8;
  wallet_id = 7;
  round_id = codes "r1";
  game_id = codes "g1";
  kind = win;
  money = brl 500;
  reference_external_id = [];
  metadata = record { correlation_id = 5; causation_id = nil_uuid };
}

-- The same operation with another payload.
abbrev pub changed_command : WagerCommand
changed_command = record win_command {
  payload_hash = codes "bbbbbbbbbbbbbbbbbbbbbbbbbbbbbbbbbbbbbbbbbbbbbbbbbbbbbbbbbbbbbbbb";
}

-- The same operation on a wallet that is not there.
abbrev pub lost_command : WagerCommand
lost_command = record win_command { wallet_id = 9 }

abbrev pub quiet_ports : Ports
quiet_ports = record {
  clock = λ n. 10 + n;
  ids = λ n. 100 + n;
  fails = λ n. false;
  applied = λ n. false;
  others = λ n db. db;
}

abbrev pub initial_db : Database
initial_db = record {
  wallets = wallet_with 0 ∷ [];
  transactions = [];
  ledger = [];
  outbox = [];
  inbox = [];
}

abbrev pub world_of : Database → World
world_of db = record { db = db; ticks = 0; drawn = 0; calls = 0; begun = 0 }

pub quiet_ports-Sound : Sound quiet_ports
quiet_ports-Sound = record {
  ids = λ n e. omega arith;
  clock = λ n. omega arith;
  others = λ n db v. v;
}

pub brl-iso : is_valid_iso4217 (codes "BRL") ≡ true
unfolding is_valid_iso4217
brl-iso = refl

pub brl-IsMoney : (n : ℕ) → n < 1000000 → IsMoney (brl n)
brl-IsMoney n h = record { initialized = refl; in_range = (omega arith, omega arith) }

pub wallet_with-IsWallet : (n : ℕ) → n < 1000000 → IsWallet (wallet_with n)
wallet_with-IsWallet n h = record {
  has_id = λ e. omega arith;
  has_player = λ e. omega arith;
  money = brl-IsMoney n h;
  not_negative = omega arith;
  versioned = omega arith;
  version_fits = omega arith;
  created = omega arith;
  ordered = omega arith;
}

pub initial_db-Valid : Valid initial_db
initial_db-Valid = record {
  wallets =
      (record { wallet = wallet_with-IsWallet 0 (omega arith); iso = brl-iso; history = refl }, tt);
  wallet_ids = (refl, tt);
  transactions = tt;
  transaction_ids = tt;
  reversals = λ r n. omega arith;
  postings = tt;
}

-- The operation of `win_command` and its ledger entry after a run on `initial_db`.
abbrev pub won : WagerTransaction
won = record {
  id = 100;
  wallet_id = 7;
  player_id = 8;
  provider_id = win_command.provider_id;
  external_transaction_id = win_command.external_transaction_id;
  idempotency_key = win_command.idempotency_key;
  payload_hash = win_command.payload_hash;
  round_id = win_command.round_id;
  game_id = win_command.game_id;
  reference_external_id = [];
  reference_transaction_id = nil_uuid;
  kind = win;
  money = brl 500;
  state = processed;
  failure_code = no_code;
  result_balance = brl 500;
  created_at = 10;
  updated_at = 10;
}

abbrev pub won_entry : WalletLedgerEntry
won_entry = record {
  id = 101;
  wallet_id = 7;
  transaction_id = 100;
  direction = credit_direction;
  amount = brl 500;
  balance_before = brl 0;
  balance_after = brl 500;
  created_at = 10;
}

abbrev pub won_wallet : Wallet
won_wallet = record (wallet_with 500) { version = pos 2; updated_at = 10 }

abbrev pub won_db : Database
won_db = record initial_db {
  wallets = won_wallet ∷ [];
  transactions = won ∷ [];
  ledger = won_entry ∷ [];
}

won-IsTransaction : IsTransaction won
unfolding validate_transaction_identity validate_external_metadata check_origin check_resolved
    check_code check_result validate_amount_for_kind validate_reference_for_kind validate is_blank
    trim_space text_eq
won-IsTransaction = record {
  kind_known = refl;
  state_known = refl;
  identity = refl;
  origin = refl;
  amount = refl;
  reference = refl;
  resolved = refl;
  code = refl;
  result = refl;
  clean = λ e. cc;
  created = omega arith;
  ordered = omega arith;
}

pub won_entry-Posted : Posted (codes "BRL") (pos 0) won_entry
unfolding ◌+ℤ◌ restore_ledger_entry build_ledger_entry validate_ledger_arithmetic validate add
    require_same_currency text_eq wrap64 equals compare_money
won_entry-Posted = record {
  known = tt;
  currency_same = refl;
  positive = omega arith;
  fits = omega arith;
  before = refl;
  after = refl;
  not_negative = omega arith;
  bound = omega arith;
  restored = refl;
}

won_wallet-IsWallet : IsWallet won_wallet
won_wallet-IsWallet = record {
  has_id = λ e. omega arith;
  has_player = λ e. omega arith;
  money = brl-IsMoney 500 (omega arith);
  not_negative = omega arith;
  versioned = omega arith;
  version_fits = omega arith;
  created = omega arith;
  ordered = omega arith;
}

pub won-TransactionOk : TransactionOk won
won-TransactionOk = record {
  entity = won-IsTransaction;
  iso = brl-iso;
  in_range = (brl-IsMoney 500 (omega arith)).in_range;
}

pub won_db-Valid : Valid won_db
won_db-Valid = record {
  wallets = (
    record { wallet = won_wallet-IsWallet; iso = brl-iso; history = (won_entry-Posted, refl) },
    tt,
  );
  wallet_ids = (refl, tt);
  transactions = (won-TransactionOk, tt);
  transaction_ids = (refl, tt);
  reversals = λ r n. ground arith;
  postings = (refl, tt);
}
