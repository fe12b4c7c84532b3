-- ===== src/Tests/Records.antt =====
-- What an operation leaves on record, on the scenario.
use distributed_wallet_api.Prelude.{codes, some, [], ◌∷◌}
use distributed_wallet_api.Store.{Database}
use distributed_wallet_api.Process.{execute}
use distributed_wallet_api.Process.History.{Grows, execute-Grows}
use distributed_wallet_api.Tests.Scenario.{
  some_hash, win_command, quiet_ports, world_of, initial_db,
}

execute-Grows_example :
    Grows initial_db (execute quiet_ports win_command (world_of initial_db)).1.db
execute-Grows_example = execute-Grows quiet_ports win_command (world_of initial_db) (λ n db g. g)

-- The message was completed by an earlier delivery.
abbrev pub seen_db : Database
seen_db = record initial_db {
  inbox =
      record {
        consumer_name = codes "c1";
        message_id = codes "m1";
        payload_hash = some_hash;
        received_at = 1;
        completed_at = some 2;
        attempts = 1;
      }
      ∷ [];
}
