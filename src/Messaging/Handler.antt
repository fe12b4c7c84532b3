-- ===== src/Messaging/Handler.antt =====
-- `WagerHandler` (infra/messaging/wager-handler.go) and what the consumer does with its answer
-- (infra/messaging/consumer.go).
use distributed_wallet_api.Prelude.{
  ℕ, zero, suc, ◌/◌, ◌-◌, ◌^◌, ◌*◌, ltb, if◌then◌else◌, Option, none, some, Text, Uuid, Error,
  Result, ok, err, payload_conflict, message_conflict, invalid_command, permanent_message,
}
use distributed_wallet_api.Store.{Ports, M, pure, throw, lift, catch, new_id, ◌>>=◌}
use distributed_wallet_api.Process.{WagerCommand, execute_from_message}
use distributed_wallet_api.Messaging.Inbound.{
  InboundMessage, Decoder, parse_inbound, metadata_of_message,
}

abbrev pub command_from : InboundMessage → Uuid → Uuid → WagerCommand
command_from m causation_id fresh = record {
  provider_id = m.data_of.provider_id;
  external_transaction_id = m.data_of.external_transaction_id;
  idempotency_key = m.data_of.idempotency_key;
  payload_hash = m.payload_hash;
  player_id = m.data_of.player_id;
  wallet_id = m.data_of.wallet_id;
  round_id = m.data_of.round_id;
  game_id = m.data_of.game_id;
  kind = m.data_of.kind;
  money = m.data_of.money;
  reference_external_id = m.data_of.reference_external_transaction_id;
  metadata = metadata_of_message m causation_id fresh;
}

-- `classify` of the handler
abbrev pub classify : Error → Error
classify payload_conflict = permanent_message
classify message_conflict = permanent_message
classify invalid_command = permanent_message
classify e = e

abbrev pub as_permanent : {A : Type 0} → Result A → Result A
as_permanent (ok a) = ok a
as_permanent (err _) = err permanent_message

-- `sha1_uuid` is `uuid.NewSHA1` in the namespace of the messages.
unfoldable pub handle : Ports → Decoder → (Text → Uuid) → Text → Text → M (Unit {0})
handle ports decoder sha1_uuid consumer body = do
  message ← lift (as_permanent (parse_inbound decoder body))
  fresh ← new_id ports
  catch
      (execute_from_message ports consumer
          (command_from message (sha1_uuid message.message_id) fresh) message.message_id
          message.payload_hash
        >>= λ _. pure tt)
      (λ e. throw (classify e))

-- What the consumer does with a message: delete it, leave it for the dead letter queue, or make it
-- visible again after a delay, in seconds.
pub data Disposal : Type 0 where
  delete leave_for_dead_letter : Disposal
  retry_after : ℕ → Disposal

-- `time.Second`, in nanoseconds
abbrev pub second : ℕ
second = 1000000000

abbrev pub smaller : ℕ → ℕ → ℕ
smaller m n = if ltb m n then m else n

-- The receive count, where the attribute is there and a positive number.
abbrev pub received : Option ℕ → ℕ
received none = 1
received (some zero) = 1
received (some (suc n)) = suc n

-- `retryDelay`, in nanoseconds; the visibility timeout is the configured one.
unfoldable pub retry_delay : ℕ → Option ℕ → ℕ
retry_delay visibility_timeout count =
    let delay = 2 ^ smaller (received count - 1) 6 * second in
    if ltb visibility_timeout delay then visibility_timeout else delay

-- The three ways of `Consumer.handle`.
unfoldable pub disposal : ℕ → Option ℕ → Result (Unit {0}) → Disposal
unfolding retry_delay
disposal visibility_timeout count (ok _) = delete
disposal visibility_timeout count (err permanent_message) = leave_for_dead_letter
disposal visibility_timeout count (err _) =
    retry_after (retry_delay visibility_timeout count / second)
