-- ===== src/Process/Execute.antt =====
-- `Execute`, `ExecuteFromMessage` and the retries. The cancellation of a context is not modelled.
use distributed_wallet_api.Prelude.{
  ℕ, zero, suc, ◌-◌, Bool, true, false, if◌then◌else◌, Text, Time, Result, err, concurrent_update,
}
use distributed_wallet_api.Store.{
  Ports, M, pure, lift, sql, ◌>>=◌, ◌>>◌, now_of, within, InboxStatus, inbox_completed, register,
  complete,
}
use distributed_wallet_api.Process.Command.{WagerCommand, WagerResult, no_result, validate_command}
use distributed_wallet_api.Process.Flow.{apply_operation}

abbrev pub max_conflict_retries : ℕ
max_conflict_retries = 3

abbrev pub is_conflict : {A : Type 0} → Result A → Bool
is_conflict (err concurrent_update) = true
is_conflict _ = false

-- The loop of `runWithRetry` with `n` attempts after this one.
unfoldable pub run_attempts : {A : Type 0} → Ports → M A → ℕ → M A
run_attempts ports m zero w = within ports m w
run_attempts ports m (suc n) w =
    let (r, w') = within ports m w in
    let again = run_attempts ports m n w' in if is_conflict r then again else (r, w')

unfoldable pub run_with_retry : {A : Type 0} → Ports → M A → M A
unfolding run_attempts
run_with_retry ports m = run_attempts ports m (max_conflict_retries - 1)

unfoldable pub execute : Ports → WagerCommand → M WagerResult
execute ports cmd = lift (validate_command cmd) >> run_with_retry ports (apply_operation ports cmd)

abbrev replayed_result : WagerResult
replayed_result = record no_result { replayed = true }

abbrev pub handle_message : Ports → Text → WagerCommand → Text → Time → InboxStatus → M WagerResult
handle_message ports consumer cmd message_id now inbox_completed = pure replayed_result
handle_message ports consumer cmd message_id now _ = do
  outcome ← apply_operation ports cmd
  sql ports (complete consumer message_id now)
  pure outcome

-- The function that `ExecuteFromMessage` runs in the SQL transaction.
unfoldable pub message_body : Ports → Text → WagerCommand → Text → Text → M WagerResult
message_body ports consumer cmd message_id message_hash = do
  now ← now_of ports
  status ← sql ports (register consumer message_id message_hash now)
  handle_message ports consumer cmd message_id now status

unfoldable pub execute_from_message : Ports → Text → WagerCommand → Text → Text → M WagerResult
unfolding message_body
execute_from_message ports consumer cmd message_id message_hash =
    lift (validate_command cmd)
    >> run_with_retry ports (message_body ports consumer cmd message_id message_hash)
