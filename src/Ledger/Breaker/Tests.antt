-- ===== src/Ledger/Breaker/Tests.antt =====
-- The breakers of internal/ledger/breaker.go before tables held in memory.
use go_transaction_control_p.Ledger.Memory.Laws.{memory-IsStateTable, memory-IsLedger}
use go_transaction_control_p.Ledger.Breaker.{transaction_breaker, state_breaker}
use go_transaction_control_p.Prelude.Int.{pos, ℤ}
use go_transaction_control_p.Ledger.Breaker.Contract.{
  transaction_breaker-IsLedger, state_breaker-IsStateTable, guarded_tables,
}
use go_transaction_control_p.Ledger.Repository.{IsStateTable, IsLedger}
use go_transaction_control_p.Ledger.Memory.{
  memory_transactions, memory_states, memory_tables, Memory,
}

abbrev tick : Memory → ℤ
tick s = pos s.next_id

transaction_breaker-IsLedger_example :
    IsLedger (guarded_tables memory_tables) (transaction_breaker tick (λ _. memory_transactions))
transaction_breaker-IsLedger_example =
    transaction_breaker-IsLedger tick memory_tables (λ _. memory_transactions)
      (λ _. memory-IsLedger)

state_breaker-IsStateTable_example :
    IsStateTable (guarded_tables memory_tables) (state_breaker tick (λ _. memory_states))
state_breaker-IsStateTable_example =
    state_breaker-IsStateTable tick memory_tables (λ _. memory_states) (λ _. memory-IsStateTable)
