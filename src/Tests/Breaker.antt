-- ===== src/Tests/Breaker.antt =====
-- The theorems on backend/src/cps/circuit_breaker.py, at concrete inputs.
use gaking.Base.{some}
use gaking.Breaker.Circuit.{open_state, Keys}

abbrev opened : Keys
opened = record { state = some open_state; fail_count = some 5; opened_at = some 100 }
