-- ===== src/Domain/Schedule.antt =====
-- src/domain/job.go: ExecutionConfig and IsTimeToExecute. The times are the contract's uint48 values,
-- and `now` is what `time.Now().Unix()` returns.
use samanager_backend.Base.{
  ℕ, zero, suc, ◌+◌, ◌≤◌, ◌≡◌, ◌↔◌, ◌<◌, Bool, true, false, List, Option, none, some, leb, ◌==◌,
  if◌then◌else◌, arith,
}

pub record ExecutionConfig : Type 0 where
  pub execute_interval : ℕ
  pub number_of_executions : ℕ
  pub number_of_executions_completed : ℕ
  pub start_date : Option ℕ
  pub is_enabled : Bool
  pub last_execution_time : Option ℕ
  pub execution_data : List ℕ

-- The first execution: from the start date on, if there is one.
abbrev started : Option ℕ → ℕ → Bool
started none now = true
started (some start) now = leb start now

due : ExecutionConfig → Option ℕ → ℕ → Bool
due ec none now = started ec.start_date now
due ec (some last) now =
    if last == 0 then started ec.start_date now else leb (last + ec.execute_interval) now

unfoldable pub is_time_to_execute : ExecutionConfig → ℕ → Bool
unfolding due
is_time_to_execute ec now = if ec.is_enabled then due ec ec.last_execution_time now else false

-- `NumberOfExecutionsCompleted >= NumberOfExecutions`
abbrev pub has_completed : ExecutionConfig → Bool
has_completed ec = leb ec.number_of_executions ec.number_of_executions_completed

-- The first second at which an enabled job is due.
abbrev pub first_due : Option ℕ → ℕ
first_due none = 0
first_due (some start) = start

abbrev pub next_due : ExecutionConfig → Option ℕ → ℕ
next_due ec none = first_due ec.start_date
next_due ec (some zero) = first_due ec.start_date
next_due ec (some (suc last)) = suc last + ec.execute_interval

due_iff :
    (ec : ExecutionConfig) (last : Option ℕ) (now : ℕ)
    → (due ec last now ≡ true) ↔ (next_due ec last ≤ now)
unfolding due
due_iff ec none now = ground arith
due_iff ec (some zero) now = ground arith
due_iff ec (some (suc last)) now = ground arith

-- A job is due exactly when it is enabled and `now` has reached its next due time: the start date, if
-- any, before the first execution, and the last execution plus the interval after it. At the very
-- second of that time it is due.
pub is_time_to_execute_iff :
    (ec : ExecutionConfig) (now : ℕ)
    → (is_time_to_execute ec now ≡ true)
      ↔ ((ec.is_enabled ≡ true) × (next_due ec ec.last_execution_time ≤ now))
unfolding is_time_to_execute
is_time_to_execute_iff ec now = ground (arith, due_iff ec ec.last_execution_time now)

-- After an execution at the time `last`, a job is not due again before its interval has passed.
pub not_due_within_interval :
    (ec : ExecutionConfig) (last now : ℕ)
    → ec.last_execution_time ≡ some last
    → 0 < last
    → now < last + ec.execute_interval
    → is_time_to_execute ec now ≡ false
unfolding is_time_to_execute due
not_due_within_interval ec last now e h early = ground arith
