-- ===== src/Batch/Blocking.antt =====
-- A batch job's run of the agent: `run_agent_blocking` of src/app/agent/batch/executor.rs, over
-- `BusReader::recv` of src/app/bus/core.rs. The broadcast channel's `try_recv` is a parameter.
pub mod Outcome
use personal_productivity_ai.Common.{ℕ, zero, suc, Option, none, some}
use personal_productivity_ai.Common.Text.{Text}
use personal_productivity_ai.Agent.Turn.{AgentEvent, session_finished, failed}
use personal_productivity_ai.Batch.{BatchJobStatus, completed}

-- What `try_recv` of the channel's receiver says: an event, or that there is none, that events were
-- dropped, or that there is no sender any more.
pub data TryRecv (E : Type 0) : Type 0 where
  received : E → TryRecv E
  empty closed : TryRecv E
  lagged : ℕ → TryRecv E

-- What `recv` does: it returns an event or an error, or waits to be notified of the next event.
pub data Recv (E : Type 0) : Type 0 where
  got : E → Recv E
  disconnected waiting : Recv E

module _ {E R : Type 0} (try_recv : R → TryRecv E × R) where
  abbrev pub recv_of : TryRecv E × R → Recv E × R
  recv_of (received e, r) = (got e, r)
  recv_of (closed, r) = (disconnected, r)
  recv_of (empty, r) = (waiting, r)
  recv_of (lagged n, r) = (waiting, r)

  unfoldable pub recv : R → Recv E × R
  recv r = recv_of (try_recv r)

-- How the drain of the events goes on.
pub data Drain (R : Type 0) : Type 0 where
  stop : BatchJobStatus → Option Text → Drain R
  again : R → Drain R
  stuck : Drain R

module _ {J R : Type 0} (try_recv : R → TryRecv (AgentEvent J) × R) where
  abbrev pub drain_of : Recv (AgentEvent J) × R → Drain R
  drain_of (got (session_finished history), r) = stop completed none
  drain_of (got (failed error), r) = stop BatchJobStatus.failed (some error)
  drain_of (got e, r) = again r
  drain_of (disconnected, r) = stop completed none
  drain_of (waiting, r) = stuck

  abbrev pub drain_next :
      (R → Option (BatchJobStatus × Option Text)) → Drain R → Option (BatchJobStatus × Option Text)
  drain_next loop (stop status error) = some (status, error)
  drain_next loop (again r) = loop r
  drain_next loop stuck = none

  -- The loop after the run. When the run is over nothing notifies the reader, so a `recv` that waits
  -- does not return: the result is none there, and where the fuel is spent.
  unfoldable pub run_agent_blocking : ℕ → R → Option (BatchJobStatus × Option Text)
  unfolding recv
  run_agent_blocking zero r = none
  run_agent_blocking (suc fuel) r =
      drain_next (run_agent_blocking fuel) (drain_of (recv try_recv r))
