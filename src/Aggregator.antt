-- ===== src/Aggregator.antt =====
-- src/zerosum.cpp, the parts of `threadedFunction` and `finalizeLog` for ZeroMQ, and
-- src/zerosum_zmq.cpp: what goes to the aggregator. The call that sends is a parameter, and so is the
-- clock.
pub mod Lost
pub mod Answer
use zerosum.Base.{
  ℕ, ◌+◌, Bool, true, false, List, [], ◌∷◌, ◌++◌, Option, none, some, ltb, ◌==◌, if◌then◌else◌,
}
use zerosum.Floats.{Floats}
use zerosum.Hardware.Node
use zerosum.Hardware.Node.{ComputeNode}
use zerosum.Software.Process
use zerosum.Software.Process.{Process}
use zerosum.Text.{Text, codes}
use zerosum.Utils.Env.{Environment, parse_string}

-- Both parts of the data, and the member `lastStepWritten` afterwards.
unfoldable pub data_from : ComputeNode → Process → ℕ → Text × ℕ
data_from node p last =
    let (hardware, next) = Node.to_csv p.hwthreads p.rank p.shmrank last node in
    let (software, final) = Process.to_csv node.name next p in (hardware ++ software, final)

-- `socket.send`: it throws, or has a number of bytes, or none where it would block.
pub data Sent : Type 0 where
  thrown : Sent
  answered : Option ℕ → Sent

-- `EAGAIN`, as Linux defines it.
abbrev pub eagain : ℕ
eagain = 11

abbrev pub ipc_location : Text
ipc_location = codes "ipc:///tmp/zmq_test"

-- `struct timeval`
pub record Timeval : Type 0 where
  pub seconds : ℕ
  pub microseconds : ℕ

module _ (fl : Floats) (getenv : Environment) (send : Text → Text → Sent) where
  abbrev pub message : Timeval → Text → Text
  message stamp content =
      let fraction = fl.divide (fl.of_ℕ stamp.microseconds) (fl.of_ℕ 1000000) in
      codes "time: " ++ fl.print (fl.add (fl.of_ℕ stamp.seconds) fraction) ++ codes "," ++ content

  unfoldable pub write_to_local_aggregator : Timeval → Text → ℕ
  unfolding parse_string
  write_to_local_aggregator stamp content =
      let bind_point = parse_string getenv (codes "ZS_AGGREGATION_BINDPOINT") ipc_location in
      elim (send bind_point (message stamp content)) [
        | thrown ↦ 1
        | answered sent ↦ elim sent [ none ↦ 0 | some n ↦ if n == eagain then 1 else 0 ]
      ]

-- `lastStepWritten` and `then2`.
pub record Aggregation : Type 0 where
  pub last_step_written : ℕ
  pub then2 : ℕ

-- The part of the loop: what is written, if anything, and the state behind it.
unfoldable pub aggregate :
    Bool → ℕ → ℕ → ComputeNode → Process → Aggregation → Option Text × Aggregation
unfolding data_from
aggregate aggregating period now node p a =
    if aggregating
    then (if ltb a.then2 now
        then (let (content, last) = data_from node p a.last_step_written in
            (some content, record { last_step_written = last; then2 = a.then2 + period }))
        else (none, a))
    else (none, a)

-- The part at the end of `finalizeLog`, where the data is put together in any case.
unfoldable pub aggregate_rest :
    Bool → ComputeNode → Process → Aggregation → Option Text × Aggregation
unfolding data_from
aggregate_rest aggregating node p a =
    let (content, last) = data_from node p a.last_step_written in
    ((if aggregating then some content else none), record a { last_step_written = last })
