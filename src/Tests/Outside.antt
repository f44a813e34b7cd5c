-- ===== src/Tests/Outside.antt =====
-- Sensors, the aggregator and the start of a run.
use zerosum.Aggregator.{
  Sent, thrown, answered, Aggregation, Timeval, aggregate, message, ipc_location,
  write_to_local_aggregator,
}
use zerosum.Aggregator.Answer.{Laws, IsTime, write_to_local_aggregator_lem}
use zerosum.Aggregator.Lost.{rows_past, aggregate-rows_past}
use zerosum.Base.{
  ℕ, ◌≡◌, ◌<◌, ◌≤◌, ◌^◌, if◌then◌else◌, ◌⊎◌, refl, arith, true, false, List, [], ◌∷◌, ◌++◌, Option,
  some, none, length, length-append, ◌==◌,
}
use zerosum.Floats.{Floats}
use zerosum.Hardware.Node
use zerosum.Hardware.Node.{ComputeNode}
use zerosum.Sensors.{Chip, read_sensors}
use zerosum.Sensors.Outside.{any_outside, read_sensors_lem}
use zerosum.Session.{Session}
use zerosum.Session.Pinned.{Mask, pin_worker, pin_worker_last}
use zerosum.Session.Start.{Launch, zero_node, initialize, initialize_blind}
use zerosum.Software.Process
use zerosum.Software.Process.{Process}
use zerosum.Software.Lwp.{Lwp}
use zerosum.StdMap.StdSet.{count}
use zerosum.Stats.{Place}
use zerosum.Tests.Devices.{node}
use zerosum.Tests.Objects.{whole}
use zerosum.Tests.Sessions.{config, session}
use zerosum.Text.{Text, codes, same_text, to_string, to_string-nonempty, ok, err, undefined}
use zerosum.Utils.Env.{Environment, parse_string}
use zerosum.Utils.Running.{Fields}

-- A chip with a temperature and with a switch for its beep, which has the type 24.
abbrev chip : Chip whole
chip = record {
  name = codes "it8712-isa-0290";
  features =
      record {
        type = 2;
        label = codes "CPU";
        subfeatures = record { type = 512; readable = true; value = some 31 } ∷ [];
      }
      ∷ record {
        type = 24;
        label = codes "beep";
        subfeatures = record { type = 6144; readable = true; value = some 0 } ∷ [];
      }
      ∷ [];
}

read_sensors_lem_example :
    ((any_outside whole (chip ∷ []) ≡ false)
      × ((fields : Fields) × (read_sensors whole (chip ∷ []) ≡ ok fields)))
    ⊎ ((any_outside whole (chip ∷ []) ≡ true) × (read_sensors whole (chip ∷ []) ≡ err undefined))
read_sensors_lem_example = read_sensors_lem whole (chip ∷ [])

beep_outside : any_outside whole (chip ∷ []) ≡ true
beep_outside = refl

-- Whole numbers with the digits that `%f` has.
abbrev padded : Floats
padded = record whole { print = λ n. to_string n ++ codes ".000000" }

-- Each message is sent.
abbrev send : Text → Text → Sent
send at_ text = answered (some (length text))

abbrev no_environment : Environment
no_environment name = none

send-Laws : Laws padded send
send-Laws = record {
  prints = λ s h.
      let n : ℕ = whole.add s.seconds (whole.divide s.microseconds 1000000) in
      omega (arith, to_string-nonempty n, length-append (to_string n) (codes ".000000"));
  sends_all = λ at_ text n e. ground (arith, e);
}

abbrev stamp : Timeval
stamp = record { seconds = 1700000000; microseconds = 250000 }

stamp-IsTime : IsTime stamp
stamp-IsTime = record { seconds_fit = omega arith; microseconds_fit = omega arith }

write_to_local_aggregator_lem_example :
    let sent = send ipc_location (message padded no_environment send stamp (codes "x")) in
    ((sent ≡ thrown) × (write_to_local_aggregator padded no_environment send stamp (codes "x") ≡ 1))
    ⊎ ((o : Option ℕ) × (sent ≡ answered o)
        × (write_to_local_aggregator padded no_environment send stamp (codes "x") ≡ 0))
unfolding parse_string
write_to_local_aggregator_lem_example =
    write_to_local_aggregator_lem padded no_environment send stamp (codes "x") send-Laws
      stamp-IsTime

-- A process with a thread that has three samples, on a node that has four.
abbrev worker : Lwp
worker = record {
  id = 101;
  type_bits = 0;
  hwthreads = [];
  stat_fields = (codes "state", codes "R" ∷ codes "S" ∷ codes "R" ∷ []) ∷ [];
  steps = 1 ∷ 2 ∷ 3 ∷ [];
}

abbrev process : Process
unfolding Process.new
process = record (Process.new 100 100 0 1 [] (0 ∷ [])) { threads = (101, worker) ∷ [] }

abbrev aggregation : Aggregation
aggregation = record { last_step_written = 0; then2 = 10 }

abbrev sampled : ComputeNode
sampled = record node { steps = 0 ∷ 0 ∷ [] }

aggregate-rows_past_example :
    let (hardware, next) = Node.to_csv process.hwthreads process.rank process.shmrank 0 sampled in
    let place : Place = record {
      host = sampled.name;
      rank = process.rank;
      shmrank = process.shmrank;
    } in
    (aggregate true 10 12 sampled process aggregation).0
    ≡ some (
        hardware
        ++ ((Process.fields_to_csv place next process).0 ++ rows_past place next process.threads))
aggregate-rows_past_example = aggregate-rows_past 10 12 sampled process aggregation

-- Without files the list of hardware threads is empty, and so are the fields.
abbrev launch : Launch
launch = record {
  tid = 100;
  pid = 100;
  files = λ name. none;
  names = none;
  use_openmp = true;
  is_set = λ tid cpu. true;
  lwps = 100 ∷ 101 ∷ [];
}

initialize_blind_example :
    (initialize config launch session.cray
      ≡ initialize config (record launch { is_set = λ tid cpu. cpu == tid }) session.cray)
    × ((s : Session) (others : List Process)
        → initialize config launch session.cray ≡ ok (s, others)
        → s.node ≡ zero_node)
initialize_blind_example = initialize_blind config launch session.cray (λ tid cpu. cpu == tid)

-- The process may run on the hardware threads 0 and 4, and so may the thread.
abbrev placed : Process
placed = record process { hwthreads = 0 ∷ 4 ∷ [] }

abbrev mask : Mask
mask k = count k (0 ∷ 4 ∷ [])

abbrev to_core : Environment
to_core name = if same_text name (codes "ZS_ASYNC_CORE") then some (codes "2") else none

placed-small : (k : ℕ) → count k placed.hwthreads ≡ true → k < 2 ^ 31
unfolding count
placed-small k e = ground (arith, e)

pin_worker_last_example :
    (m : ℕ) × (alone other : Mask) × (pin_worker no_environment placed mask ≡ ok alone)
    × (pin_worker to_core placed mask ≡ ok other)
    × (count m placed.hwthreads ≡ true)
    × ((k : ℕ) → count k placed.hwthreads ≡ true → k ≤ m)
    × ((k : ℕ) → alone k ≡ (k == m))
    × ((k : ℕ) → other k ≡ true → mask k ≡ true)
pin_worker_last_example =
    pin_worker_last placed mask to_core no_environment (omega arith, tt) (omega arith) placed-small
      (λ k. refl) refl
