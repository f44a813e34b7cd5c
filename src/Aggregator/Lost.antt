-- ===== src/Aggregator/Lost.antt =====
-- What the data for the aggregator has of the threads.
use zerosum.Aggregator.{data_from, Aggregation, aggregate}
use zerosum.Base.{
  ℕ, ◌≡◌, refl, true, [], ◌∷◌, ◌++◌, drop, Bool-cases, inl, inr, ltb, some, none, if◌then◌else◌,
}
use zerosum.Hardware.Node
use zerosum.Hardware.Node.{ComputeNode}
use zerosum.Software.Lwp
use zerosum.Software.Lwp.Rows.{sample_rows, drop_each, fields_to_csv-sample_rows}
use zerosum.Software.Lwp.{Lwp}
use zerosum.Software.Process
use zerosum.Software.Process.{Process, thread_rows}
use zerosum.StdMap.{Map}
use zerosum.Stats.{Place}
use zerosum.Text.{Text}

-- The rows of all threads for their samples from the index `n` on.
abbrev pub rows_past : Place → ℕ → Map ℕ Lwp → Text
rows_past place n [] = []
rows_past place n ((tid, lwp) ∷ threads) =
    sample_rows place lwp.id (drop n lwp.steps) (drop_each n lwp.stat_fields)
    ++ rows_past place n threads

thread_rows-rows_past :
    (place : Place) (n last : ℕ) (threads : Map ℕ Lwp)
    → (thread_rows place n last threads).0 ≡ rows_past place n threads
unfolding thread_rows
thread_rows-rows_past place n last [] = refl
thread_rows-rows_past place n last ((tid, lwp) ∷ threads) =
    rw
      (
        fields_to_csv-sample_rows place n lwp,
        thread_rows-rows_past place n (Lwp.fields_to_csv place n lwp).1 threads,
      )
      refl

-- The data is put together exactly where it is time. It ends with the rows of the threads for their samples
-- from the index on that the part of the node ends with, all of them and no others, wherever the last
-- data ended: so the samples below that index that a thread got since then are in no data.
pub aggregate-rows_past :
    (period now : ℕ) (node : ComputeNode) (p : Process) (a : Aggregation)
    → let (hardware, next) = Node.to_csv p.hwthreads p.rank p.shmrank a.last_step_written node in
      let place : Place = record { host = node.name; rank = p.rank; shmrank = p.shmrank } in
      (aggregate true period now node p a).0 ≡ (
        if ltb a.then2 now
        then some
            (hardware ++ ((Process.fields_to_csv place next p).0 ++ rows_past place next p.threads))
        else none)
unfolding aggregate data_from Process.to_csv
aggregate-rows_past period now node p a =
    let next = (Node.to_csv p.hwthreads p.rank p.shmrank a.last_step_written node).1 in
    let place : Place = record { host = node.name; rank = p.rank; shmrank = p.shmrank } in
    let own = (Process.fields_to_csv place next p).1 in
    elim (Bool-cases (ltb a.then2 now)) [
      | inl e ↦ rw (e, thread_rows-rows_past place next own p.threads) refl
      | inr e ↦ rw e refl
    ]
