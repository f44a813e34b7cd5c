-- ===== src/Software/Process.antt =====
-- src/software.h, class `Process`: the process with its threads and its traffic. The lock keeps one
-- operation from another, so each is one step on the state.
pub mod Kinds
pub mod Traffic
pub mod Report
use zerosum.Base.{
  ℕ, suc, ◌+◌, ◌%◌, ◌^◌, max, Bool, true, false, List, [], ◌∷◌, ◌++◌, Option, none, some, length,
  get_elem?, drop, if◌then◌else◌,
}
use zerosum.Base.Int.{ℤ}
use zerosum.Software.Lwp
use zerosum.Software.Lwp.{ThreadType, Lwp, main, update, bits}
use zerosum.StdMap.{nat_ord, text_ord, int_ord, Map, find, insert, assign, count, find_or}
use zerosum.StdMap.StdSet.{insert_all}
use zerosum.Stats.{Place, csv_row}
use zerosum.Text.{Text, codes}
use zerosum.Utils.Running.{Fields}

-- A number of calls and a number of bytes for each rank.
abbrev pub Calls : Type 0
Calls = Map ℤ (ℕ × ℕ)

pub record Process : Type 0 where
  pub id : ℕ
  pub rank : ℕ
  pub size : ℕ
  pub shmrank : ℕ
  pub hwthreads : List ℕ
  pub threads : Map ℕ Lwp
  pub environment : Map Text Text
  pub executable : Text
  pub fields : Fields
  pub steps : List ℕ
  pub sent_bytes : Calls
  pub recv_bytes : Calls

-- `LWP(gettid(), allowed_hwt, _fields, ThreadType::Main)`: the type stands where the constructor
-- takes the step.
unfoldable pub new : ℕ → ℕ → ℕ → ℕ → Fields → List ℕ → Process
new tid id rank size fields allowed = record {
  id = id;
  rank = rank;
  size = size;
  shmrank = rank;
  hwthreads = insert_all allowed [];
  threads = insert id (Lwp.new tid allowed fields (bits main) ThreadType.other) [];
  environment = [];
  executable = find_or [] (codes "executable") fields;
  fields = fields;
  steps = [];
  sent_bytes = [];
  recv_bytes = [];
}

-- `LWP(tid, allowed_hwt, fields, type)` again has the type where the step belongs.
unfoldable pub add_thread : ℕ → List ℕ → Fields → ℕ → ThreadType → Map ℕ Lwp → Map ℕ Lwp
add_thread tid allowed fields step type threads = elim (find tid threads) [
  | none ↦ insert tid (Lwp.new tid allowed fields (bits type) ThreadType.other) threads
  | some lwp ↦ assign tid (update allowed fields type step lwp) threads
]

-- `add_new` is the value of `ZS_ADD_NEW_HWT`.
unfoldable pub add : Bool → ℕ → List ℕ → Fields → ℕ → ThreadType → Process → Process
unfolding add_thread
add add_new tid allowed fields step type p = record p {
  threads = add_thread tid allowed fields step type p.threads;
  hwthreads = if add_new then insert_all allowed p.hwthreads else p.hwthreads;
}

unfoldable pub last : List ℕ → Option ℕ
last [] = none
last (x ∷ xs) = let rest = last xs in elim rest [ none ↦ some x | some y ↦ some y ]

-- `*(hwthreads.rbegin())`, which has no value for an empty set.
unfoldable pub get_max_hwt : Process → Option ℕ
unfolding last
get_max_hwt p = last p.hwthreads

unfoldable pub contains : ℕ → Process → Bool
contains hwt p = count hwt p.threads

-- One more call of so many bytes; both sums are `size_t`.
abbrev pub one_more : ℕ → ℕ × ℕ → ℕ × ℕ
one_more bytes (calls, total) = ((calls + 1) % 2 ^ 64, (total + bytes) % 2 ^ 64)

unfoldable pub record_call : ℤ → ℕ → Calls → Calls
record_call rank bytes m =
    let with_entry = if count rank m then m else insert rank (0, 0) m in
    assign rank (one_more bytes (find_or (0, 0) rank with_entry)) with_entry

unfoldable pub record_sent_bytes : ℤ → ℕ → Process → Process
unfolding record_call
record_sent_bytes rank bytes p = record p { sent_bytes = record_call rank bytes p.sent_bytes }

unfoldable pub record_recv_bytes : ℤ → ℕ → Process → Process
unfolding record_call
record_recv_bytes rank bytes p = record p { recv_bytes = record_call rank bytes p.recv_bytes }

environment_rows : Place → Map Text Text → Text
environment_rows place [] = []
environment_rows place ((name, value) ∷ env) =
    csv_row place 0 (codes "Node") (codes "Property") 0 name value ++ environment_rows place env

-- The fields of a process are texts, so `at(i)` is one character.
metric_rows : Place → ℕ → ℕ → Fields → Text
metric_rows place step i [] = []
metric_rows place step i ((name, text) ∷ fields) =
    elim (get_elem? text i) [
      | none ↦ []
      | some c ↦ csv_row place step (codes "Node") (codes "Metric") 0 name (c ∷ [])
    ]
    ++ metric_rows place step i fields

csv_loop : Place → Fields → ℕ → List ℕ → Text
unfolding metric_rows
csv_loop place fields i [] = []
csv_loop place fields i (step ∷ steps) =
    metric_rows place step i fields ++ csv_loop place fields (i + 1) steps

unfoldable pub fields_to_csv : Place → ℕ → Process → Text × ℕ
unfolding environment_rows csv_loop
fields_to_csv place i p = (
  environment_rows place p.environment ++ csv_loop place p.fields i (drop i p.steps),
  max i (length p.steps),
)

-- Each thread starts at the index that the call was given; the last one's is kept.
unfoldable pub thread_rows : Place → ℕ → ℕ → Map ℕ Lwp → Text × ℕ
thread_rows place saved last [] = ([], last)
thread_rows place saved last ((tid, lwp) ∷ threads) =
    let (rows, next) = Lwp.fields_to_csv place saved lwp in
    let (others, final) = thread_rows place saved next threads in (rows ++ others, final)

unfoldable pub to_csv : Text → ℕ → Process → Text × ℕ
unfolding fields_to_csv thread_rows
to_csv host saved p =
    let place : Place = record { host = host; rank = p.rank; shmrank = p.shmrank } in
    let (own, next) = fields_to_csv place saved p in
    let (others, final) = thread_rows place saved next p.threads in (own ++ others, final)
