-- ===== src/Lib.antt =====
-- ZeroSum watches a process on a node of a parallel machine: a thread of its own samples, once in a
-- period, the threads of the process and the hardware threads, the memory and the GPUs of the node,
-- and at the end writes what it has seen as a log and as CSV. It also counts the traffic between the
-- ranks of an MPI job, and can signal a process whose threads have all stopped.
--
-- The parts and their files:
--   * Utils models src/utils.cpp. CpuList: `parseDiscreteValues`, `toString`, `getAffinityList`. Env:
--     `parseInt`, `parseString`, `parseBool`. Ranks: the `test_for_MPI_…` functions. Running:
--     `isRunning`. ProcSelf: `getCpusAllowed`, `getThreadStat`, `getThreadStatus`, `parseMaxPid`.
--     ProcStat: `parseProcStat`, `parseNodeInfo`. Filename: `getUniqueFilename`. Files has `fgets`,
--     the regular expressions that the code uses to cut lines, and `strtoul`.
--   * Stats has the loops and the rows of CSV that the classes below share.
--   * Hardware models src/hardware.h: Hwt, Gpu and Node are the classes `HWT`, `GPU` and
--     `ComputeNode`. Node/Labels has the updates of the node in `ZeroSum::doPeriodic` of
--     src/zerosum.cpp.
--   * Software models src/software.h: Lwp and Process are the classes `LWP` and `Process`.
--   * Monitor models `ZeroSum::getpthreads` of src/zerosum_pthreads.cpp, which composes the parts: it
--     reads the files of each thread, asks `isRunning`, adds the sample to the process, and counts the
--     samples with at most one running thread. Monitor/Environment has `split` and
--     `ZeroSum::parseEnv` of src/zerosum.cpp. Monitor/Others has `getProcStatus` of that file and
--     `getOtherProcesses` of src/zerosum_process.cpp, Monitor/Counters the wrappers of the
--     functions on locks, and Monitor/OpenMp what src/zerosum_openmp.cpp adds to the process.
--   * Cray models src/cray_pm_counters.cpp, with the number of files that are open.
--   * Mpi models src/zerosum_mpi.cpp: `translateRankToWorld` with its static map, and what the wrappers
--     of the MPI functions record in the process before they call the library. Mpi/Fortran has the
--     wrappers for Fortran.
--   * Merge models src/post-processing/mpi_p2p_merge.cpp, which reads the traffic that Software/Process
--     writes into the logs.
--   * Topology models src/hwloc.cpp over a tree of objects: Detail is `getDetailName`, Json is
--     `buildJSON`, and Threads has `traverse` and `validate_hwloc`. The code starts at the depth -1 and
--     adds one for each object; here the depth is the one behind the addition.
--   * Session models the asynchronous thread of src/zerosum.cpp. `do_once`, `do_periodic`,
--     `check_for_stop` and `finalize_log` compose the parts above on one state; Session/Worker has
--     `threadedFunction` as steps, and its interleavings with `shutdown`, `handleCrash` and traffic.
--     The build is the one with MPI and without hwloc, ZeroMQ, lm_sensors and a library for GPUs.
--     Session/Start has the constructor, in the build with OpenMP and without its tool interface, and
--     Session/Pinned `setThreadAffinity` of src/utils.cpp, with which the thread begins.
--   * Backend models what the builds with a library for GPUs make of its answers: Cuda and Nvml are
--     src/zerosum_cuda.cpp and src/nvml.cpp, Hip and Rsmi src/zerosum_hip.cpp and src/rocmsmi.cpp,
--     and Sycl src/zerosum_sycl.cpp and src/sycl.cpp. They give maps of fields to Hardware.
--   * Sensors models src/lm_sensor_data.cpp, which gives such a map for the node.
--   * Aggregator models src/zerosum_zmq.cpp and the parts of src/zerosum.cpp that send the CSV of
--     Hardware and Software while the program runs.
--   * Signals models src/error_handling.cpp: the registration of the handlers, and the handler as a
--     function on the state of Session/Worker.
--   * Preload models src/preload.cpp, which calls `parseEnv`, `main` and `shutdown`.
--   * Base, Text and StdMap have what these need of the language and its standard library: numbers,
--     lists, `std::string` with its conversions, `std::map` and `std::set`. Floats has the operations
--     on `double`, as a record that the definitions take as a parameter.
--   * Tests has runs on small inputs.
--
-- How the code corresponds: a text is the list of its bytes. A map or a set is the list of its
-- entries in ascending order, so a loop over it is a recursion. Integers are natural numbers with the
-- wrap-around written out, signed ones are `ℤ`. A method is a function from the object to the object;
-- a static variable and a reference argument are passed along. What throws, or reads behind the end
-- of a vector, returns an error: `invalid_argument` and `out_of_range` are exceptions, `undefined`
-- stands for undefined behaviour. Files, the environment, the mask of the scheduler and the counts of
-- CPUs are parameters, and so is what a device or a sensor says.
--
-- `parse_discrete_values` runs on fuel, one more than the length of the input, and each round removes a
-- comma; the recursion of `to_string` on digits has one more than the number. The hexadecimal numbers
-- of the topology have at most eight digits, since they are `unsigned`, and `through_double` halves a
-- `size_t` at most eleven times until 53 bits are left.
--
-- Not modelled: what the functions of MPI do behind the wrappers, and how hwloc finds the objects; the
-- registration with OpenMP; what the libraries of the GPUs, lm_sensors and ZeroMQ do behind their
-- calls, and calls of the first two that fail, but for the search of a GPU by its index; `sigaction` and
-- `send` are parameters with what they are documented to do. What is printed to the terminal is left
-- out, and so are the macros of PerfStubs, which hand values to another tool.
pub mod Base
pub mod Text
pub mod StdMap
pub mod Utils
pub mod Stats
pub mod Floats
pub mod Hardware
pub mod Software
pub mod Monitor
pub mod Cray
pub mod Mpi
pub mod Merge
pub mod Topology
pub mod Session
pub mod Aggregator
pub mod Sensors
pub mod Preload
pub mod Signals
pub mod Backend
mod Tests
