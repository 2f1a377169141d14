-- ===== src/Lib.antt =====
-- The distributed programs of a data communication course, as far as they are modelled: the prime
-- counting ring of HW3 (a coordinator and ten workers), the cellular evolution of HW4 (an assigner
-- and its workers), and the task system of HW1 (a Master, and workers that also move tasks among
-- themselves).
--
-- Coordinator (HW3/hw3/coordinator/tables.py with HW3/hw3/common/settings.py, and the changes of the
-- tables in HW3/hw3/coordinator/__main__.py). The coordinator hands out a thousand tasks, judges its
-- workers by their heartbeats, gives the tasks of a dead worker to a live one with a new epoch, and
-- takes their results.
--   State       Tables, Task and Worker; a map over the fixed ids is a function of the id
--   Register    hello, ring_ok, begin and the two changes that Coordinator.run makes
--   Assign      heartbeat, request, rejoin and result. Tables.result holds its locks twice, first to
--               read the state of the sender and then to commit: read_sender and commit_result
--               are the two parts, and other operations may come in between
--   Detect      next_alive and detect; one pass of detect is one atomic step, as its locks make it.
--               A pass that raises the RuntimeError is no step of a run: Coordinator.fail then ends the
--               program. What it wrote stays, and Keeps is about it as well; what other threads still do
--               until the end is left out
--   Summary     snapshot and verify
--   Steps, Invariant, Keeps, History, Commits, Target, Scan, Bury, Detector, Requests
--               the step relation of all operations in any order, and the proofs
-- Time is a natural number of milliseconds that the caller reads; that it never runs backwards is
-- not assumed unless a statement says so. Tables.metrics, a report of float averages, is left out.
--
-- RingWorker (HW3/hw3/worker/state.py and compute.py, and parts of network.py).
--   State, Control  WorkerState and its operations. Each is what the source does while it holds its
--               locks; take_work and delay are one round of their wait loops. `work is current` compares
--               identities in the source: here each Work carries the number of its creation
--   Compute     the loop of compute_loop over the steps of a work. The count of a step is a parameter,
--               and so are the answers of the checks in each step: they depend on other threads
--   Invariant, Keeps, Stale
--               the step relation of all operations in any order, and the proofs
-- The maps latest, store and sent_epochs are association lists (Prelude/Dictionary).
--
-- Wire (HW3/hw3/common/protocol.py and transport.py).
--   Text        Python's strings as lists of code points, with the methods that the code calls; int is
--               without its limit of 4300 digits
--   Messages, Validate, Codec
--               the kinds of messages, _integer, _validate, encode and parse; an error is a value of
--               ProtocolError, without its text
--   Lines       LineBuffer and send_line on text, without the UTF-8 codec, with their proofs
--   Words, Ranges
--               the proofs
--
-- Evolution (HW4/src/worker/rules.py, board.py and reference.py; HW4/src/assigner/partition.py, and the
-- rounds of HW4/src/assigner/barrier.py with the loop of HW4/src/worker/__main__.py).
--   Rules, Board  characters are their codes; a row is a function of the column and a grid one of the
--               row, which stand for the lists of the source inside of their bounds. The columns wrap
--               around at the width, as in the source
--   Partition, Distributed  the bands, their first halos, and the rounds: worker k of n gets the last row
--               of the band above and the first row of the band below
--   Torus, Refines, Agree, Ramp
--               the evolution of the whole torus as a function without bands and halos, and the
--               proofs
-- Rounds are structural recursion and need no fuel. A round of this model starts when all workers have finished the last; the threads themselves are in Barrier.
--
-- Barrier (HW4/src/assigner/barrier.py): the threads of run_rounds.
--   Sections    what a handler or the main loop does under the lock, as a function of the state; a
--               handler is at a place of its loop, and an error may occur at any time
--   Invariant, Keeps, Order
--               the runs in any order, and the proofs. What the workers answer is a parameter
-- The frame with its snapshots and the measurements of run_rounds are left out.
--
-- ReadyQueue (WorkerReadyQueue in HW1/worker.py, the queue of a worker's tasks; transfer ids are
-- numbers).
--   State       the queue and its operations, each of which the source does under one lock
--   Order, Reserve, Steps, Lengths
--               the order of dequeue, the reservations of a transfer, and all operations in any order
--
-- Peer (HW1/p2p.py): the requests of one worker to another.
--   Values, Clean  the checks of names, times, ids, queue states and lists of tasks. A value of JSON is
--               of one of the kinds of Value; a float time is a number of milliseconds
--   Transfers   the node's receipts of transfers: _receive_transfer, _transfer_status and
--               _record_sent_response. What transfer_receiver answers or raises is a parameter, and
--               Node.calls notes that it was called. The signature of the tasks is the list of them
--   Target      find_transfer_target; what the queries of the other workers give is a parameter
--   Messages, Handler
--               _validate_common, _check_response and _handle_request
--   Cleaned, Again, Once
--               the proofs
--
-- TaskWorker (the class Worker in HW1/worker.py): the handlers of the messages that bring tasks, and
-- the threads that move tasks to and from other workers. An exception of a handler ends the worker: it is
-- a value of Fault.
--   State, Tasks  the state; TASK, TASK_CONFIRMED, PROCESS_ACK and the start of the next task
--   Moves       the sections of _receive_transfer, _handle_transfer_confirmed and _run_p2p_check under
--               the locks; what TIME_ACK and the other worker answer are arguments
--   Room, Keeps, Promise
--               the sections of all threads in any order, and the proofs
--
-- Master (HW1/master.py): the Master gives tasks to four workers, keeps the clock that they share, and
-- agrees to the transfers of tasks among them. What a worker does is known only by its messages.
--   State       Master; the book of the tasks is a record of its own, as it is what the invariants are
--               about. An exception ends the program: none
--   Clock       add_time with its planned checks, and send. The loop has as fuel the seconds that are left
--               to all planned checks, of which each check takes at least one, since randint gives 1 or more
--   Assign, Process, Transfer
--               the handlers, each with the sends and the advance of the clock in it. The loop of
--               distribute has as fuel the number of waiting tasks, of which each round takes one
--               Durations are whole seconds: a PROCESS_START with a fraction of a second is left out, as is
--               one with a request_id, and a waiting time that would be negative stops at 0
--   Receive     handle_message without STOP_ACK, and a round of the loop of run. P2P_FAILURE raises in
--               all cases
--   Ticks, Sends, Choose, Life, Refines, Outcomes, Costs, Moves, Balance, Rounds, Done, Stops, Finish
--               the life of a task as a step relation on the book, indexed by the worker that sends a
--               message and by what the message says of tasks (Event); the handlers as steps of it, and
--               the proofs by induction on it. The messages that arrive are any, in any order
--
-- Not modelled: sockets, threads, files, logs, processes and the tools; in HW1 the
-- other handlers of a worker, the sending of requests in p2p.py, the final statistics and STOP_ACK of the Master (floats),
-- and the framing of messages; HW2, which is written in Java; in HW3 the count of primes, the dispatcher
-- and the launcher; in HW4 the transports, the storage and the metrics.
--
-- Prelude passes on the names of the libraries and has what the parts share: Boolean tests on numbers,
-- lists, families of values over the ids with their sums, and association lists. Examples in each part
-- holds tests and the theorems at concrete inputs.
pub mod Prelude
pub mod Coordinator
pub mod Evolution
pub mod RingWorker
pub mod Wire
pub mod Barrier
pub mod ReadyQueue
pub mod Peer
pub mod TaskWorker
pub mod Master
