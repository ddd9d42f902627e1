-- ===== src/Lib.antt =====
-- AFLGo: the bookkeeping and the mutations of the fuzzer afl-2.57b/afl-fuzz.c and the allocator
-- afl-2.57b/libdislocator/libdislocator.so.c.
--
-- The fuzzer runs a target, which leaves hit counts in trace_bits. Bitmap models what is computed
-- from such a map: the loop of has_new_bits (Bitmap/Virgin), classify_counts and simplify_trace
-- (Bitmap/Classes), the counting loops (Bitmap/Counts) and minimize_bits (Bitmap/Minimize). Maps
-- are lists of bytes, read as little-endian words (Bitmap/Memory); the size of the map and of a
-- word are arguments, for MAP_SIZE and both settings of WORD_SIZE_64. Bits has the laws of the
-- bitwise operations. Novelty is has_new_bits as a whole, with the distance behind the map.
--
-- Queue models add_to_queue, update_bitmap_score, mark_as_redundant and cull_queue, which keep the
-- best entry for each byte of the map and pick favorites among them. Fuzzer has struct queue_entry
-- and the globals as records. The linked list is a list and a pointer to an entry is its position;
-- a NULL pointer is `none`. Doubles is the C type double, a parameter. The calls that create and
-- remove files are a parameter too, given the calls before.
--
-- Mutations models helpers of the mutation stages: could_be_bitflip, could_be_arith, next_p2,
-- choose_block_len and locate_diffs. What random returns is an argument.
--
-- Stages models the deterministic stages of fuzz_one (Stages/Flips, Words, Interest, Extras; in a
-- row in Stages/Deterministic), with could_be_interest. A stage is a function on out_buf and a
-- state that either goes on or abandons the entry (Stages/Flow); common_fuzz_stuff, the checksum of
-- the trace and maybe_add_auto are operations of a record, on a state of any type. What a stage is
-- meant to do is a list of items, inputs to run and updates of the state, given the file as it was.
-- The values that they are meant to try are described in Stages/Words/Sums, Stages/Interest/Values and
-- Stages/Interest/Repeats, the effector map in Stages/Flips/Effects.
-- Stages/Buffer has the accesses to out_buf. The counters of the status screen are left out.
--
-- Havoc models the stack of random tweaks (Havoc/Tweaks). A computation with dice takes the state
-- of the generator and returns a result or faults: on a division by zero and on an access outside
-- of the buffer (Havoc/Dice). Where C leaves the order open, the place in the buffer is drawn before
-- the value. Havoc/Loop is the loop round the tweaks, with fuel: 3200 times the first number of
-- rounds, since the number is doubled with the score, and the score up to 3200 at most.
-- Havoc/Splice makes a new input of two files.
--
-- Trim models trim_case: the target, the checksum of its trace and update_bitmap_score are
-- operations of a record, write_with_gap is what it writes. The loops take fuel, a round for each
-- byte of the file and for each byte of the first block, which the theorem shows to be enough.
--
-- Dictionary models the parser of load_extras_file, with a FATAL as a value, and maybe_add_auto
-- (Dictionary/Auto), with qsort as a parameter and the number that UR returns as an argument.
--
-- Session has the globals of a run of the fuzzer beside those of the queue, and the machine as a
-- parameter: the answers of the fork server, clocks, signals, and the calls that create files.
-- Execution models run_target, Calibration calibrate_case (the body of its loop; the whole in
-- Calibration/Case) with mark_as_variable, Saving save_if_interesting (the names of its files, with
-- describe_op, in Saving/Names), and Fuzzing common_fuzz_stuff, the skips and the repeated
-- calibration of fuzz_one, what its label abandon_entry writes, and the choice of the second file of
-- a splice (Fuzzing/Splicing). The end of the process is `none`. The loop of calibrate_case takes 41
-- rounds of fuel, one more than CAL_CYCLES_LONG, which the theorem shows to be enough. Hash models
-- hash32 of afl-2.57b/hash.h.
--
-- Score models calculate_score, with the doubles and their functions as a parameter.
--
-- Dislocator models the allocator over a memory of bytes that are mapped or not: an access to a
-- byte that is not mapped is a segfault, FATAL an abort. What mmap and mprotect answer is a
-- parameter.
--
-- Loops are structural recursion over the rounds that are left. The loops of could_be_bitflip and
-- next_p2 take 32 rounds of fuel, one for each bit of a u32, which the theorems show to be enough.
-- Machine words wrap by an explicit remainder.
--
-- Not modelled: the fork server, files and directories, the status screen, command lines, the
-- passes over LLVM, QEMU, and the scripts for distances, which are input and output, as are the
-- directories of load_extras and save_auto.
pub mod Common
pub mod Bits
pub mod Doubles
pub mod Fuzzer
pub mod Bitmap
pub mod Calibration
pub mod Dictionary
pub mod Dislocator
pub mod Execution
pub mod Fuzzing
pub mod Hash
pub mod Havoc
pub mod Mutations
pub mod Novelty
pub mod Queue
pub mod Saving
pub mod Score
pub mod Session
pub mod Stages
pub mod Trim
