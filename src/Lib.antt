-- ===== src/Lib.antt =====
-- qoala-mlir compiles quantum network programs: the QNet dialect, which is optimised on its own, is lowered
-- through QMem to QoalaHost blocks and NetQASM routines, the blocks are ordered, and the result is
-- translated into an iQoala program. This library models parts of that path and proves what makes them
-- correct.
--
-- Parts and files:
--   QNet (lib/Analysis/QNet). IntRotation models the integer rotations of PeepholeOptimizations.cpp:
--     getConstI32, combineIntRotAngles (combine_int_rot_angles; its constant path combine_constants and its
--     dynamic path emit_combination) and the two normalisation patterns (normalize_int_rotation). An angle
--     is n * pi / 2^d. Words has the wrap-around of int32_t, Combine and Normalize the proofs. GateCount
--     models GateCount.cpp: visitOperationsInRegion and visitScfIfOp over a tree of operations; Scope says
--     where qubits are initialised, Worst is the worst case without states. DeadCode models
--     DeadCodeElimination.cpp over the operations in the order of the walk: the observation of measurements
--     (Observed), the liveness worklist (Liveness), the erasure (Erasure) and the pass (Elimination;
--     Matters and Outcome describe it by the program alone). Linearity models CheckLinear.cpp, the
--     check that a qubit value is used once, Uses when it fails.
--   QMem (lib/Analysis/QMem). PerQubit models PerQubitOpClassifier.cpp, the grouping of operations on the
--     same qubits: its steps (Adds), the order (Order) and sizes (Sizes) of the groups, and that no assertion
--     fails (Succeeds).
--   QoalaHost (lib/Analysis/QoalaHost). Graph and Precedences model transitiveReduction of Precedences.cpp;
--     Precedences/Reduction has the proofs. Traversal models AnalysisTraversal.cpp: scanForReadyBlock and
--     buildBlockPrerequisites; Traversal/Ready has the proof. MemoryEfficiency models
--     QMemoryEfficiency.cpp: the counters (Peak and Counters say what they mean) and the traversal (Runs has the
--     blocks, Walk the traversal without counters, Efficiency the proof).
--     GateCount models GateCount.cpp and getRoutineArgValues of lib/Analysis/NetQASM/QubitAnalysis.cpp: the
--     counters per qubit; GateCount/Traverse has the traversal, Trace and Traced what it visits, Balance and Totals the sums.
--     Ordering models EntanglementFirst.cpp (its second loop has its proof in References) and reorderBlocksByMilpOrder of
--     MILPReordering.cpp (without its option to group entanglement requests): Placement has the moves of
--     blocks, Results the order in the end.
--   IQoala (lib/Target/iQoala). Program has the data of include/Target/iQoala/iQoala.h and MC/iQoalaMC.h.
--     Context models iQoalaContext.cpp, its allocators of registers, qubits and sockets. Routine models the
--     local routines of MC/iQoalaMCRoutines.cpp and VirtualIDs. Host models MC/iQoalaMCBlocks.cpp and the
--     host section of MC/iQoalaMCSections.cpp: deletion of empty blocks, references, block types. Meta models
--     the meta section of the same file. Operands,
--     NetQasm and HostAsm model MC/iQoalaMC.cpp, MC/NetQASMASM.cpp and MC/QoalaHostASM.cpp: building and
--     printing instructions.
--   Common has the shared tests, lists, membership and integers, and in Search the worklist loop of the dead
--     code elimination.
-- The parts meet where the translation uses them: the builders of NetQasm and HostAsm put the registers that
-- Context allocates into instructions, the instructions fill the blocks of Host and the routines of Routine,
-- and the qubits of a routine are numbers that Context hands out.
--
-- Modelling. Pointers, MLIR values and operations are numbers; maps are association lists or functions; a
-- set of pointers is a list in its order of traversal. A failed assertion, an emitted error and an access
-- that leaves a container are `none`, as are reading a block that was freed and dereferencing a null
-- pointer. Machine integers keep their
-- wrap-around (`% 2 ^ w`, to_i32). What is written to a stream is a list of tokens. The arith dialect's
-- operations on i32 are parameters with their documented meaning (ArithSemantics). Functions recurse on
-- their data; the worklists run on fuel, one round for each node that can be pushed, which is enough by the
-- proofs of Common/Search; the traversals of QoalaHost run on a round or two for each block and one or two
-- more, which is enough by MemoryEfficiency/Efficiency and GateCount/Traced; the loop over the blocks with remote
-- references runs on one walk for each move, which is enough by Ordering/References.
--
-- Not modelled: the rewriting driver and the SSA graphs of the other peephole patterns, the
-- conversions between the dialects, the simple grouping of QMem operations, the one of
-- entanglement requests and the routines made from groups, the rest of
-- Precedences.cpp, the success probability and the qubit lifetimes of QoalaHost, the
-- constraints and the calls of the solver for the order, the
-- walk of the module translation, the dialects' generated code, and the bindings.
pub mod Common
pub mod QMem
pub mod QNet
pub mod QoalaHost
pub mod IQoala
