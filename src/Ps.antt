-- ===== src/Ps.antt =====
-- The PostScript calculator of `pdf/ps`: objects, the operand stack, the operators, the
-- execution and the parser of programs (`object.go`, `stack.go`, `operations.go`, `exec.go`,
-- `parser.go`).
pub mod Object
pub mod Stack
pub mod Arith
pub mod Transcendental
pub mod Logic
pub mod Shuffle
pub mod Exec
pub mod Printing
pub mod Parser
pub mod Effect
pub mod Function4
pub mod Tests
