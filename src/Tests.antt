-- ===== src/Tests.antt =====
-- Runs of the definitions on concrete inputs, and the theorems at inputs that meet their hypotheses.
mod Opcode
mod Memory
mod Chunk
mod Upvalue
mod Table
mod Compiler
mod Intern
mod Lexer
mod Gc
mod Metamethod
mod Parser
