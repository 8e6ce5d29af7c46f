-- ===== src/Lib.antt =====
-- Lulu, the Lua 5.1 interpreter in C++ (cpp/src), as antt definitions with their theorems.
--
-- The program. The lexer and the parser read a script; the code generator (compiler.cpp) emits
-- 32-bit instructions (opcode.hpp) into a chunk (chunk.cpp), which also maps instructions to source
-- lines and holds the ranges of local variables. The virtual machine (vm.cpp) runs chunks on a
-- stack; closures capture stack slots by upvalues (function.cpp). All arrays grow by the sizes of
-- mem.cpp, through dynamic.hpp or through chunk_push of chunk.hpp.
--
-- The files, with the code that each models:
--   Opcode            cpp/src/opcode.hpp: OpCode, Instruction and all its methods, word by word;
--                     Opcode/Words has the word as a sum of fields, Opcode/Fields what the methods
--                     do to one another
--   Opcode/Info       OpInfo and the table opinfo of cpp/src/opcode.cpp
--   Opcode/FloatByte  floating_byte_make and floating_byte_decode of cpp/src/opcode.cpp
--   Mem               mem_ceil_log2, mem_next_pow2, mem_next_fib, mem_resize (cpp/src/mem.cpp and
--                     mem.hpp); Mem/Log and Mem/Fib have their bounds
--   Dynamic           cpp/src/slice.hpp, cpp/src/dynamic.hpp and chunk_push of cpp/src/chunk.hpp;
--                     Dynamic/Push and Dynamic/Overflow have their theorems
--   Chunk             chunk_line_push, chunk_line_get and chunk_get_local of cpp/src/chunk.cpp
--   Upvalue           upvalue_find and upvalue_close of cpp/src/function.cpp
--   Value             cpp/src/value.hpp and value.cpp: the values, their types and their equality;
--                     Value/Hash has the hash functions of cpp/src/table.cpp
--   Table             cpp/src/table.hpp and table.cpp: entries, the search for one, and gets;
--                     Table/Resize has the sizes and resizing, Table/Set the writes and the rehash,
--                     Table/Next the length and the iteration. Table/Probe and Table/Lookup are
--                     about find_entry, Table/Store to Table/Fresh about the hash part as a map,
--                     Table/Sizes about the array part's size, Table/Index about integer
--                     keys, Table/Absent about the iteration from a key that is not there
--   Compiler          the jump lists of cpp/src/compiler.cpp; Compiler/Registers has its registers
--                     and compiler_load_nil, Compiler/Jumps and Compiler/JumpList the theorems on
--                     jumps
--   Intern            hash_string and the string table of cpp/src/string.cpp; Intern/Growth has its
--                     theorems
--   Lexer             cpp/src/stream.hpp and the moves of cpp/src/lexer.cpp; Lexer/Tokens has the
--                     tokens and keywords, Lexer/Loops the loops over characters, Lexer/Numbers
--                     make_number and lstring_to_number of cpp/src/string.cpp, Lexer/Strings the
--                     strings, Lexer/Lex lexer_lex. Lexer/Progress and its children are about the
--                     end of the loops and the line counter, Lexer/Runs about whole texts and the
--                     blocks of the stream, Lexer/Munch, Lexer/Fixed, Lexer/Quoting and Lexer/Long
--                     about the texts of names, fixed tokens and strings
--   Gc                cpp/src/gc.cpp with the headers of cpp/src/private.hpp: mark bits, marking and
--                     blackening; Gc/Collect has the phases of a collection. Gc/Marking to
--                     Gc/Bodies are about the gray list, Gc/Tracing and Gc/Reach about the trace
--                     phase, Gc/Roots about the roots, Gc/Sweep about what is freed, Gc/Safety
--                     about whole collections, with Gc/Stale and Gc/Missed on what one misses
--   Metamethod        cpp/src/metamethod.cpp: how a metamethod is found, and the flags of a metatable;
--                     Metamethod/Access has vm_table_get, vm_table_set and their kin of
--                     cpp/src/vm.cpp. Metamethod/Cache is about the flags, Metamethod/Chain about
--                     `__index` tables, Metamethod/Handlers about the arguments of a metamethod
--   Parser            the binary operators of cpp/src/parser.cpp; Parser/Comparisons follows a
--                     comparison from its text to the jump that cpp/src/vm.cpp takes
--   Prelude           shared names, lists over native numbers, integers, bit fields
--   Tests             runs on concrete inputs, and each theorem at one input
--
-- State. A function that changes an object takes it and returns the new one. A failed bounds check
-- or a write outside an allocation is the result `none`. Memory that was never written is the cell
-- `none`. A pointer into the stack is a slot number; an upvalue object is a number given once.
--
-- Numbers. u8, u16 and u32 are natural numbers, with the casts and shifts that may lose bits written
-- as remainders; i32 offsets of jumps are integers. isize sizes are natural numbers, as they are
-- never negative where they are used, and do not reach 2 ^ 63.
--
-- Values. A double is an element of a type that the definitions take as a parameter, with the
-- operations that the code uses (the record Runtime). A pointer is an address; that of a string gives
-- its stored hash through Runtime. Tables refer to other tables by address, and hold their own parts.
--
-- Fuel. table_hash_set and table_rehash call each other, with fuel for that recursion. On a table
-- that is not full there is no rehash, and one step of fuel is enough. table_len and table_next take
-- fuel for their searches. The walks along a list of jumps take the length of the code, for a list
-- has no position twice. The loops of floating_byte_make, mem_ceil_log2 and mem_next_fib take their
-- argument as fuel, the binary search two more than the table's length. The theorems about these hold
-- of the result with that fuel, so it is enough.
--
-- Each loop of the lexer takes the number of bytes that are left, and one more; the trace loop of the
-- collector takes the number of addresses that hold objects other than strings.
--
-- vm_table_get and vm_table_set run at most 100 rounds, as in the code.
--
-- Metamethods. A table object is named by its index in a list; Metamethod adds the metatable and the
-- flags to the parts that Table has. A run ends with the call of the metamethod as a value, and what
-- the called function does is not modelled. The pointer that is moved to the local variable with the
-- metamethod is a truth value that tells whether it has been moved.
--
-- The lexer. A character is kept as a byte, with STREAM_END as 255, since char is signed. The stream is
-- what is left of a block and the blocks that the reader function will return. strtod and strtoul
-- are the parameters of the record Numerals. A token holds the text of its string.
--
-- The collector. An object is a mark and what the collector reads of it; a heap is a function of the
-- address. The pointers next and gc_list make lists of addresses, and linking a node behind another
-- one cuts the list there, as the assignment of the pointer does. The values of objects count only as
-- the address they hold.
--
-- Not modelled: the allocator and running out of memory, the collector's calls during allocation,
-- deallocation, output, and the parts that the manifest lists.
pub mod Prelude
pub mod Opcode
pub mod Mem
pub mod Dynamic
pub mod Chunk
pub mod Upvalue
pub mod Value
pub mod Table
pub mod Compiler
pub mod Intern
pub mod Lexer
pub mod Gc
pub mod Metamethod
pub mod Parser
pub mod Tests
