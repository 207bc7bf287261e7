-- ===== src/Lib.antt =====
-- zis-lang: the integers, the containers, the text encoding and the assembler of the interpreter's core.
--
-- The core represents a value by an object pointer. A small integer is held in the pointer itself
-- (src/core/smallint.h), any other integer in an object with a sign and 32-bit cells
-- (src/core/intobj.c). Arithmetic tries the small form, falls back to the loops on cells, and shrinks
-- its result to the one form of the integer. Containers convert the indices of the language, which
-- start at 1 or count from the end, by src/core/object.c. A hash map (src/core/mapobj.c) calls the
-- hash and the equality of objects; hash codes are made and cut down by src/core/algorithm.c.
-- Compiled code is a sequence of the 32-bit words of src/core/instr.h. The function assembler
-- (src/core/assembly.c) collects them, with labels and jumps to labels, and resolves the jumps at the
-- end. Text is UTF-8 (src/core/strutil.c); source
-- text is cut into tokens by src/core/lexer.c, which src/core/parser.c reads into a tree, from which
-- src/core/codegen.c makes code for the registers of a function frame.
--
-- The files and the code that they model:
--   Common: names, lists, integers and bit operations that the others share.
--   Bigint: src/core/intobj.c, bigint_self_mul_add_1 to bigint_shl, one function for each; a vector
--   is the list of its cells, the lowest first. Children: Value (the number of a vector), Small,
--   Compare, AddSub, Mul and Shift.
--   Smallint: src/core/smallint.h with 64-bit pointers; a pointer is its bit pattern.
--   IntObj: src/core/intobj.c and src/core/intobj.h, zis_int_obj_or_smallint, int_obj_shrink, and
--   zis_int_obj_or_smallint_add, _sub, _compare and _equals. Children: Denote (the integer of a
--   value and its one form), Shrink, Arith and Order; Parse: zis_int_obj_or_smallint_s, where the
--   width of a text, from the floating point logarithm of the C library, is a parameter, with Digits
--   (a text and its digits) and Value; Print: zis_int_obj_value_s with a buffer, with Reset (the cells
--   that are left) and RoundTrip.
--   Index: zis_object_index_convert and zis_object_index_range_convert of src/core/object.c.
--   Instr: the macros zis_instr_make_* and zis_instr_extract_* of src/core/instr.h. Children: Fields,
--   RoundTrip and Formats (the formats together).
--   Opcode: src/core/oplist.h, the opcodes that the assembler uses and the format of each opcode.
--   Assembler: src/core/assembly.c, struct zis_assembler and the calls that append to it; a buffer is
--   the list of what it holds. Finish: zis_assembler_finish, up to the code of the function; a pass of
--   the loop ends, starts again or panics (Turn). Children with proofs: Entry and View (one jump),
--   Opposite, Shift, Layout (the places of jumps), Fill and Pass (one pass), Extend, Moved and Follow (where
--   labels and jumps move to), Resolve (all
--   passes), Looped (the loop for a function), Copy, Offset, Decode (the jumps of src/core/invoke.c), Landing, Finished (the code), Build
--   (the calls that make a function).
--   Utf8: src/core/strutil.c, zis_u8char_from_code, zis_u8char_to_code and the digits; Text: lengths
--   and positions in strings. Children with proofs: Ranges (bytes), RoundTrip, Count and Find.
--   Algorithm: src/core/algorithm.c, zis_math_pow_u32 and the hash codes of integers.
--   Map: src/core/mapobj.c, buckets and zis_map_obj_new, _rehash, _reserve, _clear, _get, _set and
--   _unset. The methods that the map calls, and the floating point of its load factor, are the
--   records of Map/Interface. Children: Buckets and Moves (chains and searches), Rehash (the
--   invariant), Assign, Insert, Update, Unlink, Laws and Unset.
--   Array: src/core/arrayobj.c, zis_array_obj_reserve, _append, _pop, _insert and _remove; a slot
--   is an optional element. Children: Laws (slots, append and pop) and Middle (insert, remove).
--   Token: src/core/token.h, the types of tokens and the texts of operators and keywords.
--   Lexer: src/core/lexer.c, the switch of scan_next (case_of); Scan: its actions, one function for each
--   longer case; Escape: _lit_str_esc_trans. The functions that scan numbers, strings and identifiers are
--   the record Scanners. Children with proofs: Total, Operators and Lines.
--   Codegen/Registers: src/core/codegen.c, frame_scope_alloc_regs and frame_scope_free_regs with the
--   list of free ranges; an unsigned int wraps around. Children with proofs: Ranges (the registers in
--   use and the invariant of the list), Insert, Search, Alloc, Rest (one
--   register left of an entry) and Free.
--   Codegen/Variables: src/core/codegen.c, frame_scope_alloc_var, frame_scope_find_var,
--   var_scope_alloc_var and scope_find_or_alloc_var; a variable scope holds the frame that it points
--   to, and var_map is the function that the map holds. Children: Scopes (the invariant, one variable)
--   and Lookup.
--   Parser: src/core/parser.c, its state: the tokens that are left and the depth at which the lexer
--   leaves out the ends of lines, and the nodes of src/core/astdef.h, an identifier and a literal
--   as numbers; locations are left out. Operators: the table of src/core/token.h and the switch of
--   expr_builder_gen_one_expr. Builder: struct expr_builder_state and its functions. Expression:
--   parse_expression_1, parse_list and parse_Subs_args, which call each other; children with proofs:
--   Reads, Parts, Lists, Calls and Groups. Print: how an expression is written, without the parser's
--   stacks. Operands, Starts and RoundTrip: it is read back. Postfix: a period behind brackets.
--   Tests: the theorems at concrete inputs.
--
-- Fuel: zis_math_pow_u32 halves its exponent in each round, so its loop has 32 rounds;
-- zis_assembler_finish starts again once for each jump that is too far, so it has one turn more than
-- there are jumps; a loop over a string has a turn for each byte, and scan_next one for each
-- character. The functions of the parser take one from the fuel with each call and each turn; an
-- expression needs no more than twice its tokens. The binary search of frame_scope_free_regs has a
-- turn for each free range. All other loops are recursions on the vectors and the chains.
--
-- Conventions: a size_t and a pointer have 64 bits. Code that C leaves undefined, and a failed bound
-- of a vector, is a result of its own (none or fault). Asserts have no effect, as in a release
-- build, unless a definition says so; the one of frame_scope_alloc_regs on what it leaves of an entry
-- and the one of int_obj_shrink on an object without cells are results. The methods of the keys that a map calls do not change the
-- map, and memory is not exhausted.
--
-- Not modelled: the garbage collector and its write barriers, objects other than integers, maps and
-- arrays, the literals and identifiers of the lexer, the statements of the parser, the code generator
-- but for its registers and the allocation of variables, the text assembler and the interpreter's loop; multiplication,
-- division, shifts and bitwise operations of integer objects, and the text of small ones; floating
-- point; files and streams.
pub mod Common
pub mod Bigint
pub mod Smallint
pub mod IntObj
pub mod Index
pub mod Instr
pub mod Algorithm
pub mod Map
pub mod Array
pub mod Utf8
pub mod Opcode
pub mod Assembler
pub mod Token
pub mod Lexer
pub mod Codegen
pub mod Parser
pub mod Tests
