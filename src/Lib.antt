-- ===== src/Lib.antt =====
-- jsnpg: a JSON parser and generator in C, src and its header src/include/jsnpg.h.
--
-- The program reads JSON in two ways. The event parser (parse.c) sends one event for each item to a
-- generator; the pull parser (parsenext.c) returns one item at a call. Both share the primitives of
-- parser.c, which read an input stream (input.c) over the caller's own buffer: a string is unescaped
-- in place, so that its bytes end below its escapes. Nesting is kept in a stack of bits (stack.c).
-- A generator (generate.c) asserts that its events nest and calls its ten callbacks: those of the
-- JSON printer (output.c), those of the DOM (dom.c), which stores events in blocks and replays them,
-- or the user's. Every object's memory comes from an allocator (alloc.c), which frees it all at once.
--
-- Which file models which part:
--   Base         helpers: lists and integers over the native numbers, memory, Boolean tests
--   Types        jsnpg_type, jsnpg_error_code, jsnpg_result and the events of jsnpg_callbacks
--   Stack        src/stack.c; Stack.Refine relates it to a list of the open containers
--   Utf8         src/utf8.c; RoundTrip and Sound relate the encoder and the validator
--   Input        src/input.c, the input stream
--   Outcome      how a parser function ends: throw_parse_error of src/parser.c
--   Floats       the conversions of src/thirdparty and strtod, parameters of the model
--   Parser       src/parser.c: Literal, White (white space and comments), Escape, Strings and Number
--                hold the code; Grammar the independent grammar of strings; Escape.Reads,
--                Strings.InPlace, Strings.Decode, Strings.Quoted, White.Ends, White.Comments, White.Blank,
--                Literal.Matches, Number.Integers and Moved the proofs; Bounds and its children are
--                about any bytes whatever
--   Output       src/output.c: Buffer (memory_output_stream), Stream (json_output_stream), Scan
--                (jos_scan_escape) and Printer (the callbacks) hold the code; Buffer.Grows,
--                Scan.Reference, Scan.Escapes, Scan.Prints and, below Printer, Quoted, Places, Separators and Items
--                the proofs
--   Json         JSON values, the events that stand for them and, in Grammar, the texts that spell
--                them: a specification, which uses the grammars of strings and of integers that stand
--                in Parser.Grammar and Parser.Number.Integers, and of the code the encoder of Utf8
--   RoundTrip    what is printed and read back: a string, and in Written, Values and Documents whole
--                values
--   Generate     src/generate.c; Machine and Nesting relate its checks to a nesting machine, Documents
--                sends it the events of whole JSON values, Sends and Lifts say what its callbacks
--                make of them, and Invariant is about any events
--   Sax          src/parse.c; Steps and Items are about single steps of its loops, Runs, Reads and
--                Values about the loop from one place of a text to a later one, Whole about whole
--                documents, and Bounds and its children about any bytes whatever (Bounds.Tracks has
--                that the loop's type is that of the stack's top)
--   Pull         src/parsenext.c; Yields says what a caller of jsnpg_parse_next sees, Steps and
--                Containers are about single calls, Calls, Openings and Values about the calls over
--                the text of a value, Whole about a whole text, and Bounds and its children about
--                any bytes whatever
--   Dom          src/dom.c; Stored relates what is written to what is read, Replays chains of
--                blocks to the events stored in them, and Pulls these to what dom_parse_next returns
--   Errors       src/error.c
--   Alloc        src/alloc.c, where an entry written behind the table sets the flag `overrun`; Frees is
--                about what the allocator gives back
--   Api          jsnpg_parser_new_opt of src/parser.c and jsnpg_parse_opt of src/parse.c; Generators has
--                jsnpg_generator_new_opt of src/generate.c and the tables of callbacks of src/output.c
--                and src/dom.c; Texts, Doms and Unexpected hold the proofs for jsnpg_parse, Pulls those for
--                jsnpg_parse_next, and Returns and Sessions those about any bytes
--   Tests        runs of the code on concrete inputs, and the theorems at inputs that meet their
--                hypotheses
--
-- A definition has the name of the C function or type that it models. A part of a function that has
-- a loop or a branch of its own is a definition beside it, and says so in its comment. A pointer into
-- a buffer is its offset from the buffer's start, and memory is a function from offsets to bytes.
-- State is passed explicitly; a function that fails returns an Option or, where it changes its object
-- either way, a Did; a throw_parse_error is the outcome `thrown`. The assertions of
-- generate.c, that of state_change_value in parsenext.c and those of parser.c on the top of the stack
-- are in the model: where one fails the result is `none` in the generator and `aborted` in the
-- parsers. Those of parser.c on the byte ahead, and those of input.c and output.c, are not.
--
-- Bounds. A byte is cut to eight bits where the code cuts it, and `sum` of parse_number to 64. Sizes
-- and counts are not cut: the model is that of a program whose buffers stay below 2^63 bytes. A loop
-- that reads the input has fuel, the bytes left and a few more; each round reads a byte, so that it
-- is enough. A doubling loop has the amount asked for as its fuel.
--
-- compute_float_64 is a total parameter: what a call outside the powers that it documents does to the
-- program is not modelled.
--
-- Not modelled: the debug dumps, the macros for the user, the copies of other projects' libraries
-- under src/thirdparty, and the release of single objects, which the allocator's model has. What
-- malloc grants is a parameter. The grammar of Json has no texts for real numbers: what these denote
-- is for the number conversions to say.
pub mod Base
pub mod Types
pub mod Stack
pub mod Utf8
pub mod Input
pub mod Floats
pub mod Outcome
pub mod Parser
pub mod Output
pub mod RoundTrip
pub mod Json
pub mod Generate
pub mod Sax
pub mod Pull
pub mod Dom
pub mod Errors
pub mod Alloc
pub mod Api
mod Tests
