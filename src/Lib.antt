-- ===== src/Lib.antt =====
-- CScript: a compiler, a virtual machine and a runtime for a language close to JavaScript, in C. This
-- library models parts of the compiler and of the runtime and proves them correct.
--
-- Value.antt models the values of include/cscript/value.h.
--
-- Bigint.antt and Bigint/ model src/runtime/bigint.c, the arbitrary-precision integers. `Big` is
-- `BigInt`; `add`, `subtract`, `negate`, `multiply`, `compare_big`, `divide`, `remainder`, `power`,
-- `from_int64`, `from_text` and `to_text` are the functions csBigAdd, csBigSubtract and so on, with the
-- loops of the static functions beside them. A result that C writes to an output parameter is returned,
-- and `none` is the answer false. The 64-bit sums wrap around as `word64` writes out. Bigint/Value gives
-- a magnitude its number and says what a valid integer is, Bigint/Sum gives the integer a `Big` stands
-- for; the other modules prove the operations. csBigToText divides until nothing is left: it runs on
-- fuel of 32 rounds for each limb, which suffices as every round at least halves the number.
--
-- Table.antt and Table/ model src/runtime/table.c, the hash table with open addressing that globals,
-- shapes and property bags use. Keys are interned strings, so a key is an address and the hash of a
-- string is a function of it, the parameter `hash`. `find_entry`, `adjust_capacity`, `get`, `set_value`
-- and `delete` are findEntry, adjustCapacity, csTableGet, csTableSet and csTableDelete. The probe loop
-- runs on fuel of one round for each slot, which suffices as long as some slot is unused; running out is
-- `none`. Table/Slots has the abstract view, the scan of all slots for a key; Table/Find proves the
-- probe loop, Table/Write the invariant of probe chains, Table/Resize the rehash, Table/Methods the
-- operations, Table/Merge csTableAddAll, and Table/Sweep csTableRemoveWhite and csTableRemoveWhiteValues,
-- where the marks of the collector are a function of the address. Table/Strings has csTableFindString,
-- where the bytes of the string at an address are a parameter.
--
-- Shape.antt and Shape/ model src/runtime/shape.c and include/cscript/shape.h, the hidden classes. The
-- heap is a list of shapes and an address is a place in it; `lookup`, `transition` and
-- `prune_transitions` are csShapeLookup, csShapeTransition and csShapePruneTransitions over the tables
-- of Table.antt. A slot number is kept as a double, and its conversions are parameters. Shape/Slots
-- compares the index of a shape with its list of keys, Shape/Heap says what a valid heap is, and
-- Shape/Edges proves the transitions.
--
-- Bag.antt and Bag/ model src/runtime/object_bag.c, the properties of an object: `Storage` is its
-- union of slots under a shape and of a table with a list of keys, and `get_property`, `put_property`
-- and `delete_property` are csObjectGet, csObjectPut and csObjectDelete, over the shapes and the
-- tables. Bag/Entries has the abstract view, a list of properties in the order of their insertion,
-- Bag/Holds when a storage holds such a list, and Bag/Methods and Bag/Order compare the operations.
-- Bag/Chain has the prototypes: the loops along a chain run on fuel, and end on any fuel from some
-- point on where the chain ends. Bag/Attributes has the private names and the attributes.
--
-- Event.antt and Event/ model promises and the event loop: csPromiseFulfill, csPromiseReject and
-- csPromiseAddReaction of src/runtime/object_new.c, src/runtime/vm_event.c, and
-- src/native/native_promise.c. `World` is what they share of the virtual machine, with the promises,
-- the queue of microtasks and the states of combinators as lists; `Machine` has what is not modelled,
-- the calls of program code above all, and `Lawful` in Event/Acts says that they act by the native
-- functions, and by OP_AWAIT of src/runtime/vm_ops_class.inc, alone. Event/Natives has what a program
-- calls, Event/Runs `run_microtask`, Event/Drain `drain`, which takes one unit of fuel for each task
-- that runs, Event/Timing the timers and Event/Loop `event_loop`. Event/Onward, Event/Running and
-- Event/Noted prove what each operation keeps, Event/Passing and Event/Delivery treat the outcomes
-- that pass through, Event/Quiet and Event/Ending the end of a drain, Event/Report and Event/Finished
-- the rejections, Event/Sorted and Event/Armed the order of the timers, and Event/Combined and
-- Event/Gathered Promise.all. Program code may queue tasks for ever, so that the fuel of the loop is a
-- bound on the runs that are looked at.
--
-- Lexer.antt and Lexer/ model src/compiler/lexer.c, src/compiler/lexer_keyword.c and
-- include/cscript/lexer.h. Lexer/Kinds has `TokenType`; Lexer/Words has checkKeyword and
-- csLexerIdentifierType, with a function for each nested `switch`, and Lexer/Sound, Lexer/Letters and
-- Lexer/Keyword compare them with a table. Lexer/Scan has the cursor and the scanners: a pointer into
-- the source is the list of the bytes from there on, and isAtEnd holds at a byte 0 as well as at the
-- end of the list. Lexer/Next has the operators and csLexerNext, and `tokens`, the loop of
-- csLexerDumpTokens without the printing. The text of an error token is the lexeme that the diagnostic
-- is about, beside the message. The loops over white space, templates, strings and regular expressions
-- run on fuel of one round for each byte left and one more, as every round takes a byte. A loop over a
-- literal that has run out of its rounds gives `spent`, and its token the message `endless`, which is
-- none of the source. Lexer/Gap says what white space and comments are, Lexer/Literals,
-- Lexer/Templates and Lexer/Patterns what stands in a string, a template and a regular expression,
-- Lexer/Spelling how the operators are spelled, and Lexer/Forms what form each kind of token has and
-- where each error stands; the line of a token and what follows the digits of a number are left open.
-- Lexer/Suffix, Lexer/Lexed and Lexer/Tiles treat csLexerNext and the loop over the tokens,
-- Lexer/Regex treats csLexerScanRegex, and Lexer/Names has csTokenTypeName.
--
-- Regex.antt and Regex/ model src/runtime/regex_match.c and src/runtime/regex_internal.h, the machine
-- that runs compiled patterns. `run` is the loop of matchFrom; the captures, the steps and the flag of
-- exhaustion that C shares through pointers are the record `Shared`. The fuel of `match_from` is one
-- round for each step that the limit of csRegexSearch leaves, so that the limit ends every run. What C
-- leaves undefined, a class or a slot that is not there among it, ends a run with a `Fault`.
-- Regex/Bounds says what a valid program and state are, Regex/Safe and Regex/Search prove that runs
-- and searches stay within bounds, and Regex/Accepts and Regex/Decides compare the backtracking with
-- the runs that choose freely at a split. Regex/Classes and Regex/Compile model src/runtime/regex.c:
-- the recursive descent over the pattern, where the text from the position on is a list and a parse
-- takes the parser of a group's body as an argument, so that the fuel of `parse_alternation` bounds
-- the depth of groups by the length of the pattern, and the fuel of each loop is the text that is
-- left. A number in braces is not bounded by the range of an int. Regex/Targets, Regex/Classed and
-- Regex/Repeat treat the code of quantifiers and alternations, Regex/Grows, Regex/Members, Regex/Atoms
-- and Regex/Parsed what each part of the parser does with the code and the text, and Regex/Compiled
-- the whole.
--
-- Date.antt and Date/ model the calendar of src/native/native_date.c from 1970 on: isLeap, daysInMonth,
-- daysBeforeYear, daysFromCivil and the loops of breakDown, where a read behind MONTH_DAYS is `none`. The
-- loop over the years runs on fuel of one round for each day and one more, that over the months on twelve.
-- A year is an unbounded number and in C an int; the theorem is for the days for which it fits.
--
-- Prelude.antt and Prelude/ have what the parts share: tests and conditionals, lists, integers and
-- arithmetic.
--
-- Not modelled: a failing allocation; doubles, and with them csBigFromDouble, csBigCompareDouble and
-- csBigToDouble; the time of day and the zone of a date; fibers, the object of a settlement and the
-- clock, which are parameters of the event loop; the numbers of limbs and slots are not bounded by the
-- range of an int; the parser, the type checker, the bytecode compiler, the virtual machine, the
-- garbage collector, the JIT compiler, the other native functions and the command line, which are
-- larger systems of mutable state.
pub mod Bag
pub mod Bigint
pub mod Date
pub mod Event
pub mod Lexer
pub mod Prelude
pub mod Regex
pub mod Shape
pub mod Table
pub mod Value
