-- ===== src/Lib.antt =====
-- sqlproc: a small SQL processor over CSV files with a B+ tree index on the primary key.
--
-- Parts and files, by paths from the repository's root:
-- * src/bptree.c is Bptree. Node has the data, Insert and Search the operations, Spec the sorted list
--   that the tree stands for; Order, Shape and Chain are the three invariants (separators, fill and
--   depth, `next` pointers), and Contract the behaviour that callers rely on.
-- * src/tokenizer.c is Tokenizer, from the bytes of the SQL text to tokens; src/parser.c is Parser, from
--   tokens to statements; src/schema.c is Schema, from a schema file to a table's columns. src/storage.c
--   is Storage: Storage/Csv is the codec of rows, Storage/Table/Defs the header, the append and the row
--   at an offset, Scan the loops over all rows and Index the rebuilding of the index. Storage/Table/Rows
--   has a table as the list of its rows, which its file is the text of. Tokenizer/Lexemes/Spelling and
--   Storage/Table/Rows/Shown say what is read and shown by tables and predicates of their own.
-- * src/executor.c is Executor: State the table states and what a call changes, Values the row of an
--   INSERT, Insert and Select the statements. Executor/Coherent is the invariant between a table's file
--   and what is kept about the table.
-- * src/app.c is App: the arguments, SQL text through all stages, and the interactive mode on the lines
--   that it reads. The types of include/sqlproc.h are Sql, C strings with the functions on them Text, and
--   strtol and %d on int Number.
--
-- A node's first `key_count` slots are a list, so the loops that shift slots are insertion at a
-- position. Leaves carry the address that `calloc` gave them and point at one another by address; a
-- scan reads memory through these addresses. `calloc` is a parameter that says which calls succeed.
-- A scan's fuel is the number of allocated leaves, which is enough on a valid tree.
--
-- A function that returns 0 with an error filled in gives `err`, with a constructor for each message
-- text. An array with a count is a list, and a loop that stops at the array's size has as many rounds as
-- the array has room, so it needs no other bound. The tokenizer's fuel is the length of the text: each
-- round takes a byte at least.
--
-- Statements change a world: the table states in use, the data files by path, the output, and how many
-- trees and range scans there were, by which the answers of `calloc` and `realloc` are named. What a
-- call that fails has done stays done. The schema files are a parameter.
--
-- Not modelled: `bptree_destroy` (it only frees), a NULL tree or callback, the errors of the file system
-- other than a file that does not exist, the time behind `elapsed: `, the choice of a mode in
-- src/app.c and src/main.c, the printing of errors, and src/benchmark.c.
pub mod Prelude
pub mod Text
pub mod Number
pub mod Sql
pub mod Tokenizer
pub mod Parser
pub mod Schema
pub mod Storage
pub mod Bptree
pub mod Executor
pub mod App
mod Tests
