-- ===== src/Lib.antt =====
-- Pageforge: an embedded storage engine with a small SQL front end. Records lie in slotted pages of 4096
-- bytes (include/pageforge/page.hpp), pages in a heap file behind a buffer pool (buffer_pool.hpp), rows are
-- encoded by the tuple codec (tuple.hpp), B+ tree indexes are records themselves (bplus_tree.hpp), and a
-- SELECT statement is lexed (sql_lexer.hpp), parsed (sql_parser.hpp), bound, and run as a tree of row
-- operators (query.hpp).
--
-- The files, and the code they are about:
--   Prelude       results, exceptions, Boolean tests, lists and 64-bit integers
--   Bytes         the little-endian fields of every format: append_u16 to append_u64, read_u16 to
--                 read_u64, write_u16 to write_u64 and require_bytes of src/*.cpp
--   Page          src/page.cpp: SlottedPage. Fields has the header and the slot directory, Checksum the
--                 checksum, Records the operations on records, Validate what from_bytes demands
--   RecordStore   src/record_store.cpp: RecordStore and RecordCursor, over the buffer pool and any pages
--                 with the operations of the interface Records; Pages fills it with the slotted page
--   BufferPool    src/buffer_pool.cpp: BufferPool, and Guard for PageGuard. Interface is what the pool
--                 uses of the heap file, as a record of operations that the pool's section takes
--   HeapFile      src/heap_file.cpp: the header and the pages, over what it uses of std::fstream and
--                 std::filesystem; pool_heap fills the interface of the pool
--   Tuple         src/tuple.cpp: TupleCodec::encode and TupleCodec::decode
--   BPlusTree     src/bplus_tree.cpp: Entry has the order of the entries and routing, Node, Leaf and
--                 Internal the encodings of the three kinds of records
--   Catalog       src/catalog.cpp: Tables and Indexes have the two record formats, Store the class Catalog
--                 over what it uses of a record store and of BPlusTreeIndex::open
--   TableStore    src/table_store.cpp: the row envelope, in Cursor the rows of TableCursor, and in Lookup
--                 the rows that an index leads to
--   Query         src/query.cpp: the row operators and the methods of Query
--   SqlLexer      src/sql_lexer.cpp: Lexer and lex_sql
--   SqlParser     src/sql_parser.cpp: Parser, parse_select and parse_sql_statement
--   SqlExecutor   src/sql_executor.cpp: Binding has names, predicates and orders, Access choose_index, Select
--                 analyze_select, bind_select, explain_select and execute_sql. Interface is what they
--                 use of the catalog and the table store, as records of answers; Select/Stored fills
--                 it with the table store, over the trees of the indexes
--   Tests         runs on concrete inputs, and the theorems at concrete inputs
--
-- State is passed explicitly: a method is a function of its object's state that returns the new state with
-- its result, also when it throws where the source has changed the state by then. A thrown exception is a
-- value of the type Exception; its text is left out, the position of an SQL error is kept. Bytes
-- and integers are natural numbers, with the wrap-around of the source's type written out where an
-- operation can leave it. Text is a list of bytes.
--
-- Loops over a vector or a number of slots are structural. Where the source loops until something is
-- found, the model has fuel: the lexer has one round for each byte and one more, the parser one round for
-- each token, and the clock two turns of the frames, as the source; the results below show that
-- this is enough. The operators of a query have rounds for their calls and turns, and `rounds_of` is
-- enough of them. Running out shows as a logic_error that the source does not have.
--
-- Left out: RecordStore::scan, and the operations of src/bplus_tree.cpp that go through a record store;
-- of the class TableStore of src/table_store.cpp read, scan and the operations that write; src/cli.cpp
-- and src/benchmark.cpp, which are input and output. A query reads a database that no one writes
-- meanwhile, so the executor's interface has the answers of the catalog and of the table store in one
-- state. A std::unordered_map or a std::unordered_set is a list, std::stable_sort an insertion sort, and
-- std::lower_bound a search from the front, which finds the same position in an ordered vector.
pub mod Prelude
pub mod Bytes
pub mod Page
pub mod RecordStore
pub mod BufferPool
pub mod HeapFile
pub mod Tuple
pub mod BPlusTree
pub mod Catalog
pub mod TableStore
pub mod Query
pub mod SqlLexer
pub mod SqlParser
pub mod SqlExecutor
pub mod Tests
