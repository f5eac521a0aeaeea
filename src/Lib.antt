-- ===== src/Lib.antt =====
-- db-flashback reads PostgreSQL WAL segments and makes undo or redo SQL of the changes between two
-- commit times. This library models the path from pages of WAL through the rows of heap records to
-- changes stamped with their commit, from changes to statements, and the state that goes along:
-- page images, out-of-line values, and the catalog as its own rows in the log change it.
--
-- A segment is a list of pages. The reader (internal/service/flashback_walparse.go) walks the
-- records of each page and joins those that go on in the next page. It hands each record to `emit`:
-- row changes go to the transaction buffer, a commit takes them out with its time, an abort drops
-- them, and what a commit gives is filtered by the window of times and cut at the limit of changes.
--
--   * Time.antt, Commit.antt: times and the payload of commit and abort records,
--     flashbackParseXactCommit and flashbackFilterCommitTime of internal/service/flashback_xact.go.
--     A time is a count of nanoseconds since year 1, so the zero time is 0.
--   * Txn.antt: flashbackTxnBuf of the same file. The Go map is an association list that never
--     has a key twice; the nil map and the empty one are the same list.
--   * Change.antt: flashbackChange of internal/service/flashback_sql.go.
--   * Fpw.antt, Fpw/Pglz.antt: full-page images, internal/service/flashback_fpw.go. The libraries
--     for lz4 and zstd are the parameter `Codecs`.
--   * Fpw/Cache.antt: flashbackFPWCache of internal/service/flashback_walparse.go.
--   * Record.antt: flashbackSplitXLogBody and flashbackRebuildFPW of the same file, and
--     flashbackXactMainData.
--   * Reader.antt, Reader/Framing.antt: flashbackWALParser with take, emit, handleXact and
--     feedFile. `Decoder` is the interface to flashbackDecodeHeapRecord and to the staged changes
--     of the catalog; the theorems on the reader hold for every decoder, and Heap/Dispatch.antt
--     fills it with the decoder of the source, whose state `none` is a process that has panicked.
--   * Reader/Dir.antt: flashbackWalkWALDir and flashbackFinishParser. The callback is a function of
--     all calls before, and the names are in order.
--   * Toast.antt: the cache of out-of-line values, its pointers and payloads,
--     internal/service/flashback_toast.go. The lock has no counterpart, since each call holds it
--     from its first read to its last write. A panic is a result of its own.
--   * Sql/Words.antt, Sql/Clause.antt, Sql/Statement.antt: names, literals, clauses and statements,
--     flashbackUndoSQL and flashbackRedoSQL of internal/service/flashback_sql.go. A text is the
--     list of its code points, and a row's column map a list with each name once.
--   * Dict.antt: columns, tables and the dictionary, internal/service/flashback_dict.go. Where the
--     source visits a Go map, the model visits a list, whose order stands for any order of the map.
--   * Datum.antt, Tuple.antt: rows, flashbackDecodeAttrs and flashbackReadDatumToast of
--     internal/service/flashback_datum.go, with alignment, null bitmaps and headers of values, and
--     flashbackDecodeHeapTuple and flashbackDecodeXLogTuple of
--     internal/service/flashback_walparse.go. The printing of one value is the parameter `Printer`.
--   * Heap.antt: flashbackTupleFromPage, flashbackSkipUpdatePrefixSuffix and
--     flashbackDecodeHeapTruncate of internal/service/flashback_walparse.go.
--   * Heap/Stats.antt, Heap/Multi.antt, Heap/Rows.antt, Heap/Ingest.antt, Heap/World.antt: what
--     flashbackDecodeHeapRecord of the same file uses: counters, multi inserts, the sources of row
--     images, the chunks of out-of-line values (internal/service/flashback_toast.go), and the state
--     with the choice of the block and the feeding of the page cache. `Catalog` is the interface to
--     the catalog.
--   * Heap/Decode.antt, Heap/Apply.antt, Heap/Dispatch.antt: flashbackDecodeHeapRecord and
--     flashbackApplyCatalogHeap. The other files under Heap prove.
--   * Catalog.antt, Catalog/Values.antt, Catalog/Enrich.antt, Catalog/Rows.antt, Catalog/Impl.antt:
--     flashbackCatalog of internal/service/flashback_catalog.go, which fills the interface, with
--     the statements of a transaction as a parameter.
--   * Ddl.antt, Ddl/Table.antt, Ddl/Statements.antt: those statements, flashbackSynthesizeDDL of
--     internal/service/flashback_ddl.go, with the case mapping of Unicode as a parameter.
--   * Segments.antt: the choice of WAL segments, flashbackSelectWAL, flashbackSelectWALPrecise and
--     flashbackSelectPDUWAL of internal/service/flashback_wal.go.
--   * Record/Encode.antt, Tuple/Layout.antt, Tuple/Laid.antt and Reader/Chain.antt say how
--     PostgreSQL lays out record bodies, rows and pages, and Ddl/Reverse.antt which statements there
--     are and which takes which back, apart from the code.
--   * Lock.antt: the wait for the lock of tasks, internal/service/flashback_lock.go, as the list of
--     what each round meets.
--   * Perm.antt: permissions on pages, internal/service/flashback_perm.go.
--   * Base.antt, Bytes.antt: shared names, lists, association lists and little-endian reads.
--
-- Bytes are numbers below 256 and machine words are natural numbers whose wrap-around is written
-- out. Loops of the source are structural recursions or recursions on fuel: the header loop and the
-- record walk get the length of what is left, since each round takes at least a byte, and the pglz
-- loop gets the length of its input for the same reason.
--
-- A number of at most 32 bits is printed with ten rounds, since it has at most ten digits, and one
-- of 64 bits with twenty. The loop over the tuples of a multi insert gets their number.
--
-- Not modelled: the printing of single values, MySQL, offline directories,
-- the cloud services, the HTTP service and the storage of tasks and users; the last four are
-- database, file and network access, the others stand behind the interfaces above. `st` and `dict`
-- of the decoder are not nil.
pub mod Base
pub mod Bytes
pub mod Time
pub mod Change
pub mod Commit
pub mod Txn
pub mod Fpw
pub mod Record
pub mod Reader
pub mod Toast
pub mod Sql
pub mod Heap
pub mod Datum
pub mod Dict
pub mod Lock
pub mod Perm
pub mod Catalog
pub mod Ddl
pub mod Segments
pub mod Tuple
