-- ===== src/Lib.antt =====
-- The matching engine: an order book for one instrument, the engine that dispatches commands to it,
-- the replay that checks a stored event log, the public market-data view, the write-ahead log, and
-- the program that joins them.
--
-- A command (src/domain) goes through InstrumentEngine::apply (src/core/src/instrument_engine.cpp)
-- to a handler of OrderBook (src/core/src/order_book.cpp), which validates it, matches it and
-- reports events. ReplayRunner (src/core/src/replay.cpp) runs stored commands through an engine and
-- compares the events with stored ones. MarketDataProjection (src/projections) rebuilds the public
-- book from events alone. src/wal stores both logs as segments of checksummed records. The program
-- (src/app/main.cpp) loads commands from the text of a scenario (scenario_loader.cpp), writes them
-- to one log and the events of the engine to another, replays the two, and prints what an event log
-- holds (event_dump.cpp), or the public book or the trades that the projection makes of it.
--
-- Files. Common holds shared names, the integers, and dictionaries with unique keys for the hash
-- maps of the source. Domain has the records and enums of src/domain. OrderBook and its modules
-- model order_book.cpp: Types the state, Emit the events, Levels the price maps, Validate the
-- tests, Match the loops, Apply the handlers, Check the run-time check; the other modules prove.
-- Engine models instrument_engine.cpp and, in Engine/Dummy, dummy_instrument_engine.cpp. Replay and
-- its module Runner model replay.cpp, with the comparison in Replay/Compare. Projection models
-- market_data_projection.cpp, and its modules prove. Wal models src/wal, module by source file:
-- Types, Alignment, Checksum, Header, Scanner, Reader, Writer (its constructor in Opening), Facade,
-- and in Stream what those use of std::ifstream; its other modules prove. App models src/app:
-- Scenario scenario_loader.cpp, EventDump event_dump.cpp, and Storage, Dumps, Run and Main the
-- parts of main.cpp, over Text, what they use of the conversions of the standard library, and
-- Layout, the memory images of the records of src/domain. Its other modules prove: Reading, Written
-- and Replayed of the logs, Loaded, Refused, Numerals, Splitting and Rendered of scenarios,
-- Finishing of runs, and EndToEnd, Ending and DumpedBook of whole commands. Tests applies the
-- theorems at concrete inputs.
--
-- State is a record, and an operation is a function from a state to a result and a state. A
-- std::map of price levels is a list of levels in the order of the map's comparator, and a deque is
-- a list. Prices and quantities are signed integers without a bound in the model. Those of events
-- and of orders are bounded in Engine/Bounds. The sums of the projection's levels wrap around as
-- std::int64_t does on a two's complement machine, and the theorems on the public book have the
-- bound under which they do not. Counters wrap at 2 ^ 64. The two nested matching loops run over
-- the levels and their queues, and are structural recursion on them. The loop of the scanner runs
-- on fuel, two rounds more than the file has bytes: each round but the last reads a record header.
-- A reader of a whole log in App has one round more than the file has bytes, since each record
-- takes some (App/Reading).
--
-- A file is a list of bytes, and a text a list of character codes. What happens to the writes of a
-- log, whether a call of std::filesystem in front of one throws, which aborts the program, and what
-- the padding of a log holds, are arguments (Disk, Environment). A log file that does not open for
-- writing is absent. Files are found by the text of their paths.
--
-- Not modelled: exceptions of std::filesystem when a segment is reopened or cut back, an error in
-- the middle of reading a file, what is printed on standard error, the benchmarks and examples
-- (measurement, and a demonstration without logic of its own), and the text of snapshots and of the
-- errors of the projection, which are records and constructors here.
pub mod Common
pub mod Domain
pub mod OrderBook
pub mod Engine
pub mod Replay
pub mod Projection
pub mod Wal
pub mod App
pub mod Tests
