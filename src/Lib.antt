-- ===== src/Lib.antt =====
-- A verification library of rosbag2_storage_rrd: a rosbag2 storage plugin that records ROS 2 bags as
-- Rerun `.rrd` files and replays them. It is about the Rust crate in
-- crates/rosbag2_storage_rrd_ffi, whose files are named below as they stand in that directory.
--
-- Writing. `Writer` (src/writer.rs) keeps the topics of a bag by index and numbers its messages.
-- Each topic (src/record.rs, also in `Writer`) feeds its messages to a pipeline and flushes it when
-- its policy says so; `Pipeline` (src/pipeline.rs) buffers a message as one row with its raw bytes,
-- its decoded struct, or both, and hands the rows out as chunks, through the lenses if the
-- configuration asks for them. `Config` (src/config.rs) is that configuration. `Statics`
-- (src/statics.rs) records what a topic is, and `Columns` (src/pipeline.rs) names what its messages
-- are stored under. `Writer.Open` opens the streams and makes a topic of its pipeline and its record.
--
-- Reading. `Index` (src/index.rs) is the index of chunks built from the file's footer. `Reader`
-- (src/reader.rs) merges the chunks' rows by receive time and write order: its child `Windows` has
-- one chunk with a cursor, `Steps` and `Pass` the pass over the file, `Seek` moving the read head,
-- `Scan` what a scan keeps of a file without a footer, `Setup` opening a file: through its footer, or
-- by a scan, the topics are collected, counted, and given a plan where their rows are structs.
-- `Replay` (src/replay.rs) writes a struct row as CDR again by its plan, which `Schema` describes.
--
-- Between them and the C++ plugin stand the entry points. `Entry` (src/lib.rs) has them as functions
-- of a handle, `Entry.Writing` and `Entry.Reading`: a null pointer is `none`, a handle is the object
-- behind it, and the answer is the status, the last error, the object and what is written through the
-- out pointer. `Entry.Names` reads the topics of a filter, which the C++ plugin joins by line feeds.
-- `Ffi` (src/error.rs) is how failures are reported, `Logging` (src/logging.rs) what the callback for
-- log messages gets.
--
-- A method of the reader or the writer is a function from the state to a result and the state it
-- leaves, also beside an error (`Base.Results`). `Arrow` has arrays and chunks as far as the crate
-- reads them. Maps are lists of entries. Times, and the numbers that a writer gives its messages, are
-- signed 64-bit numbers, here shifted by 2 ^ 63 to natural numbers, so that their order is kept: 0 is
-- `i64_zero`. Counts that a `usize` holds, and the number of a row or of a message,
-- are not wrapped: no memory and no bag holds so many. What the clock shows is an argument of each
-- operation that reads it.
--
-- `Reader.Merge` states the merge: the rows that a reader has still to emit are those of its windows
-- and of the chunks not yet read, and a row is due before another by its key. A reader in the middle
-- of a pass (`IsReady`) has settings that do not change, windows whose rows come in their order and
-- can be replayed, at times strictly between the two extremes that stand for no time, and chunks
-- left that each hold no messages or load as a window whose rows lie within the times of the index:
-- what the footer of a recorded file promises. The children follow the pass, from the choice of a
-- row and the horizon of the unread chunks to `Drain`, which reads to the end; `Wind`, `Rewind`,
-- `Seeking` and `Sought` are about moving the read head, and `Entry.Session` about a file that is
-- opened and played. `Writer.Sessions` has the operations on a writer as steps.
--
-- `Recorded` is where the two sides meet, for recordings that keep raw bytes. An `Entry` is a message
-- with its times and its number. `Pushes` and `Taken` follow the entries into the rows and the chunk
-- of a pipeline (`Pipeline.Column` builds the blob column), `Windows`, `Rows` and `Loads` from a chunk
-- into the merge, `Replayed` and `Turned` through a whole playback. For the writer, `Writer.Contents` is
-- the interface of a buffer that keeps its messages (`Keeping`), against which `Writer.Kept`, `Grown` and
-- `Conserved` count the messages of a recording: abstractly, a recording is the list of the messages
-- accepted. `Recorded.Decoding`, `Buffered` and `Pipelines` show that pipelines fill the interface.
-- `Writer.Due`, `Recent` and `Fresh` are about the policy's limits and the sweep, `Retired` about
-- removed topics.
--
-- Loops that run until something happens take a number of rounds, and too few are the error
-- `out_of_fuel`. The rounds that `fill` takes are one more than the chunks left; `read_next` needs
-- one, as no row that is filtered out gets into the merge; reading to the end needs one more than the
-- rows left, `seek` and `set_filter` one more than the rows recorded. Waiting for a server takes the
-- statuses that it answers, until one is five seconds late. The theorems say that these are enough.
--
-- Parameters stand for code outside the crate: the file system and the footer's decoder (`RrdFile`,
-- `FooterAnswers`), the CDR writer and decoder, the lenses, chunk building, the parsers of YAML,
-- server URLs and message definitions, UTF-8 and how errors are printed (`Host`), and the SDK's
-- streams (`Sdk`). What is relied on is named where it is used: `Decodes` of the decoder, `Builds` and
-- `Showing` of chunk building and the lenses (which forward raw bytes in every mode but `drop`),
-- `Stands` of a file that was indexed. What each stream takes of a recording property, if sending
-- succeeds, is a parameter of `close`, and whether another component has the logger or the global
-- subscriber is one of a call that installs a callback. Not modelled: addresses and the freeing of
-- handles, the C++ plugin but for the names it joins, the log messages themselves, and which of them
-- the filter of `tracing` lets through.
-- `Examples` runs the model on small recordings.
pub mod Base
pub mod Arrow
pub mod Index
pub mod Schema
pub mod Recorded
pub mod Replay
pub mod Statics
pub mod Columns
pub mod Reader
pub mod Config
pub mod Pipeline
pub mod Writer
pub mod Examples
pub mod Entry
pub mod Ffi
pub mod Logging
