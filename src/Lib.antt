-- ===== src/Lib.antt =====
-- mandible is an HTTP server that takes images, makes them smaller, makes thumbnails of them, reads
-- the text in them, and keeps them in one or more stores. A request arrives at a handler of
-- server/server.go. The handler takes the image from the request (a form file, an address, base64),
-- writes it to a temporary file, makes an upload of it (uploadedfile/), runs the processor that the
-- strategy gives (imageprocessor/), asks for a name (imagestore/hash.go), saves the image and its
-- thumbnails in the store (imagestore/), answers with JSON, and removes the files.
--
-- Which file models which part:
--   Config                 config/config.go
--   Host                   the machine: files, commands, and the library functions that are used
--   ThumbType              imageprocessor/thumbType/thumbType.go
--   Command                imageprocessor/processorcommand/: Runner is runner.go, Gm is gm.go, Tools
--                          is jpegtran.go, optipng.go and stripmetadata.go, Words and Ocr are
--                          ocrcommands.go
--   Upload                 uploadedfile/: Types are the two structs, File is uploadedfile.go, Ratio
--                          and Thumb are thumbfile.go
--   Process                imageprocessor/: Types, Async and Strategy are imageprocessor.go, Simple is
--                          imageorienter.go, compresslosslessly.go and exifstripper.go, Scaler is
--                          imagescaler.go, Ocr is ocr.go
--   Concurrent             the step relation that asyncProcessType.Process and MultiImageStore.Save
--                          share, and runs of step relations
--   Store                  imagestore/: Types is storeobject.go and the interface of store.go, Mapper
--                          is namepathmapper.go, Single is memorystore.go and localstore.go, Cloud is
--                          s3store.go and gcsstore.go, Multi, Saves, Existence and Gets are store.go,
--                          Keeps is what the server relies on in a store, Hash is hash.go, Factory
--                          is factory.go
--   Server                 server/: Auth is authenticator.go, Stats is stats.go, and the others are
--                          server.go, one file for each handler; Setup is its constructors, Main
--                          is main.go
--   Base                   helpers on lists, integers, maps, texts and results
--   Tests                  concrete data, and the theorems at them
-- The modules below one of these hold its theorems. A function keeps its name, in snake case:
-- `processSquare` is `process_square`, `NewUploadedFile` is `new_uploaded_file`.
--
-- How the code is written down. A Go call that returns an error is a `Result`, whose third case is a
-- panic; a method that changes something is an `Action`, a function from a state to a result and a
-- state. The state is the host (files and commands started) for commands and thumbnails, the upload
-- with the host (`Job`) for processes, the world (host, maps in memory, services) for stores, and the
-- session (world and statistics) for handlers. Interfaces are records of functions. An upload holds
-- its thumbnails by value, and a process that changes one of them finds it by its index. A deferred
-- call is made explicitly at the end of every path.
--
-- Goroutines are written down twice. As a step relation (Process/Async, Command/Ocr/Parallel,
-- Store/Saves, Store/Existence, Store/Gets): the state holds the goroutines that have not ended, the
-- channels and the caller; a goroutine does its work and sends its message in one step, but for the
-- reader that `Get` sends after it has taken its place; the caller receives one message in a step; and
-- the steps come in any order. And as a function (`async_process`, `multi_ocr`, `multi_store`): one
-- goroutine after the other, each as a whole, in an arbitrary order, which is a parameter, up to the
-- one that makes the caller return. The handlers use the functions, and the step relations refine them.
-- What goroutines do that end after the caller has returned is followed in the step relations only; a
-- panic in one of them is taken for one of the caller. The goroutine of the names is a function of the
-- random draws, and with the calls of `Get` a step relation (Store/Hash/Generator).
--
-- Bounds. Integers are unbounded but for int64 arithmetic that can overflow, which is wrapped around
-- by `wrap64`. The loop of the scaler recurs on the accessibility of its percentage, so it needs no
-- fuel. The loop that draws a name recurs on the list of draws, and `draw_name_total` says how many
-- are enough; `next_hash` recurs on a number of rounds, as nothing bounds how many names are taken. The
-- runs of the step relations need no bound: a measure that every step makes smaller ends them.
--
-- Parameters, for code that is not part of the repository: commands, the detection of a type, the
-- decoders of the image packages, the speller and the file system's refusals (`Machine`); float64
-- (`Floats`); HMAC, base64 and JSON (`Codec`, `Outside`); the HTTP client (`Outside`); the clients of
-- S3 and GCS (`S3Client`, `GcsClient`, `Services`), and what their documentation says where a theorem
-- needs it (`IsDocumented`); regular expressions of the configuration (`Regexp`); the network
-- (`Network`); the environment (`Environment`). The fixed regular expressions of the code are written
-- out as the functions that they compute. The names that a server asks for are a parameter of its
-- constructors: a function of the world, in place of the goroutine that sends them.
--
-- Not modelled: what net/http does once main.go has given it the routes, logging, directories and
-- permissions of files, the mutex of the store in memory, and the closing of readers but for those that
-- `Get` of several stores closes. A file is known by the text of its path, so two paths that lead to
-- one file count as two.
pub mod Base
pub mod Concurrent
pub mod Config
pub mod ThumbType
pub mod Host
pub mod Command
pub mod Upload
pub mod Process
pub mod Store
pub mod Server
pub mod Tests
