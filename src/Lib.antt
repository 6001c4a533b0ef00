-- ===== src/Lib.antt =====
-- mTLSling: files sent over mutual TLS between hosts that find each other by multicast.
--
-- A sender daemon (internal/senderdaemon) runs a server (internal/server) and repeats a signed advert
-- (internal/discovery). A listener, the other half of the same daemon, checks the adverts that it
-- receives and downloads (internal/client) from each new sender. A terminal program and an HTTP
-- interface on a local socket control the daemon.
--
-- Files and what they model:
--   Base        Go's own data: strings, maps, errors, int64 and UTF-8, and shared lemmas.
--   FilePath    `relativePath` of internal/server/server.go, with Clean, Join, Dir and Base of
--               path/filepath on Unix.
--   Server      Server.Protocol is internal/server/protocol.go; Server.Conn is `handleConn` and `fileHash`,
--               Server.Progress is `progressWriter` of internal/server/server.go; Server.Types has
--               `FileEntry`, `Manifest` and `ConnEvent`; Server.Hex is encoding/hex; Server.Accept is `New`,
--               `Start` and `Stop` as a relation of steps.
--   Client      `Download` and its helpers of internal/client/client.go, against any peer.
--   Session     the client of Client with the handler of Server as its peer.
--   Exchange    a host with a listener that hears a sender: Discovery, Daemon, Client and Session together.
--   Config      internal/config/tls.go; the record `Crypto` stands for crypto/* and encoding/*.
--   Discovery   `Advert`, `NewAdvert`, `Verify`, `sign` and `verify` of internal/discovery/advert.go;
--               Discovery.Listen has the loops of `Listen` and `Broadcast` over datagrams and answers,
--               Discovery.Sockets both functions with the errors of their sockets and the cancellation.
--   Daemon      internal/senderdaemon: Types, Normalize, State (the daemon in a world of contexts, servers
--               and goroutines), Sender, Listener, Control, Snapshot, and Step, the relation of what may happen
--               between two points at which nobody holds the lock. Invariant and History have laws.
--   Api         `NewHandler` of internal/ipcapi/server.go; Api.Client is internal/ipcapi/client.go.
--   Ipc         internal/ipc: the endpoint, its listener and what a client dials.
--   Senderd     cmd/senderd/main.go: Senderd.Boot is the start, Senderd.Exit the end of the daemon command.
--   Tui         cmd/tui/main.go: Tui.Widgets has the items of the lists and the components of `bubbles` as
--               parameters, Tui.Types the model, messages and commands, Tui.Fields, Tui.Lists and
--               Tui.Settings the functions on them, Tui.Keys and Tui.Update `Update`, Tui.View `View`; Tui.Run
--               is the program with the commands that run, and Tui.Remote the calls against the handler of Api.
--   Tests       runs at concrete data.
--
-- How the code is read. A function that takes a lock is one function on the state; `startSender` and
-- `startListener` take it twice, and are three: begin, build, commit. A goroutine that is started is an
-- element of the list of tasks, a context and a server are numbers, and cancelling or stopping adds the
-- number to a list. That a stop cancels after it has given the lock back is taken as one step with it.
-- An `error` is its text. Sizes of files, counts of bytes and wall clock times are natural numbers: each
-- is below 2^63 in the program. A size that comes from a peer, a timestamp and a skew are int64 values,
-- and where the code subtracts them the wrap-around is written out. A positive `maxSkew` is cut to whole
-- seconds, which `Seconds` and the conversion do exactly for the two minutes of the program. The length
-- of a manifest keeps its conversion to uint32. No definition has fuel but two: the digits of an int64,
-- which has 19, are made with 20 rounds, and the bytes of a number n with n rounds, of which each divides
-- by 256.
--
-- What is outside and a parameter: encoding/json (a `Codec`), BLAKE3, the cryptography, the disk (a
-- function of the path; the server's may change between listing and transfer), the faults of each call
-- on the client's disk, the pieces in which a file is read and a connection takes them, the clock,
-- whether a channel has room, what the sockets answer, how a
-- request over HTTP gets on, and how many of the bytes behind a manifest the buffer of `ReadManifest` has
-- taken, 4096 at most. A file may be there and not open, or give an error when it is read. A handler on an
-- open connection ends only when its client or its files bring it to that.
--
-- A command of the terminal is what it does when it is run: a call of the client and the message that
-- answers it, a request of the state, or the wait for the next one. Commands run at the same time, so a run
-- of the terminal is a relation of steps in which any of them may end first. Numbers that are entered are
-- read as `strconv.Atoi` does for 64 bits. A sort by the id of a connection or the name of a file is an
-- insertion sort, which differs from `sort.Slice` at most where two of them are equal.
--
-- Not modelled: the functions of internal/ipc/ipc_windows.go, which only return an error, log lines, and a
-- panic of an index out of range, which is an error of the run here.
pub mod Base
pub mod FilePath
pub mod Server
pub mod Client
pub mod Session
pub mod Exchange
pub mod Config
pub mod Discovery
pub mod Daemon
pub mod Api
pub mod Ipc
pub mod Senderd
pub mod Tui
pub mod Tests
