-- ===== src/Lib.antt =====
-- GO-eBPF-Proxy: a sidecar that relays a pod's outgoing connections to their recorded
-- destinations, takes in the TLS session keys of the application, and captures the traffic into a
-- pcapng file that carries those keys.
--
-- Parts and files. internal/capture/pcapng.go is Capture/Size (block sizes), Capture/Packet (the
-- data) and Capture/Writer (the Writer). An operation of the Writer is a function on its record,
-- for one critical section of w.mu: set_room, add_secret, write_packet, tick (one firing of
-- drainPeriodically's ticker) and close. What any goroutines do to a writer is a list of such
-- steps, run by Writer/Step. pcapgo and the file are one record, Pcapgo: which call fails after
-- which calls, and the size of the file after calls. Writer/Change, Content and Effect are what
-- one step does; Room, History, Order, Memory and Hold are properties of a whole run, and Shut is
-- of a writer behind Close. The record keeps the calls made on pcapgo and the file, whether they
-- succeed or not, and Landed tells those that do: writeHeld takes a packet or line from memory
-- even if its call fails.
--
-- CreateRunCapture is Capture/RunName, where what NewWriter does at a path is a function, and
-- Capture/Create, with splitTemplate and NewWriter on a file system: a function from paths to
-- entries, and a record of what the operating system answers, with the directories that MkdirAll
-- makes. CheckTarget of retention.go is there too. The loop of internal/capture/live.go is
-- Capture/Live; its reads are a list, each with what other goroutines do to the Writer until its
-- packet is handed on, until it fails, or so far; Capture/Live/Threads is its goroutine beside
-- Stop, step by step, and StartLive. internal/capture/retention.go is Capture/Retention: a
-- directory is a list of entries, os.Remove a function of the path. app.openCapture hands the room
-- of Retention to the Writer; Retention/Total joins the two.
--
-- internal/keylog/nss.go and label.go are Keylog/Nss, over Keylog/Fields (strings.Fields) and
-- Keylog/Hex (hex.DecodeString). internal/keylog/writer.go is Keylog/Append: the gate's answer and
-- whether the write fails are arguments of each call. app.startKeylog makes the capture Writer's
-- AddSecret the sink, so that what is sunk comes to the Writer as lines. handleConn of
-- socket_server.go is Keylog/Socket, with the bufio.Scanner that splits a connection into lines;
-- NewSocketServer and Close are Keylog/Server.
--
-- bpf/proxy.bpf.c is Ebpf/Redirect: both programs, with the kernel's two maps as a parameter that
-- has the laws of an LRU hash; Ebpf/Redirect/Connect is one connect, History and Join a whole run,
-- and Proxy/Redirected joins the programs to the resolver and the relay. internal/ebpf/loader.go
-- is Ebpf/Loader, what Load, Attach and Close ask for as effects of which any may fail.
--
-- internal/ebpf/codec.go is Ebpf/Codec, over Ebpf/Addr (net/netip), for both byte orders.
-- internal/proxy/resolver.go is Proxy/Resolver: the eBPF map is a function of key and attempt,
-- since it may change between attempts. internal/proxy/relay.go is Proxy/Relay: what handle does
-- to the world is a list of actions. splice is Proxy/Splice: each of its two goroutines has a
-- stage and a wire, which holds the bytes it has read and written; Move is one step of a
-- goroutine, Step one of splice, and Reach what any interleaving may come to.
-- internal/shared/logger/limit.go, and log of logger.go, are Logger/Limit; isSensitive of
-- logger.go is Logger/Redact. replaceAttr and scalarAttr are Logger/Attrs, with the walk over
-- groups that slog does, which omits empty ones.
--
-- Start, openCapture, startKeylog and Close of cmd/app/app.go are App: what they do is a list of
-- effects, what the world answers a record of faults; App/Counts counts the resources that effects
-- open and close. App/Wiring is the keylog and the capture as startKeylog joins them, with the
-- tick of enforceRetention: a line passes the gate, and other work may reach the capture before
-- the sink does. App/Files is what those effects do to the file system of Capture/Create, from
-- Start to Close, with deleteKeylog, the pins of the loader, and the socket and the keylog of the
-- server; a call that fails may leave directories and files, and the effects load_failed,
-- capture_failed and keylog_failed say that it was made. App/Tmpfs is keylog_tmpfs.go,
-- App/Settings the checks and keys of config.go, and App/Sources its loadConfig: koanf and its
-- providers are the record Koanf, what they document the record Documented, which
-- App/Sources/Table shows to hold of a table. App/Report is the log lines of app.go, with the
-- limited log that newResolver gives the resolver. FilePath is Clean, Dir, Base and Ext of
-- path/filepath.
--
-- Numbers. An int64 that may wrap is a pattern below 2 ^ 64 (Base/Int), a byte a number, a time a
-- count of nanoseconds from Go's zero time. Sizes of blocks wrap as in the code; the theorems on
-- sizes assume packets and lines of at most 2 ^ 30 bytes and limits below 2 ^ 60.
--
-- Fuel. resolve_loop has one more than the retries, create_loop and run_loop 1000, decimal_loop
-- the number and one, nearest one more than the parts of the path: each is enough for every turn
-- the loop can take, and the theorems on these functions rest on that and not on an assumption
-- that they return. Every other loop is structural.
--
-- Not modelled: the goroutines of cmd/app, the parsing of the arguments (flag) and the decoding of
-- the merged configuration (mapstructure), the accept loops, generated code, and the C interposer.
-- What a failed write leaves on a file is a parameter for the capture and left open for the
-- keylog.
pub mod App
pub mod Base
pub mod FilePath
pub mod Capture
pub mod Ebpf
pub mod Keylog
pub mod Logger
pub mod Proxy
