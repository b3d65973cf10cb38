-- ===== src/Lib.antt =====
-- The native bridge of the app Hey: entry/src/main/cpp/napi_init.cpp, which ArkTS calls through N-API
-- and which loads and drives the native cores by `dlopen` and `dlsym`: libXray (libxray.so), sing-box
-- (libsingbox.so), and the TUN engines gVisor (libheytun2socks.so) and hev (libhevsocks5tun.so).
--
-- Parts of the program and the files that model them:
--   Bridge/State: the globals `g_...` as the record `Bridge`, the environment `Env`, and the trace of the
--     effects. Bridge/Monad: the code as state passing, whose outcome is `done`, `crashed` (a call
--     through a null pointer) or `blocked` (a `join` of a thread that does not end). Bridge/Calls: the
--     helpers `CreateResult`, `CreateResultQuiet`, `WriteTextFile`, `MakeFdInheritable`, `GetStringArg`,
--     `GetIntArg`, `DirName`, `NativeLibDir`, `ExecPath`. Bridge/Keeps: rules for invariants.
--   Codec: `Base64Encode`, `Base64Decode`, `JsonEscape`, `InvokeSuccess`, `ResponseOk`, `ExtractDelay`.
--   Loader: `LoadXrayCore`, `LoadXray`, `PrepareXrayAssetDir`, `InvokeXray`, `LoadOptionalSymbol` and the
--     lazy symbols, `LoadTun2SocksCore`, `LoadHevCore`, `OpenSingbox`, `LoadSingboxCore`.
--   Xray: `ValidateConfig`, `SetTunFd`, `StartXray`, `StopXray`. Ping: `PingOutbound`. Query: the
--     auxiliary queries. Tun: `StartTun2Socks`, `StartHevTun`, `StopTun2Socks`, `GetStats`. Singbox: the
--     five handlers of the second core. Module: the table of `Init` and sequences of calls.
--   Health: the invariant of the globals and of the trace, kept by the handlers. Frame: what the loads,
--     the queries and the helpers leave alone, as an interface that Quiet (the calls that answer a
--     question), Life (the abstract machine of running cores, data plane and engine, whose steps the
--     handlers take) and Valid (the ranges of what is asked of the libraries) fill. Valid/DataPlane: what a
--     predicate of the engine in use and the trace needs to be kept by the data plane, as an interface
--     that Valid/Starts and Adapter/Agrees fill. Behaviour: what the answers say of the globals, what the
--     cores get to read, and the runs that crash or wait forever.
--   Adapter: `startTun2Socks` and `stopTun2Socks` of entry/src/main/cpp/tun2socks_adapter/main.go and their
--     exports, and, in Adapter/Joint, the adapter together with the bridge, whose detached stops run step
--     by step at any time (`Schedule`). Libsingbox: the exported functions of libsingbox/main.go with the
--     mutex and the `OpenTun` of libsingbox/platform_stub.go, the sequences of requests to it, and, in
--     Libsingbox/Answers and Libsingbox/Judge, what the bridge makes of its answers.
--   Examples: an environment, states and sequences of calls, and the theorems applied to them.
--
-- Each handler takes the N-API values given to it and is one function, with the guards in the order of
-- the source; what follows its guards, a load or an answer of a core is a function of its own. A
-- string is the list of its bytes. Integers: an `int` accumulator of the codecs is its 32-bit pattern
-- (`% 2 ^ 32`), a `size_t` that is cast to `int64_t` is read modulo 2 ^ 64, and the `int32_t` arguments
-- are integers that are only compared and passed on. Fuel: the inner loop of the encoder has one
-- round per six bits held and gets as much fuel as there are bits; the padding loop has three rounds
-- at most; a decimal has ten digits at most, as an `int32_t` has.
--
-- The two Go libraries of the repository stand behind `Env` like any other: `Loads` says that gVisor's
-- library is the adapter, and `Packages` holds what the sing-box wrapper imports (libbox, encoding/json,
-- encoding/base64), with what their documents say in `Documented`. In the adapter a stop has
-- its two steps, and other threads in a stop run between the steps of a start (`During`); `Loads` takes
-- the starts to come back: one whose engine fails ends the process.
--
-- Not modelled: the cores and engines themselves (Go, C and binaries) and the system, whose answers are
-- the fields of `Env` and may depend on all that happened before; the byte counters and the command line
-- of the adapter; the callbacks of libsingbox/platform_stub.go that return constants or log; the ArkTS
-- application; N-API object construction and module registration; the mutex of `PrepareXrayAssetDir` and
-- the atomics, since calls are a sequence; the bytes behind the first NUL of a `char*`.
pub mod Prelude
pub mod Codec
pub mod Bridge
pub mod Loader
pub mod Xray
pub mod Query
pub mod Ping
pub mod Tun
pub mod Singbox
pub mod Module
pub mod Health
pub mod Behaviour
pub mod Frame
pub mod Life
pub mod Valid
pub mod Adapter
pub mod Libsingbox
pub mod Quiet
pub mod Examples
