-- ===== src/Lib.antt =====
-- wrtdeck: the panel of an OpenWrt device, in Go. Its server keeps a registry of information sources
-- and actions, collects the sources on a schedule or by MQTT, keeps their last states and samples in
-- memory, pushes changes to the browsers, and lets in who holds a session or a token. A gateway runs as a
-- CGI program of the router's web server and forwards requests to the panel.
--
-- What is modelled, by the paths of the repository:
--
--   internal/api       Api: the table of sessions of session_store.go (Api/Sessions), the one-time codes
--                      of session.go (Api/Handoff) and the throttle of throttle.go (Api/Throttle), over
--                      what they use of the packages time (Api/Clock) and net (Api/Ip); the addresses of a
--                      request of remote.go with the layers that refuse by host and origin (Api/Remote);
--                      with_auth of middleware.go with the handlers of session.go (Api/Server), which
--                      call the stores and the secrets; and the handlers of the registry, of actions and
--                      of the pages in handlers_registry.go, handlers_history.go and server.go (Api/Panel),
--                      which call the registry, the scheduler, the subscriptions and the executor.
--   internal/config    Config: the hash and the strength of the password of password.go (Config/Password),
--                      the secrets of secrets.go (Config/Secrets) and the settings of config.go
--                      (Config/Settings).
--   internal/registry  Registry: the entries of model.go (Registry/Model), their check of validate.go
--                      (Registry/Validate), mqtt.go (Registry/Mqtt) and refs.go (Registry/Refs), and the
--                      store with its file of store.go (Registry/Store).
--   internal/template  Template: the placeholders of a text and what they become (Template/Render), and
--                      the references of a text (Template/Refs).
--   internal/extract   Extract: the value of a body, by a path, a pattern or as it is.
--   internal/engine    Engine: the check of parameters of params.go (Engine/Params), the rendering of a
--                      transport of render.go (Engine/Render), the runs of executor.go (Engine/Executor),
--                      the jobs of scheduler.go (Engine/Scheduler) and the subscriptions of subscriber.go
--                      (Engine/Subscriber).
--   internal/transport Transport: what the transports share of transport.go, which programs may run of
--                      exec.go (Transport/Exec), and the shared connections of mqttpool.go and
--                      mqtttopic.go (Transport/Pool).
--   internal/gateway   Gateway: the request that a call forwards of gateway.go, and when the panel's token
--                      is added of luci.go (Gateway/Luci).
--   internal/mqtt      Mqtt: the packets of packet.go (Mqtt/Packet for the wire, Mqtt/Build for what is
--                      sent, Mqtt/Decoder for the bodies that are read), the filters of topic.go
--                      (Mqtt/Topic), and the client of client.go, session.go, publish.go and subscribe.go
--                      (Mqtt/Client).
--   internal/state     State: the samples of history.go (State/History), the states of store.go
--                      (State/Store) and the events of hub.go (State/Hub).
--
-- How they meet: the executor changes the states, the samples and the hub, and reads entries, rendered
-- templates and extracted values; the scheduler and the subscribers take the wanted entries from the store
-- of the registry, and the check of an entry uses the references of the templates. What the gateway
-- forwards is read by the test of the panel for a proxy (Gateway/Forwarded).
--
-- Prelude holds what they share: lists measured by native numbers, texts as lists of codes, Go maps as
-- association lists with their lemmas, JSON values, the eviction of an oldest entry, the order of texts,
-- the bits of a byte, and what the source uses of the package strings.
--
-- State is passed explicitly: an operation of a Go type is a function from its record to the new record
-- with the answer. A mutex is held through each operation of a store, so that a run is a sequence of
-- them; a handler calls several, with no other request in between. A run of a source is two steps, around
-- the wait for its transport, and a run of a job holds its slot until a step of its own; other steps may
-- come in between, as between the four steps of the function of a timer in Transport/Pool: it starts, looks
-- whether the connection is idle, takes it from the map and shuts it down. The steps of one call of the
-- subscribers have nothing in between. The clock and the random source are arguments; an error is `none` or a value of a
-- type of errors.
-- A Go map is a list of pairs, whose order stands for the order of one `range`; the theorems hold for
-- every order. A time is the count of nanoseconds since the zero time, a 64-bit duration its pattern
-- where the code multiplies it, a 16-bit number keeps its wrap-around, and a float is its bit pattern.
--
-- Loops: `append_remaining_length` runs on fuel, one round more than its argument, which falls with
-- each division by 128; `read_remaining_length` has four rounds and `register` 65535, as the code; every
-- other loop is over a list. The regular expressions of the placeholders are scanners over the text.
--
-- Parameters: the derivation of keys and the coding of bytes as text (`Crypto`), whose laws are that
-- decoding undoes encoding, that the code of a text that is not empty is not empty, and that a derived
-- key is not; the parsing and printing of addresses (`IpText`), whose laws are that a printed address
-- is not empty and that the networks of two addresses print the same only if they are the same; and,
-- without laws, the packages net (`Net`), net/url (`Urls`), path/filepath and os/exec (`Paths`), the
-- printing and reading of numbers and JSON (`Printing`, `Reader`, `EntryCodec`, `ConfigCodec`), the
-- compiler of regular expressions, what ubus answers (`Ubus`), and what a transport answers (`World`).
--
-- What the request of Api/Server says of its addresses is a field of it, and a request reads the clock
-- once. The answers of the broker are an argument of the subscriptions, and nothing else happens during
-- such a wait.
--
-- Not modelled: the routes, the writing of responses, the layers of middleware that only write headers or
-- log, the two waits of `Publish` and the loop of the MQTT client, the sockets of the HTTP, TCP and UDP
-- transports, the forwarding of bytes by the gateway, the demonstration entries, certificates, the
-- embedded web pages, the command line and the packaging.
mod Prelude
pub mod Config
pub mod Api
pub mod Mqtt
pub mod State
pub mod Registry
pub mod Template
pub mod Extract
pub mod Engine
pub mod Transport
pub mod Gateway
