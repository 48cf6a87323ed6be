-- ===== src/Lib.antt =====
-- go-relax: a framework for REST services in Go, as a model and its theorems.
--
-- The program. A service (service.go) holds a router, encoders, filters and resources. A request
-- gets a pooled context (context.go) with an identifier (util.go), passes content negotiation
-- (content.go), then the filters of the service (filter/), and then the dispatch, which asks the
-- router (router.go) for the handler that a resource (resource.go) has registered. Handlers answer
-- through the encoder that the negotiation has chosen (encoder.go, encoder/xml/xml.go); filters that
-- change a response let it be written into a buffer (response_buffer.go) and flush that. Links
-- between resources are texts and lists (linking.go).
--
-- The files. Text and Http have the functions on texts, header maps, requests and response writers of
-- Go's library that the program uses; a text is a list of bytes.
--   ResponseBuffer  response_buffer.go: the buffer, and a flush to any writer
--   Context         context.go, errors.go, and `Respond` and `Error`; Context.Format is the format of
--                   `Format` for log lines
--   Router          router.go: Segment is `segmentExp`, Trie is `AddRoute`, Find is `matchSegment`,
--                   `FindHandler` and `PathMethods`
--   Util, Linking, Encoder, Content
--                   util.go, linking.go, encoder.go with encoder/xml/xml.go, and content.go
--   Service         service.go and resource.go: Service has the state and `Use`, Service.Resources the
--                   operations of resources, Service.Dispatch the way of a request through `Adapter`,
--                   Service.Root the service itself as a resource, Service.Verbs the aliases of `Route`,
--                   Service.Pool the pool of contexts, over a run of requests, Service.Items the
--                   steps of `CRUD`, Service.Start the log and what `Handler` and `Run` ask of a server
--   Filters         a module for each package of filter/; Filters.Limits has those of filter/limits:
--                   Container is the interface, MemBucket and RedisBucket implement it, and Usage is
--                   its client
--   Tests           runs at concrete inputs, and each theorem at an input that meets its hypotheses
--
-- The state. A handler is a function from a context to an outcome, which is a return or a panic, with
-- the context as it was left. The context has the storage, the writer and the request in it, so
-- what a handler does to them is what it returns. Functions that can panic return an Option, with
-- `none` for the panic. The goroutine of the throttle filter and its channel are a transition on the
-- state of both, one event at a time. Token buckets stand behind references, since the program keeps
-- pointers to them in its cache; those in Redis are the state of the server, which commands change.
-- The global cache of compiled expressions is a part of the router.
-- Calls of a container in memory come one after another: each is one step, though the program
-- guards its buckets by no lock. A call reads the clock twice, and both readings are arguments.
--
-- Loops are structural recursion. Only the decimal printer of Text runs on fuel, `suc n` for the
-- number n, which is more than it has digits.
--
-- Parameters. What is not code of the repository is an argument of the definitions that use it:
-- package regexp (`compile`), package mime, ParseFloat with float32 (`Quality`), the codecs of JSON
-- and XML, SHA-1, MD5, base64, the compressor, the parsers of dates and URIs, go-strarr, lru, and
-- redigo with its server (`Redis`). The clock, random identifiers and what a pool hands out are
-- arguments too. Hypotheses on them stand in the theorems.
--
-- Read as exact numbers: the float64 arithmetic of the token buckets. Letters change case as ASCII
-- does. Informational statuses (1xx) are treated as any other status.
--
-- Not modelled: redigo and the Redis server, the server of net/http that `Run` starts, and the way a
-- logger prints a line, which are libraries; the line that the recovery logs, since the value of a
-- panic is not kept; example/.
mod Base
pub mod Text
pub mod Http
pub mod ResponseBuffer
pub mod Context
pub mod Router
pub mod Util
pub mod Linking
pub mod Encoder
pub mod Content
pub mod Service
mod Tests
pub mod Filters
