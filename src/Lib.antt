-- ===== src/Lib.antt =====
-- AMRC Connectivity Stack (ACS): models of its core JavaScript libraries and services, and what is
-- proved of them.
--
-- ACS connects devices over MQTT and Sparkplug. Every service authenticates its clients with a
-- shared HTTP layer, asks the authorisation service what a client may do, and keeps its
-- configuration in the Config Store; edge drivers read devices and publish through an edge agent.
-- The modules follow these parts, each with the code's own names:
--
--   Prelude      Boolean tests, strict equality as an interface, and the list and map laws that the
--                others share; Text has strings as UTF-16 code units, `split`, and regular
--                expressions as runs of character classes (Text.Spans).
--   Sparkplug    lib/js-service-client/lib/sparkplug/util.js: Address, Topic and
--                sparkplug_safe_string. A null field is `none`; `Parsed` tells null from an
--                exception.
--   Rx           lib/js-rx-util/lib/response.js: the class Response, with a body that is `none` for
--                an empty one.
--   Auth         acs-auth/lib. Validate is validate.js. Acl, Permitted and Identities are
--                dataflow.js: the value that each sequence emits from the latest grants, groups,
--                identities and owners; a token is null or a function from targets to Boolean, as
--                check_targ gives it. Store is model.js and queries.js on the tables uuid and ace,
--                with the constraints of the table written out; Api is api_v2.js.
--   HttpAuth     lib/js-service-api/lib/auth.js and jwt.js. Header reads the Authorization header;
--                Server has the schemes and the map of tokens, and a history of events, the latest
--                first. base64, GSS, JSON and the verification of a JWT are the record Outside; Jwt
--                has the class JwtVerifier, where the fetched document and jose are parameters.
--   Edge         lib/js-edge-driver/lib/driver.js. Driver is a state machine: an async function is
--                cut where it waits, and the counters connecting, closing, subscribing and timers
--                say what is awaited. A rejected promise that nothing catches is `none`. The handler
--                of a device is the record Handler. Topic has topic and handleMessage, and Data
--                the publishing of data in polled.js and async.js beside driver.js.
--   ConfigDb     acs-configdb/lib. Etags is etags.js. Configs is the table config of model.js with
--                the schema cache and the special applications of special.js; Transactions has
--                config_put, config_delete and config_merge_patch, with what they send. Api has
--                their handlers of api-v2.js. JSON values are a type with strict equality; the
--                schema compiler, merge patches and the status of update_registration are the
--                record Outside.
--                Objects has the tables object, rank, membership and subclass of model.js, with
--                the views of sql/v8.sql as tests: Relations is class_add_member to
--                class_remove_subclass, Registration is update_registration, which works on the
--                complete registration that the patch gives, and Creation is object_create and
--                object_delete, where the UUID that the database makes is a parameter.
--   EdgeAgent    acs-edge/lib. Types, Bytes, Buffer and Metrics are helpers/typeHandler.ts; an array of
--                bytes is a list of numbers, and the floats of the language are the record Language
--                over a type F of what is no whole number. Payload and Node are sparkplugNode.ts: an
--                async method is one step on the record Node, with what it publishes. Device is
--                device.ts: Readings has _handleData, where the record Reader gives the values of a
--                payload, and Commands has _handleDCmd and #writeMetrics; the then
--                of a birth is a step of its own, and the device counts the births it awaits.
--
-- The parts meet in their interfaces: Auth.Api and ConfigDb.Api take a client's permissions as the
-- function that the check gives, ConfigDb.Api hands Etags' check to Configs, and Auth.Store takes
-- the token of Auth.Permitted.
--
-- Bounds: all recursion is on the structure of a list, a text or a history, so there is no fuel.
-- Times and expiries are natural numbers of milliseconds, and ids those of a database sequence;
-- JavaScript represents both exactly far beyond any value that occurs.
--
-- Not modelled: logging, the scheduling of RxJS (a sequence is the value it emits from the latest
-- inputs), SQL as a language (a statement is read as its effect on rows, and a transaction is
-- atomic), calls that share one discovery of JwtVerifier, the searches and dumps of the Config
-- Store and its HTTP handlers of objects and classes, and the services, tools, connections and
-- user interfaces that the modules above do not name. In the Edge Agent, templates, data sets and
-- other objects as values, and keys that Object.prototype has, are left aside.
pub mod Prelude
pub mod Text
pub mod Sparkplug
pub mod Rx
pub mod HttpAuth
pub mod Edge
pub mod ConfigDb
pub mod EdgeAgent
pub mod Auth
