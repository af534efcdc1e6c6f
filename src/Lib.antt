-- ===== src/Lib.antt =====
-- Verification library of the ztxbas Go SDK (sdk-go/).
--
-- The SDK is a client of the ztxbas server. It signs each request with an HMAC over a canonical form,
-- sends it, decodes the answer, polls a challenge until the user has decided, and verifies the signed
-- token that comes with an approval against the server's key set, which it caches.
--
-- Parts, and the files that model them:
--   sdk-go/sign.go        Sign: signRequest is sign_request, newNonce is new_nonce. Sign/Canonical is about
--                         the canonical form and the nonce. Sign/Server recomputes the signature on the
--                         server's side (`accepts`); Sign/Admitted is all of verifySig of client_test.go,
--                         with the window and the cap of docs/concepts/hmac-signing.md; Sign/Tamper is about
--                         a signature that stands on another request.
--   sdk-go/errors.go      Errors: the sentinels, APIError, newAPIError, and errors.Is as `is`.
--   sdk-go/client.go      Client: New, the options, do (do_request, in steps from prepare to receive) and
--                         decodeErr. Client/Paths, /Requests, /Success, /Outcomes, /Construct hold the
--                         theorems.
--   sdk-go/verify.go      Jwks: jwk, jwkToECDSA and the loop of fetchJWKS. Verifier: the struct, its
--                         options, fetchJWKS and keyForKID. Token: Verify. Login: (*Client).VerifyJWT.
--                         Verifier/Threads: keyForKID run by many goroutines, as steps between the locked
--                         parts; its child Overtaken is about fetches that overlap. Login/Race: VerifyJWT run by
--                         many goroutines, as accesses to the field.
--   sdk-go/challenges.go  Challenges: the two requests, and PollChallenge as poll_challenge. Challenges/Runs has the
--                         runs of a poll as a relation, round by round.
--   sdk-go/users.go       Users.
--   sdk-go/origins.go     Origins.
--   quickstarts/go/main.go  Quickstart: the program as main, with its lines and its end.
--   sdk-node/src/         Node: the signature in DER form, the refresh that calls share with what it reads, and
--                         verify with the checks of the claims (verify.ts), the class of an error (errors.ts), the signed
--                         request that do hands to fetch (sign.ts, client.ts), what do makes of the response
--                         (client.ts, Node/Responses), and pollChallenge (client.ts).
--   sdk-python/ztxbas/   Python: the lookup of a key under the lock, by one thread and by many, with the
--                         reading of the key set, the checks of the claims, and verify (verify.py); the signed request
--                         (sign.py and client.py, Python/Requests), the class of an error (errors.py,
--                         Python/Failures), what _do makes of the response (client.py, Python/Responses).
--                         Across compares the three SDKs: on claims, on key sets, on whole tokens,
--                         on a signature at the server, and on the errors of a response.
--   api/openapi.yaml      Api: the operations as a table of methods, paths and bodies, and the client's
--                         function for each. Api/Polls counts the requests of a poll.
--
-- Objects holds JSON objects as the dictionaries of Python and the objects of JavaScript.
-- Base holds the shared library: tests, lists, int64, texts as lists of bytes. Go models what the
-- SDK uses of Go's standard library and can be written out: strings, decimals written and read, hex
-- and base64, the escaping of URLs, headers, and how encoding/json sets the fields of a struct. The
-- rest is the record Env of Runtime: clock, random source, HTTP exchange, context and ticker,
-- url.Parse, the text of JSON, SHA-256, HMAC, ECDSA, status texts and %q. Theorems hold for every
-- Env; where one needs more of it, that is a named hypothesis (FillsBuffer, KeepsTime, GivesBytes,
-- HasDigests, ReadsDer), met by an Env of Tests. The lookup of the Python SDK has a record Host of
-- its own, of its clock in whole nanoseconds, of what `_http_get` gives, and of Python's libraries,
-- with the hypotheses Serves and ReadsKeys; the key set of the Node SDK has Node's
-- `createPublicKey`, with the hypothesis ReadsJwks, which speaks of JWKs of P-256 with coordinates
-- of 32 bytes only; the poll of the Node SDK has a Host too, of what its requests give, with the
-- hypothesis Sleeps. What a response is read with in the Python SDK is a record Codec, and a Reply
-- in the Node SDK holds what `resp.json()` gives; the hypothesis IsSame says that the three
-- libraries read one body alike. The verify of the Python SDK has a record Kit of its libraries,
-- and that of the Node SDK a record Tools, with the hypotheses IsAlike, IsAlikeNode, Holds and
-- HoldsInNode, that they and those of Go decode, parse and verify a token alike, and IsInStep, that
-- the lookups and the clocks do.
--
-- State is passed on: World counts the effects and lists the requests sent; Session is a verifier
-- with the world, Live a client with the world. Errors are values of Result. Fuel is used by the
-- polls only. For the poll of the Go SDK it is the number of rounds whose intervals fill the timeout,
-- and so many more as ticks are taken after the deadline: Go's `select` chooses at random among what
-- is ready, so that no number of rounds is enough for every run. For that of the Node SDK the rounds
-- that fill the timeout are enough.
--
-- Simplifications: the texts of errors that come from libraries are not those of the libraries
-- where they name offsets or types; strings.TrimSpace trims the one-byte blanks; a URL's user info,
-- host and fragment are kept as they are printed, and a client's base URL has a host; panics of nil
-- pointers are modelled at the client's verifier only; a member of a JSON object that holds a list
-- and stands twice is set from zero values, where encoding/json goes on from the elements that the
-- first one left (set_list). A method runs from start to end in one goroutine, except in
-- Verifier/Threads and Login/Race, where any number of goroutines take steps in any order, from a
-- family of program counters by number, on a sequentially consistent memory; a locked part is one
-- step, and so is a fetch with its exchange. In Verifier/Threads the mutex is not a state of its
-- own, so that neither waiting for it nor an exchange that hangs is expressed there. In
-- Node/Coalesce the pieces between two awaits are the steps, in any order that the promises allow;
-- in Python/Lookup the parts between the lock's taking and its release are steps of their own. The
-- times of a claim are integers, where the Node SDK has doubles; times of other types, which the
-- Python and the Node SDK compare by their languages' rules, are left to parameters. A key id of
-- the Python SDK that is no text is taken for an id that no key has.
-- Not modelled: the tests, but for verifySig; of sdk-node/ and of sdk-python/ the wrappers around do and _do and the
-- timer of a request, and the poll of the Python SDK, which is that of the others on another clock;
-- deploy/, docs/, api/ beyond the table of operations, and the other quickstarts. In the
-- quickstart's context of five minutes only the poll's own deadline is a number. Tests holds sample
-- data, runs of the code on it, and the theorems at these runs.
pub mod Base
pub mod Go
pub mod Errors
pub mod Runtime
pub mod Sign
pub mod Jwks
pub mod Verifier
pub mod Token
pub mod Client
pub mod Login
pub mod Challenges
pub mod Users
pub mod Origins
pub mod Api
pub mod Tests
pub mod Quickstart
pub mod Node
pub mod Objects
pub mod Python
pub mod Across
