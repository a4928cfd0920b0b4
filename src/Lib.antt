-- ===== src/Lib.antt =====
-- A model of ctornado, an asynchronous HTTP server in C++ after Tornado, and theorems about it.
--
-- The program is in layers. A string `Str` is a view of reference counted bytes; a `Buffer` is a queue
-- of strings with a byte count; an `IOStream` has a read and a write buffer, asks its socket and the
-- event loop, and schedules the user's callbacks; an `HTTPConnection` waits for the head of a request
-- with `read_until` and for its body with `read_bytes`, parses both with `HTTPHeaders`, `Query` and the
-- form parser, hands an `HTTPRequest` to the user, and answers with `write`. A `TCPServer` accepts the
-- clients; the `IOLoop` polls the descriptors, calls their handlers, and runs callbacks and timeouts.
-- Texts are made by `vslprintf`.
--
-- Base: tests on naturals, lists, integers and the results that the components share.
-- Chars: the tests and maps of <ctype.h> in the C locale, which the code calls.
-- Str (src/lib/string.h, src/lib/string-inl.h, src/lib/string.cc): a string is null or a list of bytes.
--   `memmem` and `strnfind_portable` are the two bodies of `strnfind`. Split has `split`, `split_pair`
--   and `join` by a byte, Range those by a string, `replace` and `count`; Lines has `split_lines`,
--   Transform what makes a changed copy, Number the numbers and `escape`. View, Occurs, Cuts, Pieces, Counts,
--   Exact and Digits are theorems.
-- Dict (src/lib/string.h, src/core/core.h): maps and multimaps with strings as keys, as lists in order.
-- Buffer (src/lib/buffer.cc): the class as a record of the queue and of `size_`; an operation that would
--   touch what is not there gives an error. Content, Prefix and Merge are its theorems.
-- Format (src/lib/string.cc): `vslprintf` and `vslprintf_len`, each directive read from the format by
--   Spec and converted by Convert. The arguments are a list; one of a wrong type is a fault.
--   A double is a sign, a whole part and the fraction for each number of decimals.
-- Stream (src/core/iostream.cc): the object's fields and what it sees of socket and loop are a record;
--   the methods are steps that return, throw or are stuck. `recv` and `send` take their answers from a
--   list in the state, and block behind its end. A callback that is scheduled is a task in the state.
--   Monad, Close, Read, Write and New have the definitions; the other files are theorems.
-- Headers (src/core/httputil.cc): the class HTTPHeaders. Its static cache of normalized names is an
--   argument and a result; whether PCRE matches a name is the parameter `matches`.
-- Form (src/core/httputil.cc): `_parse_header`, `parse_body_arguments`, `parse_multipart_form_data`.
-- Query (src/lib/urllib.cc): the class Query.
-- Cookie (src/lib/cookie.cc): `_quote`, `_unquote`, CookieMorsel and Cookie; what PCRE finds is a
--   parameter.
-- Http (src/core/httpserver.cc): the fields of a connection with its stream are a record, and its
--   methods are steps on it; the requests that the user's callback was called with are in it. Whether
--   the system takes a text for an IP address is the parameter `valid_ip`.
--   Connection and Request have the methods, Turn runs a callback that the stream has scheduled as the
--   loop does; Head, Whole and Open put these together with the stream's `handle_events`, which the
--   loop calls for what it watches the socket for;
--   Next has the next request on a kept connection; Arguments and FullUrl relate the request to the URL
--   that was asked for. Line, Made, Shut, Serves, Malformed, KeepAlive and Body are theorems of parts.
-- Loop (src/core/ioloop.cc, src/core/ioloop.h): the callbacks and timeouts of IOLoop, a turn of `start` up
--   to its call of poll. Callbacks are numbers, and what they do is a parameter. Handlers has the maps
--   of descriptors and events and the call of poll, over Map, which stands for `std::map`; a handler's
--   doing is a list of calls, and the system's epoll (src/lib/epoll.cc) an interface with its documented
--   laws. The loop over the events is left out: it reads an entry of the map that it has erased. Sound, Polled, Order and Hidden are theorems.
-- TcpServer (src/core/tcpserver.cc): listening sockets over the handlers of the loop, `accept_handler`
--   over what `accept` answers. Stopped and Accepted are theorems.
-- Periodic (src/core/ioloop.cc): the class PeriodicCallback, which asks for a timeout again and again.
-- Status (src/lib/httplib.cc): the status codes and their names.
-- Url (src/lib/urllib.cc): `URL::split` and `URL::unsplit` on the bytes of the parts;
--   Netloc has `get_uphp`, Join `url_join` and `url_concat`; Joined and RoundTrip are theorems.
-- Examples: the theorems at concrete inputs.
--
-- Bounds and fuel: bytes and sizes are naturals, and a size stays below the 64 bits of `size_t` since it
-- counts bytes in memory; the digit loops keep the 32-bit case of the source, and `toi` its wrap-around.
-- A loop over a list is recursion on it. `while` loops run on fuel: the loops over a text on one more
-- than its bytes, since every round takes one, the format loops on one more than the format's length,
-- the socket loops on one more than the answers left, `merge` on the source's chunks, `advance` on the
-- time that is left, and the loop of `read_from_buffer` on any amount, which its theorems bound.
-- The loop over timeouts runs on any fuel too: a callback may add timeouts again and again.
--
-- Not modelled: the loop's instance and its lock, dates; system calls, PCRE and zlib, whose answers are
-- data or parameters of the model; the times of a request; logging, reference counts, and
-- failing allocations.
pub mod Base
pub mod Chars
pub mod Str
pub mod Dict
pub mod Headers
pub mod Buffer
pub mod Format
pub mod Periodic
pub mod Loop
pub mod Url
pub mod Query
pub mod Form
pub mod Cookie
pub mod Status
pub mod Stream
pub mod TcpServer
pub mod Http
pub mod Examples
