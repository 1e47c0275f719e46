-- ===== src/Lib.antt =====
-- A model of cppmhd, a C++ library for HTTP servers on libmicrohttpd.
--
-- The program. An application adds routes with controllers to a router builder. When it starts, the
-- router parses the path of each route (`PathParser`), inserts it into the radix tree of its method
-- (`RawTree`), and copies the trees (`Router::buildTree`). For each request libmicrohttpd calls
-- `MHDconnectionCB` several times: first with the request line, then with the data as it comes in, and
-- then without data. The first call parses the method, checks the request, and forwards it through the
-- tree of its method to a controller, or to the address with a slash more (`tsr`), or answers
-- with 404. The later calls hand the data to the data processor that the controller has set, and let the
-- controller answer. An error in the data is answered when the rest of the data has been thrown away.
--
-- The files.
--   Prelude            lists, texts and tests: a text is the list of its bytes, without the final 0
--   Core               lib/include/cppmhd/core.h, app.h: methods, statuses, error numbers
--   Utils              lib/src/utils.cc, utils.h: `Regex` over PCRE2 and `split`
--   Utils/Address      lib/src/utils.h, utils.cc, format.h, dns.cc: `InetAddress`, its texts, `fromHost`
--   Entity             lib/include/cppmhd/entity.h, lib/src/entity.cc, entity.h: requests, responses
--   Router/Node        lib/src/router.h, `RouterNode`; lib/src/router.cc, `RawNode`
--   Router/Parse       lib/src/router.cc, `PathParser::parsePathSegment`
--   Router/Insert      lib/src/router.cc, `RawTree::insert`, `insertChild`
--   Router/Builder     lib/src/router.cc, `RouterBuilder`, `RawBuilder`, `Router::buildTree`
--   Router/Forward     lib/src/router.cc, `Router::forward`
--   Router/Radix       static trees as maps: insertion and forwarding of paths without wildcards
--   Router/Table       routers of static routes as tables of routes
--   Router/Params      routes with parameters, from the text of the path to the values of a request
--   Router/Patterns    which requests a tree of any routes can answer: patterns and their instances
--   Router/Handlers    where the controllers come from that a built router finds
--   Router/Ending      the heights that bound the rounds of `insert` and `forward`
--   Http/Method        lib/src/http.cc, `parseHttpMethod`
--   Http/Server        lib/src/http.cc, http.h: `HttpImplement`, and how it answers
--   Http/Connection    lib/src/http.cc, `MHDconnectionCB`
--   Http/Requests      lib/src/http.cc, the objects of all requests, and `connectionFinishCB`
--   Http/Server/ErrorPage   lib/src/utils.cc, `defaultErrorHandler`
--   Controller         lib/src/controller.cc: `FormProcessor` over the post processor of libmicrohttpd
--   App/Signals        lib/src/app.cc, `AppManager`, `App::setSignalHandler`, `signalHandlerWrapper`
--   App/Barrier        lib/src/utils.h, `Barrier`, as steps of the threads that call `wait`: a blocked
--                      thread goes on when `notify_all` has woken it, or for no reason
--   App/Daemons        lib/src/http.cc, `HttpImplement::startMHDDaemon`
--   App/Flags          lib/src/http.cc, `calcFlag`
--   App/Start          lib/src/app.cc, `App::start`
--   App/Lifetime       lib/src/app.cc, `App::App`, `App::~App` and the list of applications
--   App/Serving        from the routes to the first call of `MHDconnectionCB` for a request
--   Logger             lib/src/logger.cc, logger.h: the levels and the logger for stdout
--
-- How the model corresponds. A function of the source has its name in the model, and a large one is cut
-- at its branches: `round` is one round of the loop of `forward`, made of `inside` (the path is longer
-- than the node's), `at_end` (it is the same) and `tsr_at_end`; `choose` finds the next node of `insert`.
-- Raw and built nodes are one type, since `build` copies the fields. Trees that the source changes in
-- place are returned, which is the same because a node is reached from its parent alone. Controllers,
-- data processors and their effects are numbers and functions of the record `Server`: of a request they
-- may change the data processor only. PCRE2 is the record `Pcre`: which patterns compile, and what groups
-- a pattern finds in a text; nothing is assumed of it but what `IsStatic` and `IsRoute` say of a route.
-- `IsStatic` is a path whose parts PCRE2 finds static; `IsRoute` is one whose parts are static, or
-- parameters and catch-alls with or without names and patterns, with static text before each wildcard and
-- a catch-all only at the end.
-- A null that is used and an exception that is not caught are results of their own: `fault`, `crashed`,
-- `broken`, `thrown`. So is an assertion that fails. `Pcre` also says whether the build has assertions:
-- without them the code goes on after those of router.cc:465 and 781 and of http.cc:271, and the model
-- does. The logger has a parameter of its own for its assertion. The other results are those of a
-- build with assertions. Not in the model, because they cannot fail, are the assertions of
-- `FormProcessor` on its own pointer and on the kind that libmicrohttpd gives, and the count that
-- `parsePathSegment` keeps for one.
--
-- Fuel. `insert` and `forward` go down one level of the tree in each round, and get one unit more than the
-- height of the tree; `split` takes a character at least in each round, and gets one more than there are.
-- A run that does not end would give `exhausted` or `running`.
--
-- Requests at one time. The objects of `MHDconnectionCB` are a map from addresses, and `*con_cls` is a
-- map from requests to addresses or null. Calls come in any order; libmicrohttpd gives null in the first
-- call for a request and gives back what the calls have set, and `new` gives an address that is free.
--
-- Forms. What one call of `MHD_post_process` does is a value of `Parsing`, a parameter: the pieces that
-- it hands to the iterator, where each next one may depend on what the iterator returned. `told` is the
-- list of all calls that the application's controller has got, and its answer is any function of them.
--
-- The system. Taking a handler for a signal and starting a daemon are functions of the record `System` that
-- succeed or not; `inet_pton`, `inet_ntop`, `htons` and `ntohs` are the record `Sockets`, c-ares is `Cares`,
-- and `DnsQuery` is a function from names to records or a failure, after which `res` is freed without a
-- value, so that `from_windows_host` gives no result. An application and a handler are numbers.
--
-- Not modelled: the options of the daemons and the other calls of libmicrohttpd, c-ares and the
-- operating system, the flow information and the scope of v6 addresses, the loop that waits for
-- c-ares, loggers of the application, the time and the place in a log line, the memory hooks,
-- reference counts and the release of controllers and processors, and the text formatters except
-- those of the methods, of addresses, of the states of requests and of the types of nodes.
-- `size_t` counts texts in memory and does not wrap; the one number at its limit is
-- `DataProcessorParseFailed`. `std::sort` is an insertion sort, and no two trees of a builder have
-- one method, so that the order that the library leaves open does not matter.
pub mod Prelude
pub mod Core
pub mod Utils
pub mod Router
pub mod Entity
pub mod Http
pub mod Controller
pub mod App
pub mod Logger
