-- ===== src/Lib.antt =====
-- Verification library of gin_t, a small HTTP framework in Go.
--
-- A request goes through Engine.ServeHTTP (core/engine.go): it takes a Context from a pool, asks
-- HttpRouter.Match (core/router.go) for the handlers, which looks the path up in the radix tree of
-- the method (core/tree.go), runs the interceptors and the handlers by Context.Next
-- (core/context.go), and puts the context back. Handlers validate the structs that they bind by
-- the rules in the tags of the fields (core/validators).
--
-- Outcome: what a Go call does, a result or a panic. Common, Text: shared lemmas on lists and
-- numbers, and the text functions of Go's standard library that the program uses (strings.Split,
-- package utf8, strconv.ParseInt, ParseUint and ParseBool).
--
-- Tree models core/tree.go. Tree/Node is routerNode, with byte strings for paths and children as a
-- list; Tree/Priority is incrementChildPrio; Tree/Insert is wildcardNum and insertChild; Tree/Walk
-- is addRoute, one round of its loop as walk_step; Tree/Lookup is getValue. Pointers into the tree
-- are places in it: the model rebuilds the nodes above the one that a round changes. Tree/Static
-- says what a well-formed tree without wildcards is and which routes it holds, and Tree/Add what
-- addRoute does to it. addRoute runs on fuel: height + 2 rounds, since each round but two goes on
-- at a node further down; insertChild runs on length + 1 rounds, since each round reads one byte.
-- Tree/Wild is about first routes with wildcards. Tree/Fold is findCaseInsensitivePath with fpRec
-- and shiftNRuneBytes, by recursion on the node; package utf8 is in Text/Runes, and letter case
-- (strings.EqualFold, unicode.ToLower, unicode.ToUpper) is a parameter, with what is taken for
-- granted of it in Tree/Fold/Variant.
--
-- Router models core/router.go, with one tree for each method. Context models core/context.go:
-- handlers are lists of actions on the context, whose map of items may be nil, and Next runs on
-- fuel; for handlers that do not call Next, the number of handlers and one is enough.
-- Context/Serve is ServeHTTP with its pool; a node of a chain is `none` where Go has a nil
-- pointer, as Context/Interceptors, AddInterceptors, leaves them. Context/Onion gives chains whose
-- handlers call Next a meaning by recursion over the handlers: for these too, the number of
-- handlers and one is enough fuel, since the calls that are nested go on with handlers further
-- behind.
--
-- Blueprint models core/blue_print.go. Blueprint/Slice has Go's slices, with the arrays that they
-- share and the append that writes in place; how far the runtime grows an array is a parameter.
-- Blueprint/Store has the blueprints at addresses, and the search of a service through the
-- parents, on fuel: as many calls as there are ancestors are enough. Blueprint/Register has Use,
-- Handle, register, Include, ANY, Static and Bind; reflection shows the methods of a bound struct.
-- Blueprint/Handle says what one call of Handle leaves, Blueprint/Shares what a second one does to
-- the first where the middleware has room, and Blueprint/BindCalls gives Bind as calls of Handle.
-- Startup models Engine.init of core/engine.go, which reads the chains off the arrays and calls
-- Router.insert; it takes the methods in the order of a list, where Go takes any.
--
-- Request models what handlers read: the parameters of core/params.go, the caches of the query and
-- the form, the choice of a parser by content type (core/parser.go), and Data, which binds and
-- then validates; the binders are functions of the parser, and the services are at addresses.
-- Request/Bound has BindQuery to BindURI, on the binders of core/bind, and Request/Upload has
-- SaveUploadFile.
--
-- Bind models core/bind: Bind/Slot is a field with its type, Bind/Single the binding of texts to
-- one value, an array or a slice, Bind/File that of files, Bind/Form and Bind/Multipart the
-- binders of forms with defaults and bind methods. Bind/Runs describes the rounds of the loop over
-- the fields. encoding/json, floating-point numbers and times are parameters.
--
-- Response models core/render.go with Context.Render and the answers of core/context.go that call
-- it: a writer holds the headers, the status line as it was sent, and the body. Serializers and
-- the answers that net/http writes itself are parameters. Response/Written has Context.Write,
-- SetHeader and finish, and Response/Keys the canonical form of a header's key.
--
-- Storage models core/file.go: Save from one goroutine, its lock and its search of a free name,
-- which runs on fuel, since it need not end. The file system is a parameter.
--
-- Validators models core/validators: Field is a struct as reflection shows it, Compare the tests
-- isGt to isContains, Rules and Fields the rules, Tags the parsing of a tag and the run of its
-- rules, Library the registered names. Integers are those of the field's type; floating-point
-- numbers, regular expressions, dates and values of other kinds are parameters in the record
-- Platform, with no assumption on them. The pattern that finds a rule in a tag is written out as a
-- function.
--
-- Values models the conversions of core/valuse.go, one definition for the widths of a kind, with
-- the narrowing conversions of integers as wrap-around; Values/Numerals runs them on decimal
-- numerals. strconv.ParseFloat is a parameter.
--
-- Not modelled: compression, logging, the colours and the start of servers, which only call the
-- network, gzip or the terminal. Slices outside Blueprint and Startup are values. The methods of a
-- blueprint's map are a list, in any order. A panic inside a handler goes through start without
-- the write of the deferred finish.
pub mod Common
pub mod Outcome
pub mod Bind
pub mod Blueprint
pub mod Text
pub mod Tree
pub mod Context
pub mod Request
pub mod Response
pub mod Router
pub mod Startup
pub mod Storage
pub mod Validators
pub mod Values
