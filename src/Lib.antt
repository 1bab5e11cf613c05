-- ===== src/Lib.antt =====
-- The Micro BGP Suite: reading and writing BGP messages, path attributes and network prefixes.
--
-- src/ubgp/netaddr.h and src/ubgp/netaddr.c hold network prefixes: the comparison of addresses under
-- a mask, their size in bytes and the reserved blocks. NetAddr.antt has one definition for each
-- function, and the modules below it prove them against the bits of an address.
--
-- src/ubgp/bgpattribs.h and src/ubgp/bgpattribs.c read and build path attributes in a buffer.
-- Attr/Header.antt has the accessors and the setters of fixed fields, Attr/Build.antt the operations
-- that append; the other modules of Attr prove what an append does to the header, the length and the
-- payload.
--
-- src/ubgp/bgp.c is a message that is read or written field by field. Bgp/State.antt is its state
-- (`ubgp_msg_s`), the error that every operation checks first, and `bgpensure`. Bgp/Message.antt opens
-- and closes a message, Bgp/Fields.antt has the fields and how one is closed (`endpending`,
-- `bgpfinish`), Bgp/Write.antt the operations that enter and write a field, Bgp/Read.antt the
-- iterations over prefixes and attributes and the search for an attribute, Bgp/Path.antt, Bgp/Hops.antt
-- and Bgp/Communities.antt the iterations over AS paths, next hops and communities, Bgp/Lookup.antt the
-- lookups by name, Bgp/Open.antt the open message and its capabilities. An operation keeps the name of
-- its function. A call returns a value and the new state, or it is a fault where the code accesses
-- memory out of bounds or through a pointer to a block that `buf` has left. The fields use the prefixes
-- of NetAddr and the attributes of Attr.
--
-- src/ubgp/patriciatrie.c is a trie of prefixes. Trie/Store.antt has its nodes, pages and free list,
-- Trie/Insert.antt, Trie/Remove.antt and Trie/Search.antt the operations, over a store in which a
-- pointer is a number and NULL is 0; where `malloc` puts a page, and what a link stored over a prefix
-- leaves of it, are arguments. Trie/Shape.antt says what a well-formed trie is. Trie/Walk.antt has the
-- two tests that walk down both children of a node with a stack.
--
-- src/ubgp/filterpacket.c, filterpacket.h, filterintrin.c and filterintrin.h are a stack machine that
-- decides whether a BGP message passes a filter. Filter/State.antt is its state (`filter_vm_t`) and its
-- stack; a cell, which is a union, is the list of the stores into it, and what is read of a member that
-- was not stored last is an argument. Filter/Segments.antt has the code, the constants and the heap
-- that are filled before it runs, Filter/Opcodes.antt the opcodes, Filter/Basic.antt,
-- Filter/Access.antt, Filter/Packet.antt and Filter/Paths.antt the instructions, by the names of their
-- functions, Filter/Machine.antt the body of each opcode, and Filter/Loop.antt the loop of
-- `bgp_filter`, once with computed gotos and PREDICT and once in portable C. An instruction returns a
-- value and the new state, or it jumps to the handler that `setjmp` has set up, or it accesses memory
-- out of bounds. The machine reads its packet through the operations of Bgp and keeps its prefixes in
-- the tries of Trie. The modules Frame*, Safety, Dispatch, Exargs, Emit, Returns, PathMatch,
-- PathSearch, Answers, Open and Settling of Filter prove what it does; functions that the user adds to the table
-- are arguments, as is the allocator.
--
-- src/ubgp/u128.h and src/ubgp/u128.c are 128-bit integers. U128/Words.antt has those made of two
-- words, for compilers without a 128-bit type, and U128/Text.antt the conversions from and to text,
-- over the compiler's own type as numbers below 2^128; `isspace` of the C library is an argument.
--
-- Memory is a function from offsets to bytes, and a number in it stands in network order. A pointer
-- into the packet is its offset. The 16-bit counters `pktlen` and `offtab` and the 64-bit sizes keep
-- their wrap-around. The allocator (`malloc`, `realloc`) and the bytes that a read gives are
-- arguments of the operations.
--
-- Four loops run on fuel: the search for an attribute, which takes at least three bytes in each round
-- and has one unit more than the field has bytes, the search for a capability parameter, which takes
-- at least two bytes in each round after the first, and the loops over the segments of an AS path,
-- which take two bytes in each round and have one or two units more than the attribute has bytes.
-- `nextaspath` calls itself once at most, since the second call finds `ascount` at -1. The loop of
-- `u128tos` runs on the room in its buffer. The searches of the trie take their fuel as an argument and
-- answer nothing where it runs out; more than the number of bits of the prefix is enough in a
-- well-formed trie. The loop of the filter machine runs on fuel, of which one unit more than the code
-- has instructions is enough; the loops of its instructions over the prefixes or the ASes of a message
-- run on `rounds`, and its walks down a trie on `depth`, which are arguments.
--
-- Not modelled: the text conversions of attributes and addresses, the rebuilding of a message from an
-- MRT dump (`rebuildbgpfrommrt`), MRT records, the other walks of the trie that keep a stack, the
-- release of a filter machine's memory (`filter_destroy`), the long division of the two-word integers,
-- which calls a function that does not exist, and the bgpgrep command; src/ubgp/io.c, the dumps and
-- src/ubgp/vt100.c are input and output only. Of the iterators over next hops only the definitions are
-- here.
pub mod Base
pub mod Attr
pub mod Bgp
pub mod Filter
pub mod NetAddr
pub mod Trie
pub mod U128
pub mod Examples
