-- ===== src/Lib.antt =====
-- Everett, a header-only store of sorted runs (include/everett): what its components promise,
-- proved of models that follow the headers.
--
-- The parts. A nursery map (Nursery) collects edits in a transient AVL tree and freezes it into
-- a snapshot in constant time; runs are merged in the background, and a finished merge replaces
-- its inputs through the publication protocol (Publication), whose backend reports what is
-- durable; the objects that a world needs are held by pin sets (Pins), whose signatures are sums
-- in an algebra of fingerprints (Fingerprint); and the builders of the runs charge what they
-- retain against one allowance (Budget). Inside the runs, keys of fixed width are found by a
-- branchless search (FixedSearch), and bit vectors are counted through a directory (Rank), as
-- are classes of groups of 15 (Rank15). Keys and values are bit strings (BitString), written and
-- read by the codecs of their sorts (SortCodec), on whose order the runs rely.
--
-- Which file models which:
-- - Base (with Base.Tests, Base.Lists, Base.Errors): shared names, Boolean tests, 64-bit
--   arithmetic, lists by number, exceptions as results. Exception messages are not modelled, only
--   their kinds.
-- - Nursery: include/everett/nursery_map.h. Nursery.antt has the nodes and one definition per
--   member function on them (editable, rotate_left, rotate_right, rebalance, insert, remove_first,
--   remove, find_in, visit_in as entries); Nursery.Map has the map itself (begin_edit,
--   insert_or_assign, erase, find, size, for_each, freeze, thaw). A node is a value with the token
--   of the edit that made it, and pointers are not modelled: a node is shared where it has an
--   older token, and `editable` copies it. Tokens are drawn from a rising supply, an argument, in
--   place of fresh addresses. An exception inside an edit is an argument too: it comes at the new
--   token, before anything has changed (the source makes a token only where none is open), or
--   later, with the root and the counters that the edit has reached. A comparator is an instance
--   with the laws of a strict weak order. Nursery.Entries, Sorted, Laws and Refinement relate
--   trees and lists; Balance, Balance.Edits and Size are about heights; Sharing and its children
--   about tokens; Map.Laws, Map.History, Map.Tokens and Map.Sessions about the map.
-- - Publication: include/everett/durability.h. Publication.Checkpoint has the checkpoints, their
--   operator== and validate_checkpoint; Publication.antt has the state and the operations of
--   merge_publication, whose errors are results. Protocol and Recovery run arbitrary sequences of
--   calls; a call that raises leaves the state, as the code does. Log has the calls of such a
--   sequence that did not throw, and Reuse what it says of names and checkpoints; Rescue is about
--   giving a merge up and starting it again.
-- - Budget: include/everett/output_budget.h. Each atomic access is a step of its own; a
--   compare_exchange_weak may fail spuriously; a step relation runs any number of threads, and
--   acquire_loop is the loop of a thread that is alone, on a list of the exchanges that fail.
--   Additions and subtractions wrap at 64 bits, as on the source's std::size_t.
-- - Fingerprint: include/everett/fingerprint.h, and Pins: include/everett/pins.h. The algebra is
--   an interface (Algebra, with the laws IsRing), and wrapping_fingerprint_algebra is one. A pin
--   is an optional object: null or not.
-- - FixedSearch: include/everett/fixed_search.h, on the scalar architecture. The loops of the
--   binary search run over the exponents of `step`; the searches are definitions on the test of an
--   ordinal, which below_query makes of a view and a query. Order says how keys compare;
--   Partition, Binary and Pivots find the point where the test falls; Bounds puts them together;
--   Subviews is about views.
-- - Width: std::bit_width and std::has_single_bit.
-- - Registry: include/everett/registry.h, the registries and the dispatch, over any reader;
--   Registry.Paths has the codes.
-- - BitString: include/everett/profile.h, its bit strings, comparison and codes of counts, with
--   key_detail.h, on the scalar architecture. A bit string or view is the list of its bits, so
--   load_bits, store_bits and copy_bits are operations on lists; Packed has load_bits on the bytes
--   themselves, and PackedLoads relates the two; positions are numbers, and a reader returns the
--   position behind what it read, but not the one behind an exception. Plain is the reader that
--   takes bit after bit, Order the comparison bit by bit, Codewords the codes. A template code is
--   a BackspaceCode.
-- - SortCodec: include/everett/sort_codec.h. SortCodec.antt has the writer and the reader, whose
--   reservoir is the list of its valid bits; Codecs has the codecs of values and the ordered
--   codes, FrontCoding the keys that are coded after another one, KeyCodecs the codecs of keys,
--   Records the codes of sorts with the writer and the reader of records. A sort is a number, and
--   the types and codecs of a sort are families over the numbers. Reservoir says what a reader has
--   left, Codes how writers and readers compose, and RoundTrips, KeyRoundTrips and KeyOrders are
--   what a client of a codec may rely on; Schema collects them for the records. A visitor is the
--   value that it is called with; after an exception only the flag of the reader is kept. A
--   bitwise or of fields that share no bit is a sum.
-- - Rank: include/everett/rank.h, on the scalar architecture: the directory of blocks, the
--   builder, ranks and counts. Bits relates words to the bits of the vector, Tail the counts of a
--   block to its runs, Build has the invariant of the builder, Clear the unused bits, Queries the
--   results.
-- - Rank15: include/everett/rank15.h, on the scalar architecture: populations of groups of 15
--   packed into words. Lanes and Horizontal have the sums in the fields of a word, Packing and
--   Building the builder, Limits the bounds of its source, Prefixes the queries. At most eight
--   words are added, and eight times twice 15 fits in a byte, so the sums of pairs are written
--   without a wrap.
--
-- Bounds and fuel. bit_width (Width) runs on fuel for 64 bits, which is enough for every count
-- of keys in a view of fewer than 2 ^ 63 bytes (binary_bound_lem asks for no more). The loops of
-- BitString and SortCodec that skip a run of zeros, compare words or read an ordered key run on
-- as many rounds as there are bits or bytes, and each but the last takes one at least. visit_all
-- makes the number of calls of `next` that it is given, one more than there are records in its
-- result. No other definition uses fuel: all loops are recursion on trees, lists and counts.
-- Sizes and counters that the source keeps in machine words and the height of a nursery tree are
-- numbers, with the wrap written out where the source can reach it (Budget, Fingerprint, the
-- multiplications of run_prefix and sum_bytes, and the overflow tests of sealed_bytes and of the
-- rank builder).
--
-- Not modelled: files, mappings, SQLite, vector kernels and checksums, which are system calls
-- and intrinsics; pointers and reference counts, which the values of the model share silently;
-- exceptions of allocators outside the nursery's edits; and the memory orders of atomics, since
-- each object here has one atomic variable with one history.
pub mod Base
pub mod BitString
pub mod Budget
pub mod Fingerprint
pub mod FixedSearch
pub mod Nursery
pub mod Pins
pub mod Publication
pub mod Rank
pub mod Rank15
pub mod Registry
pub mod SortCodec
pub mod Width
