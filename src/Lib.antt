-- ===== src/Lib.antt =====
-- A verification library for the tools around a TC397 microcontroller: the resolver of variables in ELF
-- files and the graphical client that reads and writes them through the debug server.
--
-- The resolver, cpp/tc397_elfio_resolver.cpp, reads the DWARF sections of an ELF file. DwarfResolver scans
-- the unit headers, parses units into dies when it needs them, finds a variable, walks its members and
-- builds the index of all member paths, which is written as JSON. Where DWARF has no answer, the symbol
-- table is searched. The client, TasGui/src, reads the JSON index (elf_index.cpp), connects to the server
-- and transfers memory in chunks (das_client.cpp), and shows and takes values as text (value_codec.cpp).
--
-- Files and the code they model:
-- - Prelude: the shared vocabulary. Bytes are natural numbers in lists; Result holds a value, an exception,
--   `undefined` for undefined behaviour of C++, and `stuck` for a loop that is out of fuel. Stoull and
--   Decimal are std::stoull and std::to_string, Sort is std::sort on lists, Table is a map as a list.
-- - Reader: read_u16 to read_block_bytes of cpp/tc397_elfio_resolver.cpp. Reader.Fixed and Reader.Leb hold
--   what is proved of them.
-- - Expression: parse_uint and parse_expression.
-- - Dwarf: DwarfResolver. Dwarf.Data has its records and constants, Dwarf.Scan scan_cus, cu_containing and
--   the abbreviation tables, Dwarf.Forms read_attr, Dwarf.State the state of the class with parse_cu and
--   get_die, Dwarf.Types resolve_type, address_from_location and member_offset, Dwarf.Members
--   collect_member_paths, Dwarf.Build build_member_index, Dwarf.Resolve find_variable and resolve.
--   Dwarf.Table, Dwarf.Parse and Dwarf.Used are about the states of the resolver; Dwarf.Layout says what
--   the dies tell of a member, and Dwarf.Indexed, Dwarf.Located and Dwarf.Placed compare the index and
--   `resolve` with it. Dwarf.Frame and Dwarf.Grows are about parsing one more unit, Dwarf.Names about the
--   names that are remembered, Dwarf.Finite about the fuel for chains of qualifiers.
-- - Symbols: add_symbol_variables_to_index and resolve_symbol. Symbols.Matched says which symbols are
--   candidates for an expression and what a reference says of one, Symbols.Collected that the matches are
--   such references, Symbols.Least which of them is returned.
-- - Json: json_escape, to_json and to_member_index_json in Json.Writer; JsonScan, parse_entry and
--   ElfIndex::parse_index_json of TasGui/src/elf_index.cpp in Json.Scan and Json.Entries.
-- - Elf: the outer functions of cpp/tc397_elfio_resolver.cpp. Elf.Files has what lies outside, Elf.Reference
--   ResolverHandle, resolve_reference and write_member_index_json, Elf.Interface the functions tc397_elf_*,
--   Elf.Fresh compares resolve_reference with a handle.
--   Symbols.Added, Symbols.Listed and Elf.Sources are about where the items of the index come from.
-- - ElfIndex: ElfIndex::load and ElfIndex::resolve of TasGui/src/elf_index.cpp.
-- - Codec: the functions of TasGui/src/value_codec.cpp.
-- - Das: DasClient, describe_error and list_dap_devices of TasGui/src/das_client.cpp. Das.Memory and Das.Stores
--   say when a server gives access to a memory, Das.Ram is one; Das.Listed has the order of the devices.
-- - App: TasGui/src/main.cpp. App.State has the state, the log and the filter, App.Watch the watch list,
--   App.Actions what each button and field does, with the tasks and pump_async. App.Invariant has the states
--   that are reached by such actions in any order; a task runs in one step.
--
-- A method of a class is a function on the state of the class that returns a result and the new state; an
-- exception keeps what was changed before it. Numbers are natural numbers with the wrap of their width
-- written out. A loop over a buffer has the size of the buffer as its fuel: each of its rounds moves on by
-- a byte at least. The recursion of resolve_type has no bound in the source, so its fuel
-- is an argument: three more than the longest chain of typedefs and other qualifiers is enough.
--
-- Not modelled: what ELFIO reads from a file and the file system (the record Platform is a parameter), the
-- DAS API with the values of its constants and the process calls (the record DasApi), the files of /sys (the
-- record Usb), floating point in the codec (the record Floats), time, data races between a task and the
-- windows, and the drawing of main.cpp. The paths and expressions that the client hands to the C interface
-- hold no byte 0. The order of an unordered_map is not specified; `dies` of the model stands in one order.
pub mod Prelude
pub mod Reader
pub mod Expression
pub mod Dwarf
pub mod Symbols
pub mod Json
pub mod Elf
pub mod ElfIndex
pub mod Codec
pub mod Das
pub mod App
