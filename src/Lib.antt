-- ===== src/Lib.antt =====
-- cloud-init-rs initialises cloud instances on their first boots. A boot runs stages; a stage reads
-- what a datasource and the configuration files give, merges it to one cloud-config, and carries it
-- out by modules, each a sequence of commands and file writes. Marker files under the instance's
-- directory say what has been done, so that a module runs once for an instance or once at all; the
-- cached instance id says whether this is the instance of the boot before. Network configurations,
-- of version 2 or of the legacy version 1, are converted and rendered to the files of one of three
-- network managers.
--
-- Prelude, Result and Os are shared: texts as lists of code points, the errors of src/error.rs, and
-- the operating system as an interface, `Os`, with its behaviour in Os/Laws and an instance in
-- memory, Os/Memory, for the examples. An action that can fail is a function from the state of the
-- machine to a result and the state after it: what was done before an error stays done.
--
-- State: src/state. Paths is src/state/paths.rs (`CloudPaths`), with `std::path::Path::join` and
-- `parent` on texts. Semaphore is src/state/semaphore.rs (`SemaphoreManager`: `should_run`,
-- `mark_done`, `clear`, `clear_all`, `list`). Instance is src/state/mod.rs (`InstanceState`), all
-- of its operations.
-- Network: src/network. Types is the data of src/network/mod.rs. V1 is src/network/v1.rs:
-- `apply_subnets` and the `convert_…` functions in V1, the loop of `to_v2` in V1/Convert. Netmask
-- is `netmask_to_prefix` and the ENI renderer's `prefix_to_netmask`. Render is
-- src/network/render: one module for each renderer, and Apply for `apply_network_config`.
-- Config: src/config. Types is the data of src/config/mod.rs, Yaml the values of `serde_yaml`,
-- Merge is src/config/merge.rs, and Loader is src/config/loader.rs.
-- Modules: src/modules. Each module stands in the file of its name; where one runs commands, the
-- model runs the same commands with the same arguments, and what it does about their exit codes.
-- Stages: src/stages, with `run_stages` of src/lib.rs in Stages/Boot. LocalStage, NetworkStage,
-- ConfigStage and FinalStage are the files of the four stages; ConfigStage calls the modules. Steps
-- that only log do nothing.
-- Userdata: src/userdata. ContentType is src/userdata/types.rs, QuotedPrintable and Mime are
-- src/userdata/mime.rs, with `create_multipart` in Mime/Create. Process is src/userdata/mod.rs, and
-- Types is the data of src/lib.rs. Slices is what `str` does by byte positions: in Mime a panic is
-- `none`.
-- Datasources: src/datasources, one module for each file, Detect for `detect_datasource` of mod.rs.
-- Http is the client that the datasources send requests with, Dmi the loop over the DMI files, and
-- Content the reading of user-data that each of them repeats. Template is src/template/mod.rs, with
-- context.rs in Template/Context. CommandLine is src/main.rs.
--
-- The loops are structural recursion on the lists they go through. `parse_userdata` calls itself
-- on what it decodes: `parse_within` bounds the depth of these calls, 1 in `parse_userdata`,
-- which is enough since the call is never reached. Hash maps are lists of pairs: where the
-- program iterates over a `HashMap`, whose order Rust leaves open, the list's order is some
-- order, and a theorem over all lists is one over all orders. Files are told apart by their
-- paths: no link makes two of the program's paths one file. Octets add up modulo 2 ^ 8, and file
-- modes are below 2 ^ 32. Asynchronous calls are taken in program order, which is how every
-- function of these files awaits them, and logging is left out. A text is put in lower case
-- character by character: of Rust's rules the one for a final Greek sigma, which looks at a
-- character's neighbours, is not modelled.
--
-- Parsers and printers of YAML and JSON, base64, gzip, UTF-8, the random UUIDs and the Unicode case
-- tables, the HTTP client, the template engine and the parser of the command line are other crates':
-- parameters. Not modelled are logging, what the commands print, and time limits; the getters of a
-- field, the `Default` instances that call `new`, and the trait `Module` of src/modules/mod.rs, which
-- only tests implement, add nothing to what is modelled.
mod Prelude
pub mod Result
pub mod Os
pub mod State
pub mod Network
pub mod Config
pub mod Userdata
pub mod Datasources
pub mod Template
pub mod CommandLine
pub mod Modules
pub mod Stages
