-- ===== src/Lib.antt =====
-- Models of the programs of rules_elide, and what they guarantee. The repository's rules are
-- Starlark and run inside Bazel; of them, the choice and the wiring of an Elide release are here.
-- Its Python code drives and checks the rules: it speaks the protocol of the compiler workers,
-- measures edits of generated and of production sources, completes the SBOM of a release and guards
-- the workflows. Its Java code is a compiler worker. Each function of the code is a function here,
-- composed as the code composes them. An exception of Python and a failure of Starlark are values
-- of an error type, state is passed on.
--
-- Wire (benchmarks/pgo/gen_workrequest.py) has the protocol: `varint` and `read_varint` in
-- Wire/Varint, `field` and `fields` in Wire/Fields, `request` and `main` in Wire/Request,
-- `check_responses` in Wire/Response. UTF-8 encoding, SHA-256 and the files are the record `Host`,
-- a parameter of all that uses them. The loop of `varint` recurses on the order of the numbers, that
-- of `read_varint` on the ten shifts of its range; the loops over fields and responses have the
-- length of the input as fuel, which is enough since a round takes a byte at least, and where it
-- would not be they would end in an error of their own.
--
-- Worker (elide/private/ic_worker, in Java) is the incremental compile worker, the other end of the
-- protocol of Wire. Worker/Codec is the protobuf reader of WorkerProtocol.java: `Cursor` is the bytes
-- from its position on, a `long` its value modulo 2 ^ 64. A field has one more than twice the bytes
-- that are left as fuel, which is enough since a group and a field in it take a byte each, and a
-- message has its length. Worker/Messages has the writers, `read`, `WorkRequest` and `WorkResponse`,
-- over UTF-8 as the record `Utf8`; Messages/Interop and Messages/Reported put the two programs on one
-- stream. Worker/Signature and Worker/Incremental are `signature`, `compile` and `handle` of
-- IncrementalWorker.java. The state is the map of outputs, the directories that exist and whether the
-- compiler runs. Worker/Serve is the loop of `main` on a stream, and wants more fuel than there are
-- requests. SHA-256, Base64, paths, the name of a new directory and, for each call, the reply of the
-- compiler and whether the jar is written are parameters. Deleting and creating directories succeed.
-- The zip file of `pack`, `close` and the arguments of `main` are not modelled.
--
-- Partial (benchmarks/java_partial_compile.py) uses the protocol of Wire. Partial/Stream is
-- `compile_request`: a pipe is what has been sent and the output that is not read yet, and the worker
-- is a parameter. Partial/Merge is the merge of class files in `main` and its comparison with a
-- fresh compile. The compiler and its timing are not modelled.
--
-- Sbom (tools/sbom_enrich.py) has `parse_bazel_deps` in Sbom/Parse, with the pattern as a matcher
-- by hand, and `enrich` in Sbom/Enrich on the parts of an SPDX document that it reads or writes. The
-- search for declarations has the length of the text as fuel. Sbom/Command is `main`, over the files
-- as a dict from paths and with JSON as the record `Json`, a parameter.
--
-- Release/Semver (elide/private/versions.bzl) has `_parse_semver` and `select_version`, in which a
-- tuple that begins with -1 is `unparsed`; Release/Pins the tables of hashes, and Release/Urls the
-- rest of that file, with `str.format` by hand for named fields without a conversion.
-- Release/Extension (elide/extensions.bzl) has `_host_platform` and `_wire_use` in Use and
-- `_elide_impl` in Install: a run is the repositories and the hub that it declares, or its failure.
-- Letters are made small as ASCII. Release/Hub (elide/private/hub.bzl) has the toolchains of the hub
-- and its BUILD file, Release/Download (elide/private/download.bzl) what the two repository rules ask
-- of Bazel, in order.
--
-- Bench/Scenario has the scenarios, the dict of sources and the lookup by file name that the
-- benchmarks share. Bench/Edit is `replace_once` and `mutate` of benchmarks/commons_lang_fixture.py
-- and benchmarks/kotlin_builder_fixture.py, which are one function over a table each. Bench/Matrix is
-- `source`, `fixture` and `mutate` of benchmarks/incremental_matrix.py, and Bench/Profile the memory
-- counters of `profile_summary` there, over numbers with an order, which are parameters; the BUILD
-- files, the runs of Bazel and the report are not modelled.
--
-- Policy (tools/repository_policy_test.py) is `workflow_errors` on what it reads of a workflow; the
-- YAML loader is outside.
--
-- Deep (benchmarks/deepgraph/gen.py) is `gen_lang`: the modules with their sources and dependencies.
-- A negative `--layers` or `--width` is not modelled, nor are the BUILD files' texts.
--
-- Fixture (e2e/gen_fixture.py) is the files of `main`, with the sources of `_kotlin` and `_java`.
--
-- Prelude has what these share: tests and lists on native numbers, texts as lists of code points
-- with the operations of `str` that the code uses, dicts as lists of items, decimal numbers (their
-- fuel is the number itself), searching and replacing (their fuel is the length of the text), bit
-- operations and results. Numbers are natural numbers without a bound, as Python's integers are, and
-- none of the code modelled makes a negative one but the index of a failed `rfind`, which is written
-- out, and the -1 of `unparsed`.
--
-- Not modelled: the other rules and toolchains in Starlark (elide/rules, elide/toolchain.bzl,
-- elide/private/common.bzl and compile_common.bzl), the Kotlin worker (elide/kotlin/builder), the
-- scripts that run Bazel and inspect its outputs (e2e/, benchmarks/codspeed), shell scripts and
-- workflows.
pub mod Prelude
pub mod Wire
pub mod Worker
pub mod Partial
pub mod Sbom
pub mod Bench
pub mod Policy
pub mod Release
pub mod Deep
pub mod Fixture
