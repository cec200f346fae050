-- ===== src/Lib.antt =====
-- thriftgo: a compiler for Thrift IDL files that generates Go code, and the runtime packages that
-- the generated code uses. A file is parsed into an AST, the AST is checked and its symbols are
-- resolved, and the generators turn it into text, in which pkg/namespace keeps the names apart.
-- Programs with generated code keep the fields that they do not know by
-- generator/golang/extension/unknown, look up the types of their IDL by thrift_reflection, and say
-- by a fieldmask which fields of a value they want. Modelled are these four packages, the checks and
-- the layout of structs.
--
-- Prelude: numbers and lists, Go's integers (Prelude.Ints), equality and distinct names
-- (Prelude.Names). Go: what a call in Go comes to, a value, an error, a panic or, for a loop on
-- fuel, no answer (Go.Outcome); calls that act on a state (Go.Exec) and that end (Go.Ends).
--
-- Unknown is generator/golang/extension/unknown.
--   Unknown.Types: the type ids of compatible.go and the errors.
--   Unknown.Binary: binary.go. A slice is its bytes and those up to its capacity; a `Write...` method
--   maps a buffer to a count and a buffer, a `Read...` method a slice to a value and a count. An
--   index out of range is a panic.
--   Unknown.Protocol: the third party's protocol, a parameter: any methods that act on any state.
--   Unknown.Write: `write` and `Fields.Write` of unknown.go. Unknown.Read: `read`, `ensureBytesLen`
--   and `Fields.Append`. The buffer, the offset and the protocol are the state that is passed on.
--   Unknown.Value: Thrift values, their encoding and the calls that hand them over, with which the
--   code is compared.
-- Fuel: `write` and the loop of `Fields.Write` recurse on fuel, which the number of the bytes bounds,
-- since each nested value takes a byte. In `read` the nesting is bounded by the source's own limit,
-- and the fuel is for the fields of one struct.
--
-- Semantic is semantic/checker.go with the types of parser/AST.go that it looks at. A check maps a
-- file to warnings and an error, and to the file with its repairs. The maps of the source, which
-- only grow, are lists of their keys. Semantic.Lookup: the searches of parser/AST-extend.go.
--
-- Namespace is pkg/namespace: the two maps of a namespace (Namespace.Maps: a map is its list of
-- entries, the last one set first), and the operations on them. The search of Add for a free name
-- recurses on fuel; the names it tries differ, so that the entries of the map bound the rounds
-- (Namespace.Search). Iterate, whose order Go leaves open, and NumberSuffix are left out.
--
-- Align is generator/golang/align.go, where the Go generator estimates the size of a struct. The
-- machine has 64 bits; sort.Slice and NeedRedirect are parameters. The size is compared with a layout
-- of the fields (Align.Layout), and reorderFields with the sizes of both orders (Align.Reorder).
--
-- Reflection is thrift_reflection: the descriptors of descriptor.go (Reflection.Descriptors), and the
-- lookups of descriptor-extend.go and descriptor_lookup.go in one file (Reflection.Files; what a name
-- means there is told by Reflection.Files.Meaning), from a type
-- (Reflection.Types), of the methods of a service (Reflection.Services), over all files
-- (Reflection.Global) and of the structs that a struct includes (Reflection.Included).
-- Reflection.Alias: the names of utils/name_utils.go. The pointers in the lists of a file are not nil;
-- a struct carries its address, by which a map of Go knows it; the registry is a value, the world.
-- Fuel: getDescriptor recurses at most twice, the search for included structs as often as there are
-- structs in the registry. GetAllMethods has no bound: a service may be its own parent.
--
-- FieldMask is fieldmask: the tokens of path.go (FieldMask.Path), the masks of storage.go
-- (FieldMask.Storage) with what they answer (FieldMask.Query), the types of utils.go
-- (FieldMask.Types), the adding of paths in mask.go (FieldMask.Pick, FieldMask.Build), and TransferFrom
-- of serdes.go (FieldMask.Transfer), where json.Unmarshal of a key is a parameter. A mask is a
-- tree: a child is taken out, changed and put back where the code changes it through its pointer; on
-- an error the tree is lost, as NewFieldMask drops it. strconv.Unquote is a parameter. Fuel: the bytes
-- of the path bound the rounds of addPath; the typedefs on the way to a type have a fuel of their own,
-- since typedefs may refer to each other in a circle.
--
-- Not modelled: the reflection by which compatible.go reaches the protocol, and the types of Go in
-- thrift_reflection; the registration of descriptors; the bits of floating point numbers, which stand
-- as a word of 64 bits; the texts of the messages beyond their first words; GetPath, ForEachChild and
-- the JSON text of field masks; the parser, which is generated; the generators, which fill text
-- templates; the trimmer and the resolution of symbols.
pub mod Prelude
pub mod Go
pub mod Unknown
pub mod Semantic
pub mod Namespace
pub mod Align
pub mod Reflection
pub mod FieldMask
