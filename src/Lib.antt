-- ===== src/Lib.antt =====
-- The crate data-buffer, a library of buffers whose element type is known only at run time: the
-- program's text is src/*.rs of the repository.
--
-- The parts of the program, from below:
--
-- src/bytes.rs casts between a value and its bytes (file Bytes). A Rust type is a `Repr`: its
-- TypeId, its size, and the bytes of each of its values; reading the bytes of a value gives the
-- value, and reading bytes that represent none is undefined behaviour. The casts of Rc and Arc,
-- which keep the pointer, are in Bytes/Counted. `RefMut` is a mutable borrow: the value, and the
-- owner after a write.
--
-- src/lib.rs is `VecCopy`, a buffer of plain data (file VecCopy): the bytes, with their capacity,
-- the element size and the TypeId. VecCopy/Build has the constructors, VecCopy/Access the typed
-- reads and mutable borrows, VecCopy/Update `push`, `resize`, `fill` and `copy_from_slice`,
-- VecCopy/Convert the conversions to vectors, VecCopy/Cast `cast_into_vec`, VecCopy/Display
-- `Display`, VecCopy/Equality the derived `==` and `Hash`, VecCopy/Serde what is written and read
-- of a buffer under the feature serde, and VecCopy/Values the interface without types. A
-- definition has the name of the method; the field `data` is `items`. An operation through `&mut
-- self` takes the buffer and returns it after the call. VecCopy/Holds says when a buffer holds a
-- sequence of typed values, which is what a buffer promises; the laws say what each operation does
-- to that sequence.
--
-- src/value.rs has the references and boxes of values whose type is known at run time (files
-- Value, Value/Copy for plain data, Value/Boxed, Value/Shared and Value/Exclusive for `BoxValue`,
-- `ValueRef` and `ValueMut`, Value/Small for the values that any owner of bytes carries, as a word
-- is one). src/traits.rs gives every type functions over bytes for its traits (file Traits);
-- `build_vtable` puts them into a table, which is what the macro of dyn-derive/src/lib.rs
-- generates. The implementations that a type has of the traits are the parameter `Impls`: a clone
-- or a drop maps a world to a world, and nothing is assumed of either. A theorem over all worlds
-- says which clones and drops happen, how often and in which order.
--
-- src/vec_dyn.rs is `VecDyn`, a VecCopy with such a table (files VecDyn, VecDyn/Build,
-- VecDyn/Typed); its field `data` is `elements`. src/vec_clone.rs is `VecClone`, which carries the
-- functions for clone and drop alone (files VecClone, VecClone/Typed, VecClone/Equality), and
-- src/clone_value.rs the values that go with it (file CloneValue; CloneValue/RcValue and
-- CloneValue/ArcValue, over a heap of counted pointers, that of Std/Rc, where what a drop of the
-- contents does to other counts is part of the world). The loops of both over elements are in the
-- file Elements.
--
-- dyn-derive/src/lib.rs has the macros of the package dyn-derive (files under DynDerive), which
-- generate the tables. They are functions from syntax to syntax: DynDerive/Syntax has the trees
-- that the package syn makes of types, where a part that is only copied is its text.
-- DynDerive/Config is the argument of `dyn_trait`, DynDerive/KnownTraits and DynDerive/Items what
-- it generates for a trait, and DynDerive/Functions the functions in it, at a type; what is in the
-- table is `build_vtable` of Traits. DynDerive/Signature, DynDerive/Generics and
-- DynDerive/SelfType are `dyn_trait_method`, which turns the signature of a method into one over
-- bytes. What syn parses, and which texts are identifiers, are parameters; `ParsesTypes` says what
-- is assumed of the former. What is quoted in the source to be parsed is a constructor of
-- `Quoted`. A failed assertion, `unwrap` or `expect` is a panic.
--
-- How calls end: an `Outcome` is a value, a panic, or undefined behaviour; the latter two end the
-- caller too. `None` is a value. An `Eff` is a call that also changes the world. A result that is
-- `Option<&mut Self>` is the buffer and a Boolean. What follows a panic while a call unwinds is
-- not described.
--
-- examples/cache.rs is a program that uses the library (file Cache): `main`, which draws seeds
-- from a generator and fills buffers with values computed from them, in one block directly and in
-- the other by clones of values that a table keeps. The generator of the package rand and the
-- types `Rc<[u128; 3]>`, `String` and `Rc<String>` are parameters; the table is the list of its
-- entries.
--
-- The implementations of `From` and `Into` of the three buffers are in the file Conversions.
--
-- VecDyn/Laws/Calls has sequences of calls of a `VecDyn`, and the list of values that they stand
-- for; VecClone/Laws/Calls has those of a `VecClone`.
--
-- Outside the program: Std has the parts of the standard library that the program uses, vectors
-- with length and capacity, slices, counted pointers without weak ones, and `usize`, which has 64
-- bits. A sum or product that does not fit panics in a build with overflow checks and wraps in one
-- without: the parameter `Platform` says which build, and how a vector's capacity grows, which has
-- to be enough and at most `isize::MAX` bytes. `Reinterpret` and `ReinterpretMut` stand for the
-- package reinterpret: at the memory of a sequence of values, it gives the values. `Numbers`
-- stands for the numeric types of the language and the casts of the package num-traits; the
-- dispatch of src/macros.rs on a numeric type is in the file Macros. `Transmute` is the one
-- between a `TypeId` and a `u64`. Where a function of the program is, which a hash looks at, is
-- the parameter `Addresses`. No function needs fuel: each loop is structural.
--
-- Not described: addresses and alignment, freeing of memory but that behind counted pointers,
-- padding bytes (a representation has fixed bytes), the hash of a `VecDyn`, which takes that of
-- its table, the `Debug` of buffers and values, and the formats of serde. Of
-- dyn-derive/src/lib.rs, spans and the text of the generated items, which are given as trees.
pub mod Common
pub mod Std
pub mod Bytes
pub mod Value
pub mod VecCopy
pub mod Traits
pub mod Elements
pub mod VecDyn
pub mod CloneValue
pub mod VecClone
pub mod Macros
pub mod DynDerive
pub mod Conversions
pub mod Cache
pub mod Tests
