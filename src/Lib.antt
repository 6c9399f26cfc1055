-- ===== src/Lib.antt =====
-- A verification library for unidoc, a library for PDF files in Go. It models parts of the
-- program that carry their own logic, each from its source, and proves what makes them correct.
--
-- The PostScript calculator (pdf/ps, and Type 4 functions of pdf/model/functions.go):
--   Ps/Object: the objects and errors of pdf/ps/object.go and const.go; Duplicate.
--   Ps/Stack: PSStack of pdf/ps/stack.go, listed from its top. A method is a function from the
--     stack to an outcome, which holds the stack also where the method fails.
--   Ps/Arith, Ps/Transcendental, Ps/Logic, Ps/Shuffle: the operators of pdf/ps/operations.go;
--     op_add is the method add, and so on. Arith/Laws, Logic/Laws and Shuffle/Roll prove facts
--     of these.
--   Ps/Exec: PSOperand.Exec and PSProgram.Exec of pdf/ps/object.go, if and ifelse of
--     operations.go, and PSExecutor of pdf/ps/exec.go. Programs call one another through
--     procedures on the stack, which is no structural recursion: exec takes fuel, a unit for
--     each level of nested calls of PSProgram.Exec. Exec/Fuel, Exec/Structured, Exec/Depth and
--     Exec/Endless prove what this means.
--   Ps/Parser: PSParser of pdf/ps/parser.go. A parser is the list of the bytes that its reader
--     has not returned; the loop of parseFunction takes fuel, one unit more than the text is
--     long, since each round reads a byte. Parser/Scan and Parser/Numbers are about its loops
--     and printed numbers, Parser/Words about Booleans and operands, Parser/Termination about
--     the fuel, Parser/RoundTrip about the texts of Ps/Printing, the String methods of
--     object.go, Parser/Unclosed about a missing brace.
--   Ps/Effect: a judgement on the stack effect of an operator with a rule for each primitive;
--     Effect/Arith and Effect/Logic apply it, Effect/Operators, Effect/Depth and Effect/Keeps
--     sum it up for all.
--   Ps/Function4: PdfFunctionType4.Evaluate, which keeps its executor; Function4/History is
--     about that.
--   Ps/Tests: runs and instances.
--
-- Objects and the parser of pdf/core (primitives.go, parser.go, symbols.go):
--   Core/Dictionary: PdfObjectDictionary, its keys and its map. Dictionary/Validity is about what
--     the operations keep, Dictionary/Entries about the list of entries that they stand for.
--   Core/Object: the direct objects; an array is a list of objects and a dictionary the list of
--     its entries, which Dictionary/Entries allows.
--   Core/WriteString: the methods WriteString. strconv.FormatFloat is a parameter.
--   Core/Lexer: the methods of PdfParser that read a token: skipSpaces, skipComments, parseName,
--     the loop of parseNumber, parseString, parseHexString. A parser is the list of the bytes that
--     are not read; a result is a value with what is left, an error, or a run-time panic. The
--     loops of parseName and parseString take fuel, one unit more than the text is long.
--   Core/Parser: parseObject, parseArray, ParseDict, parseReference, and the regular expressions
--     reReference and reNumeric as matchers. parse_object takes fuel, a unit for each object,
--     element and entry and for each level of nesting; Parser/RoundTrip says how much the text of
--     an object needs. Parser/Printable has the objects whose text can be read back, with
--     References, Numbers, Indirect, Rounds, Atoms and Containers for the steps of that proof;
--     Parser/NullKeys and Parser/Endless are about two branches that go wrong, Parser/Tails,
--     Lexer/Tails and Parser/Termination about the fuel that is enough.
--     strconv.ParseFloat is a parameter.
--   Dictionary/Tests, Parser/Tests: runs and instances.
--
-- Stream filters (pdf/core/encoding.go), with the character classes of pdf/core/symbols.go:
--   Core/AsciiHex, Core/RunLength, Core/Ascii85: DecodeBytes and EncodeBytes of ASCIIHexEncoder,
--     RunLengthEncoder and ASCII85Encoder, with children for their proofs. Core/Decoding has the
--     result of a decoder, Core/Tests runs and instances. A reader is the list of the bytes that
--     are not read. The outer loops of the run-length and ASCII85 decoders take fuel, one unit
--     more than the input is long: each round reads at least one byte.
--   Core/Predictor: FlateEncoder with the PNG and TIFF predictors and paeth of pdf/core/paeth.go;
--     the package zlib is a parameter. An unsigned byte is a number below 256 with % 256 written
--     out, and abs of a difference is the distance of two numbers. Predictor/Filters has the PNG
--     filters and Predictor/Tiff the TIFF predictor as their specifications describe them,
--     Predictor/Paeth is about paeth, Predictor/RoundTrip about EncodeBytes and DecodeStream,
--     Predictor/Tests has runs and instances.
--
-- Encryption (pdf/core/security, pdf/core/security/crypt, pdf/core/crypt.go):
--   Security/Result: what a function returns (a value, an error or a run-time panic) and slices of
--     bytes. The random source is the list of the bytes that it will give.
--   Security/Primitives: the hashes and ciphers of Go's crypto packages, a parameter, with what the
--     code relies on as the record IsSound: lengths, and that decryption undoes encryption.
--   Security/Dict: StdEncryptDict of handlers.go and Permissions of permissions.go. Security/Ecb:
--     ecb.go for blocks of 16 bytes.
--   Security/HandlerR4: stdHandlerR4 of standard_r4.go, a function for each of alg2 to alg7,
--     GenerateParams and Authenticate. HandlerR4/Rounds is about the loops of RC4 that alg3 and
--     alg7 run in opposite order, HandlerR4/Authentication about passwords.
--   Security/Hash: repeat and alg2b of standard_r6.go. The loop of alg2b takes fuel; 287 rounds
--     are enough, since the number of the round is compared as a byte (Hash/Rounds). The
--     loop of repeat takes one unit of fuel more than the buffer is long: the part that is
--     filled doubles (Hash/Repeat).
--   Security/HandlerR6: stdHandlerR6 of standard_r6.go, a function for each of alg8 to alg13 and
--     alg2a. HandlerR6/Keys is about the entries U and O and the hash as a function,
--     HandlerR6/Generation about alg8 to alg10, HandlerR6/Authentication about alg11 to alg13 and
--     alg2a, and HandlerR6/Roundtrip puts them together.
--   Security/CryptFilter: the filters of pdf/core/security/crypt. Numbers of objects are not
--     negative.
--   Security/Lookup, Security/PdfCrypt: Encrypt and Decrypt of crypt.go on a numbered object that
--     holds direct objects (Core/Object), with references for other objects, which a parameter
--     resolves; marks are lists of identities. What code does to an object in place is a new
--     object here, and after an error there is none. PdfCrypt/Shape is about what encryption
--     keeps, PdfCrypt/Direct about direct objects, PdfCrypt/Roundtrip about numbered ones.
--   Security/EncryptDict: the dictionary for encryption as encodeEncryptStd, decodeEncryptStd and
--     the functions for crypt filters write and read it. Security/Document: PdfCryptNewEncrypt,
--     PdfCryptNewDecrypt and authenticate; the identifier of a document
--     that is written is an argument, and the look-up of references with TraceToDirectObject
--     behind it is a parameter, which may fail or panic. A key length below 0, with which the code
--     goes on for version 4 or 5, is a panic where a key is cut to it. Document/Panic is about the run-time panic, Document/Opening puts all parts together.
--   Security/Tests: simple ciphers, runs and instances.
--
-- Shared: Prelude (lists, tests and integers over the native numbers), GoInt, Go's 64-bit int with
-- wrap-around, and Text, decimal numerals as strconv reads and fmt writes them. float64 and the
-- package math are a parameter: Ps/Object has the record Float64 of the operations that the
-- calculator uses, with no law. The parsers take strconv.ParseFloat, and the printers the
-- formatting of floats, as parameters.
--
-- Not modelled: logging, which has no effect on the results; DebugString, which only prints; the
-- reading of indirect objects, streams and cross-references and the other filters of pdf/core;
-- checks of access rights, and numbered objects inside others, in encryption;
-- pdf/model but for Type 4 functions; pdf/creator, pdf/extractor, pdf/annotator, pdf/fdf,
-- pdf/contentstream, and the image codecs of pdf/internal.
pub mod Prelude
pub mod GoInt
pub mod Text
pub mod Ps
pub mod Core
pub mod Security
