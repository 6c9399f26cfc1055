-- ===== src/Core.antt =====
-- Parts of `pdf/core`: the character classes of `symbols.go`, stream filters of `encoding.go`, the objects
-- of `primitives.go` and the parser of `parser.go`.
pub mod Symbols
pub mod Decoding
pub mod Dictionary
pub mod AsciiHex
pub mod Object
pub mod WriteString
pub mod Lexer
pub mod Parser
pub mod RunLength
pub mod Predictor
pub mod Ascii85
pub mod Tests
