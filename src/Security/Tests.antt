-- ===== src/Security/Tests.antt =====
-- Runs of `pdf/core/security` and `pdf/core/crypt.go` with simple ciphers, and examples of the theorems.
use unidoc.Prelude.{
  ◌&&◌, ℕ, ◌+◌, ◌-◌, ◌%◌, ◌≡◌, refl, ◌∙◌, Bool, true, false, [], ◌∷◌, ◌++◌, Option, none, some, map,
  length, length-map, length-replicate, get_or, replicate, bytes_eq, codes, ◌==◌, if◌then◌else◌,
  arith,
}
use unidoc.Prelude.Int.{ℤ, pos, negsuc}
use unidoc.Core.Decoding.{Bytes}
use unidoc.Core.Object.{
  PdfObject, null, integer, text, name, array, nil, cons, Entries, empty, entry, set_entry,
}
use unidoc.Security.Result.{Result, ok, panic, ◌>>=◌, prefix, slice, read_random}
use unidoc.Security.Primitives.{Primitives, IsSound, rc4_crypt}
use unidoc.Security.Dict.{StdEncryptDict, check_at_least}
use unidoc.Security.HandlerR4.{
  StdHandlerR4, padded_pass, md5_rounds, hash_rounds, alg2_data, alg2, alg3_key, up_rounds, alg3,
  alg4, alg5, generated_u, alg6, down_rounds, decrypted_o, alg7, generate_params, authenticate,
  owner_of,
}
use unidoc.Security.HandlerR4.Authentication.{generate_params-Authenticates}
use unidoc.Security.HandlerR4
use unidoc.Security.HandlerR6
use unidoc.Security.Hash.{alg2b, alg2b_r6}
use unidoc.Security.Hash.Rounds.{IsHash, alg2b_r6-IsHash}
use unidoc.Security.HandlerR6.{alg11, alg12, alg2a, as_user, file_key}
use unidoc.Security.HandlerR6.Roundtrip.{generate_params-Authenticates6}
use unidoc.Security.CryptFilter.{
  Filter, identity, v2, aesv2, aesv3, new_filter_v2, make_key, encrypt_bytes,
}
use unidoc.Security.CryptFilter.Roundtrip.{Restores, IsKey, Fits, make_key-Restores}
use unidoc.Security.Lookup.{PdfCrypt, Numbered, stream, std_crypt_filter}
use unidoc.Security.PdfCrypt.{encrypt}
use unidoc.Security.PdfCrypt.Direct.{IsReady}
use unidoc.Security.EncryptDict.{encode_encrypt_std, decode_encrypt_std, exact_string}
use unidoc.Security.Document
use unidoc.Security.Document.{new_encrypt, trailer_id, new_decrypt, new_crypt_filters_v2}
use unidoc.Security.Document.{is_standard, length_or_40}
use unidoc.Security.Document.Panic.{panics, is_fatal, new_decrypt-panics}
use unidoc.Security.Lookup.{get_entry}
use unidoc.Security.Document.Opening.{Opens, new_encrypt-Opens}
use unidoc.Security.PdfCrypt.Roundtrip.{Undone, encrypt-Undone}

-- Hashes that tell lengths, and ciphers that change each byte.
abbrev digest : ℕ → Bytes → Bytes
digest n d = replicate n (length d % 256)

-- The byte that a key adds.
abbrev step : Bytes → ℕ
step k = get_or k 0 0

abbrev up : Bytes → ℕ → ℕ
up k x = x + step k

abbrev down : Bytes → ℕ → ℕ
down k x = x - step k

abbrev flip : ℕ → ℕ
flip x = if x % 2 == 0 then x + 1 else x - 1

abbrev toy : Primitives
toy = record {
  md5 = digest 16;
  sha256 = digest 32;
  sha384 = digest 48;
  sha512 = digest 64;
  rc4 = λ k d. map flip d;
  cbc_encrypt = λ k iv d. map (up k) d;
  cbc_decrypt = λ k iv d. map (down k) d;
  block_encrypt = λ k d. map (up k) d;
  block_decrypt = λ k d. map (down k) d;
}

flip-flip : (x : ℕ) → flip (flip x) ≡ x
flip-flip x = ground arith

flipped_twice : (d : Bytes) → map flip (map flip d) ≡ d
flipped_twice [] = refl
flipped_twice (x ∷ d) = rw (flip-flip x, flipped_twice d) refl

down_after_up : (k d : Bytes) → map (down k) (map (up k) d) ≡ d
down_after_up k [] = refl
down_after_up k (x ∷ d) =
    let e : x + step k - step k ≡ x = omega arith in rw (e, down_after_up k d) refl

toy-IsSound : IsSound toy
toy-IsSound = record {
  md5_length = λ d. length-replicate 16 (length d % 256);
  sha256_length = λ d. length-replicate 32 (length d % 256);
  sha384_length = λ d. length-replicate 48 (length d % 256);
  sha512_length = λ d. length-replicate 64 (length d % 256);
  rc4_length = λ k d. length-map d flip;
  rc4_twice = λ k d. flipped_twice d;
  cbc_length = λ k iv d. length-map d (up k);
  cbc_inverse = λ k iv d h. down_after_up k d;
  block_length = λ k d h. length-map d (up k) ∙ h;
  block_inverse = λ k d h. down_after_up k d;
}

abbrev handler : StdHandlerR4
handler = record { key_length = 128; id0 = codes "id" }

abbrev dict_of : ℕ → StdEncryptDict
dict_of n = record {
  r = n;
  p = 2048;
  encrypt_metadata = true;
  o = [];
  u = [];
  oe = [];
  ue = [];
  perms = [];
}

abbrev random_bytes : Bytes
random_bytes = replicate 80 7

generate_params-Authenticates_example :
    HandlerR4.Authentication.Authenticates toy handler
      (owner_of (codes "own") (codes "use"))
      (codes "use")
      random_bytes
      (generate_params toy handler (dict_of 3) (codes "own") (codes "use") random_bytes)
generate_params-Authenticates_example =
    generate_params-Authenticates toy toy-IsSound handler (omega arith) (omega arith) (dict_of 3)
      (codes "own") (codes "use") random_bytes random_bytes (omega arith) (omega arith)
      (omega arith)

generate_params-Authenticates6_example :
    HandlerR6.Roundtrip.Authenticates toy
      (codes "own")
      (codes "use")
      2048
      (HandlerR6.generate_params toy (dict_of 6) (codes "own") (codes "use") random_bytes)
generate_params-Authenticates6_example =
    generate_params-Authenticates6 toy toy-IsSound (dict_of 6) (codes "own") (codes "use")
      random_bytes (omega arith) (omega arith)

alg2b_r6-IsHash_example : IsHash (alg2b_r6 toy (codes "use12345678") (codes "use") [])
alg2b_r6-IsHash_example =
    alg2b_r6-IsHash toy toy-IsSound (codes "use12345678") (codes "use") [] (omega arith)
      (omega arith)

-- A document of revision 5 whose user password is empty.
abbrev open_dict : StdEncryptDict
open_dict = record {
  r = 5;
  p = 2048;
  encrypt_metadata = true;
  o = replicate 48 0;
  u = digest 32 (replicate 8 7) ++ replicate 16 7;
  oe = replicate 32 1;
  ue = replicate 32 50;
  perms = [];
}

-- A wrong password is accepted, with another key of the file than that of the empty password.
wrong_password : alg2a toy open_dict (codes "x") ≡ ok (some (replicate 32 41), 2048)
unfolding alg2a alg11 alg12 alg2b as_user file_key check_at_least slice prefix
wrong_password = refl

empty_password : alg2a toy open_dict [] ≡ ok (some (replicate 32 42), 2048)
unfolding alg2a alg11 alg12 alg2b as_user file_key check_at_least slice prefix
empty_password = refl

make_key-Restores_example :
    IsKey toy toy-IsSound
      (λ okey.
        Restores toy toy-IsSound aesv2
          (codes "text")
          okey
          random_bytes
          (encrypt_bytes toy aesv2 (codes "text") okey random_bytes))
      (make_key toy aesv2 7 0 (replicate 16 3))
make_key-Restores_example =
    make_key-Restores toy toy-IsSound aesv2 7 0 (replicate 16 3) (codes "text") random_bytes
      (omega arith) (omega arith)

-- AES with a key of 128 bits for the filter with the standard name.
abbrev aes_crypt : PdfCrypt
aes_crypt = record {
  v = 4;
  r = 4;
  encryption_key = replicate 16 3;
  crypt_filters = λ s. if bytes_eq s std_crypt_filter then some aesv2 else none;
  stream_filter = std_crypt_filter;
  string_filter = std_crypt_filter;
}

aes_crypt-IsReady : IsReady toy toy-IsSound aes_crypt
aes_crypt-IsReady = record {
  fits = λ s f e. fit f;
  string_crypt = aesv2;
  string_known = refl;
  stream_crypt = aesv2;
  stream_known = refl;
}
  where
    fit : (f : Filter) → Fits toy toy-IsSound f aes_crypt.encryption_key
    fit identity = tt
    fit (v2 n) = tt
    fit aesv2 = omega arith
    fit aesv3 = refl

abbrev no_object : ℤ → ℤ → PdfObject ℕ
no_object a b = null

-- A lookup of references that always gives the null object.
abbrev null_object : ℤ → ℤ → Result (PdfObject ℕ)
null_object a b = ok null

-- The identifiers of a document in its trailer.
abbrev trailer_of : Bytes → Entries ℕ
trailer_of id0 = entry (codes "ID") (array (cons (text id0 true) (cons (text id0 true) nil))) empty

trailer_of-trailer_id : trailer_id null_object (trailer_of (codes "id")) ≡ ok (codes "id")
unfolding trailer_id
trailer_of-trailer_id = refl

abbrev content : Numbered ℕ
content =
    stream 7 0
      (entry (codes "Length") (integer (pos 4))
        (entry (codes "Title") (text (codes "hi") false) empty))
      (codes "q Q ")

encrypt-Undone_example :
    Undone aes_crypt no_object toy toy-IsSound aes_crypt-IsReady [] [] 1 content
      (encrypt toy aes_crypt no_object [] 1 content random_bytes)
encrypt-Undone_example =
    encrypt-Undone aes_crypt no_object toy toy-IsSound aes_crypt-IsReady [] [] [] 1 content
      random_bytes refl refl refl (omega arith)

-- What `Authenticate` gives for the password of the user, after `GenerateParams` for a revision.
abbrev login : ℕ → Result (Option Bytes × ℕ × Bytes)
login r =
    generate_params toy handler (dict_of r) (codes "own") (codes "use") (replicate 16 7)
    >>= λ (d, ekey, left). authenticate toy handler d (codes "use") (replicate 32 7)

-- For revision 2 the entry `U` is made by `alg5` and compared with that of `alg4`.
abbrev is_refused : Result (Option Bytes × ℕ × Bytes) → Bool
is_refused (ok (none, p, left)) = true
is_refused _ = false

login_2 : is_refused (login 2) ≡ true
unfolding generate_params authenticate alg3 alg3_key padded_pass md5_rounds rc4_crypt up_rounds alg2
    alg2_data alg5 alg4 generated_u alg6 alg7 decrypted_o prefix read_random
login_2 = refl

new_encrypt-Opens_example :
    Opens toy null_object aesv3
      (trailer_of (codes "id"))
      (codes "own")
      random_bytes
      (new_encrypt toy aesv3 (codes "use") (codes "own") 2048 (codes "id") random_bytes)
new_encrypt-Opens_example =
    new_encrypt-Opens toy null_object toy-IsSound 2048 (omega arith) (codes "id") (codes "own")
      (codes "use") random_bytes random_bytes (trailer_of (codes "id")) trailer_of-trailer_id aesv3
      tt (omega arith) (omega arith)

-- A dictionary for RC4 with a key of n bits.
abbrev rc4_dict : ℕ → Entries ℕ
rc4_dict n =
    entry (codes "Filter") (name (codes "Standard"))
      (entry (codes "V") (integer (pos 2)) (entry (codes "Length") (integer (pos n)) empty))

open_48 : new_decrypt null_object (rc4_dict 48) empty ≡ panic
unfolding new_decrypt new_crypt_filters_v2 new_filter_v2
open_48 = refl

new_decrypt-panics_example : panics (new_decrypt null_object (rc4_dict 48) empty) ≡ (
    is_standard null_object (get_entry (codes "Filter") (rc4_dict 48))
    && is_fatal
        (length_or_40 null_object (get_entry (codes "Length") (rc4_dict 48)))
        (get_entry (codes "V") (rc4_dict 48)))
new_decrypt-panics_example = new_decrypt-panics null_object (λ a b. refl) (rc4_dict 48) empty

-- A key length below 0 is read, and a panic when a password is tried.
abbrev negative_dict : Entries ℕ
negative_dict = entry (codes "Filter") (name (codes "Standard")) (
    entry (codes "Length") (integer (negsuc 39)) (
      entry (codes "R") (integer (pos 3)) (
        entry (codes "O") (text (replicate 32 0) false) (
          entry (codes "U") (text (replicate 32 0) false)
            (entry (codes "P") (integer (pos 0)) empty)))))

open_negative :
    (new_decrypt null_object negative_dict empty >>= λ c.
    Document.authenticate toy c [] (replicate 32 7))
    ≡ panic
unfolding new_decrypt trailer_id decode_encrypt_std exact_string Document.authenticate
open_negative = refl

-- The flag for metadata is not written for revision 4.
abbrev flag_after : Result StdEncryptDict → Bool
flag_after (ok d) = d.encrypt_metadata
flag_after _ = false

abbrev no_metadata : StdEncryptDict
no_metadata = record (dict_of 4) {
  encrypt_metadata = false;
  o = replicate 32 0;
  u = replicate 32 0;
}

metadata_4 : flag_after (decode_encrypt_std (encode_encrypt_std {F = ℕ} no_metadata empty)) ≡ true
unfolding decode_encrypt_std encode_encrypt_std exact_string set_entry
metadata_4 = refl
