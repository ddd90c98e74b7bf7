-- ===== src/EditorConn/Ipc/Tests.antt =====
-- Concrete messages. A string is its bytes here, and a JSON value is a number of one byte.
use darkpyonix_ember.Base.{
  suc, ℕ, ◌+◌, ◌≡◌, refl, none, some, Option, List, [], ◌∷◌, ◌++◌, length, arith,
}
use darkpyonix_ember.EditorConn.{ok, err, malformed, vql_too_long}
use darkpyonix_ember.EditorConn.Ipc.{
  Texts, pos, negsuc, IpcValue, undefined, string, buffer, array, object, int, nil, cons, write_vql,
  read_vql, serialize, deserialize, encode_message, decode_message, count,
}
use darkpyonix_ember.EditorConn.Ipc.Vql.{read_vql-write_vql}
use darkpyonix_ember.EditorConn.Ipc.RoundTrip.{
  Fits, FitsAll, FitsI32, deserialize-serialize, decode_message-encode_message,
  decode_message-header,
}

abbrev one_byte : List ℕ → Option ℕ
one_byte [] = none
one_byte (b ∷ bs) = some b

abbrev texts : Texts (List ℕ) ℕ
texts = record {
  as_bytes = λ s. s;
  from_utf8_lossy = λ b. b;
  to_string = λ j. j ∷ [];
  from_slice = one_byte;
}

too_long : read_vql (255 ∷ 255 ∷ 255 ∷ 255 ∷ 255 ∷ 255 ∷ 1 ∷ []) 0 ≡ err (malformed vql_too_long)
unfolding read_vql
too_long = refl

read_vql-write_vql_example :
    read_vql (9 ∷ (write_vql 300 ++ (7 ∷ []))) 1 ≡ ok (300, 1 + length (write_vql 300))
unfolding write_vql
read_vql-write_vql_example =
    read_vql-write_vql 300 (9 ∷ (write_vql 300 ++ (7 ∷ []))) 1 (7 ∷ []) (omega arith)
      (record { follows = refl; within = omega arith })

-- `[100, 0, "remoteFilesystem"]` and its argument, with shorter texts.
abbrev request : IpcValue (List ℕ) ℕ
request = array (cons (int (pos 100)) (cons (int (negsuc 0)) (cons (string (114 ∷ 102 ∷ [])) nil)))

request-Fits : Fits texts request
unfolding Fits FitsAll FitsI32 count
request-Fits = (omega arith, (omega arith, (omega arith, ((omega arith, refl), tt))))

argument : IpcValue (List ℕ) ℕ
argument = array (cons (buffer (1 ∷ 2 ∷ [])) (cons (object 5) nil))

argument-Fits : Fits texts argument
unfolding Fits FitsAll argument count
argument-Fits = (omega arith, (omega arith, ((omega arith, refl), tt)))

abbrev buf : List ℕ
unfolding serialize
buf = 8 ∷ (serialize texts request ++ (3 ∷ []))

deserialize-serialize_example :
    deserialize texts (suc (length buf)) buf 1 ≡ ok (request, 1 + length (serialize texts request))
unfolding serialize
deserialize-serialize_example =
    deserialize-serialize texts request buf 1 (3 ∷ []) request-Fits
      (record { follows = refl; within = omega arith })

decode_message-encode_message_example :
    decode_message texts (encode_message texts request argument) ≡ ok (request, argument)
decode_message-encode_message_example =
    decode_message-encode_message texts request argument request-Fits argument-Fits

decode_message-header_example :
    decode_message texts (serialize texts request) ≡ ok (request, undefined)
decode_message-header_example = decode_message-header texts request request-Fits
