-- ===== src/Apollows/Names.antt =====
-- Reading and printing the names of protocols and of messages.
use wsgraphql.Prelude.{String, ◌≡◌, arith}
use wsgraphql.Apollows.{protocol_of_string, protocol_string, operation_of_string, operation_string}

-- Reading a protocol's text and printing it back loses nothing, whatever the text.
pub string-of-protocol : (s : String) → protocol_string (protocol_of_string s) ≡ s
unfolding protocol_string protocol_of_string
string-of-protocol s = ground arith

pub string-of-operation : (s : String) → operation_string (operation_of_string s) ≡ s
unfolding operation_string operation_of_string
string-of-operation s = ground arith
