-- ===== src/Transaction/Examples.antt =====
-- The path of one request of core/transaction.c, on the sample CoAP library.
use galileom2m.Prelude.{◌≡◌, true, some, arith}
use galileom2m.Coap.Sample.{sample, sample_laws}
use galileom2m.Uri.{Uri, decode_uri}
use galileom2m.Transaction.{request}
use galileom2m.Transaction.Path.{addressed, decode_uri-request}

-- The uri /3/0/1.
abbrev reset_uri : Uri
reset_uri = record { flag = 7; object_id = 3; instance_id = 0; resource_id = 1 }

decode_uri-request_example :
    decode_uri true (sample.uri_path (request sample 1 (some reset_uri) 9))
    ≡ some (addressed reset_uri)
decode_uri-request_example =
    decode_uri-request sample sample_laws 1 9 reset_uri (omega arith) (omega arith) (omega arith)
