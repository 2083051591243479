-- ===== src/Protocol/Ids/Kinds.antt =====
-- The kinds of identifiers in protocol/ids/ids.go. A kind is any text, as in the source.
use on_code.Prelude.{Bytes, codes}

abbrev pub Kind : Type 0
Kind = Bytes

abbrev pub message : Kind
message = codes "MSG"

abbrev pub call : Kind
call = codes "CALL"

abbrev pub session : Kind
session = codes "SES"

abbrev pub project : Kind
project = codes "PRJ"

abbrev pub workspace : Kind
workspace = codes "WS"

abbrev pub work_item : Kind
work_item = codes "WI"

abbrev pub workflow : Kind
workflow = codes "WF"

abbrev pub approval : Kind
approval = codes "APR"

abbrev pub change_set : Kind
change_set = codes "CHG"

abbrev pub task : Kind
task = codes "TASK"

abbrev pub execution : Kind
execution = codes "EXEC"
