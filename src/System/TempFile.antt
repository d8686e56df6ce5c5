-- ===== src/System/TempFile.antt =====
-- temp_file.h, the class NamedTempFile: the template for mkstemp, which has 1024 bytes with its end.
use ced.Base.{ltb, if◌then◌else◌, Option, none, some, ◌++◌, length, bytes}
use ced.Proto.{Bytes}
use ced.Outcome.{Outcome, ok, fault}

-- `temp` is the environment's TEMP; a name that is too long is written behind the end of `tpl`.
unfoldable pub temp_template : Option Bytes → Outcome Bytes
temp_template temp =
    let name = elim temp [ none ↦ bytes "/tmp" | some t ↦ t ] ++ bytes "/ced.XXXXXX" in
    if ltb (length name) 1024 then ok name else fault
