-- ===== src/Core/Errors/Code.antt =====
-- The `ErrorCode` constants of internal/core/types.go.
use Prim.Native.String.{String}

abbrev pub validation_failed : String
validation_failed = "validation_failed"

abbrev pub session_not_found : String
session_not_found = "session_not_found"

abbrev pub task_not_found : String
task_not_found = "task_not_found"

abbrev pub artifact_not_found : String
artifact_not_found = "artifact_not_found"

abbrev pub session_finalized : String
session_finalized = "session_already_finalized"

abbrev pub task_finalized : String
task_finalized = "task_already_finalized"

abbrev pub capacity_unavailable : String
capacity_unavailable = "capacity_unavailable"

abbrev pub browser_unavailable : String
browser_unavailable = "browser_unavailable"

abbrev pub proxy_failed : String
proxy_failed = "proxy_failed"

abbrev pub navigation_failed : String
navigation_failed = "navigation_failed"

abbrev pub script_failed : String
script_failed = "script_failed"

abbrev pub timeout : String
timeout = "timeout"

abbrev pub unsupported_operation : String
unsupported_operation = "unsupported_operation"

abbrev pub internal : String
internal = "internal"
