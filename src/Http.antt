-- ===== src/Http.antt =====
-- The classes HTTPConnection and HTTPRequest of src/core/httpserver.cc.
pub mod State
pub mod Connection
pub mod Request
pub mod Head
pub mod Turn
pub mod Whole
pub mod Open
pub mod Arguments
pub mod FullUrl
pub mod Next
pub mod Line
pub mod Made
pub mod Shut
pub mod Serves
pub mod Malformed
pub mod KeepAlive
pub mod Body
