-- ===== src/Server.antt =====
-- internal/server: the handlers of the HTTP API, as functions of the request's parameters and of the
-- service, into the status and the body of the response. A body is the record that is marshalled to
-- JSON; an error body is its code, which decides the message. Request ids, logs and the writing of
-- the JSON text are left out. go-ethereum's hexadecimal functions are the parameter `Hex`.
pub mod Numbers
pub mod Base64
pub mod Cursor
pub mod Hex
pub mod Responses
pub mod Handlers
