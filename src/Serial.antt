-- ===== src/Serial.antt =====
-- src/serial.hh and src/serial.cc: the stream format of the rules and of the systemd tables.
-- An output stream is the list of bytes written; an input stream is the list of bytes left.
pub mod Stream
pub mod Scalar
pub mod Container
pub mod Record
