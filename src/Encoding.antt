-- ===== src/Encoding.antt =====
-- The OPC UA binary data encoding of qopcuabinarydataencoding.h and qopcuabinarydataencoding.cpp.
pub mod State
pub mod Decoder
pub mod Encoder
pub mod Transfer
pub mod Numbers
pub mod Strings
pub mod Arrays
pub mod Records
pub mod Structs
pub mod NodeId
pub mod Objects
pub mod Faults
