-- ===== src/Packet.antt =====
-- src/SEDNL/Packet.cpp with include/SEDNL/Packet.{hpp,ipp}: typed values in a byte array.
pub mod Types
pub mod Write
pub mod Format
pub mod Encode
pub mod Read
pub mod ReadParts
pub mod RoundTrip
pub mod Gives
pub mod ReadFits
pub mod ReadTypes
pub mod Mismatch
pub mod Message
pub mod Print
pub mod Listing
pub mod Printed
pub mod Valid
pub mod ValidComplete
pub mod Decode
pub mod ValidSound
pub mod ValidIff
pub mod ValidReads
