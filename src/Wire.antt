-- ===== src/Wire.antt =====
-- The formats that travel between client and server: the frames of network/banNet/DataPack.go, the
-- PUT payload of pkg/utils/message.go and service/ingesthook/filter.go, and the SCAN payloads of
-- pkg/proto/scan.go. Strings are byte strings.
pub mod Frame
pub mod Put
pub mod Scan
mod Tests
