-- ===== src/Wire.antt =====
-- The integers on the wire: QUIC's variable size integers and QPACK's prefixed integers (utils.c), and
-- the flavour of variable size integers that MoQ has (moq.c).
pub mod Varint
pub mod Pfxint
pub mod Moqint
pub mod Writer
pub mod Reader
